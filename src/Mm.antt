-- ===== src/Mm.antt =====
-- The memory manager: kernel/kernel/mm and kernel/arch/x86/mm.
pub mod Bitmap
pub mod Pages
pub mod Vmalloc
pub mod Paging
