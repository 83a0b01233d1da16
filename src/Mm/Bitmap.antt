-- ===== src/Mm/Bitmap.antt =====
-- The bitmap of used pages: kernel/kernel/mm/init_mm.c. A bitmap is its array of bytes.
pub mod Bits
pub mod Init
mod Tests
use Prim.Native.Nat.{bit_and, bit_or}
use tempos.Base.{ℕ, zero, suc, ◌+◌, ◌-◌, ◌*◌, ◌/◌, ◌%◌, ◌^◌, Bool, not, ◌==◌, if◌then◌else◌, update}

abbrev pub Bitmap : Type 0
Bitmap = ℕ → ℕ

-- BITMAP_SIZE
abbrev pub bitmap_size : ℕ
bitmap_size = 0x20000

-- BITMAP_FBIT >> bit
abbrev pub mask : ℕ → ℕ
mask bit = 0x80 / 2 ^ bit

-- `memm->bitmap[i] & (BITMAP_FBIT >> j)` is not 0
unfoldable pub bit_at : Bitmap → (i j : ℕ) → Bool
bit_at m i j = not (bit_and (m i) (mask j) == 0)

-- the bit of a block
abbrev pub is_on : Bitmap → ℕ → Bool
is_on m block = bit_at m (block / 8) (block % 8)

-- `byte = block >> BITMAP_SHIFT`, `bit = block - (byte * 8)`
pub bmap_on : Bitmap → ℕ → Bitmap
bmap_on m block =
    let byte = block / 8 in let bit = block - byte * 8 in update m byte (bit_or (m byte) (mask bit))

-- `(uchar8_t)~x` is 255 - x
pub bmap_off : Bitmap → ℕ → Bitmap
bmap_off m block =
    let byte = block / 8 in
    let bit = block - byte * 8 in update m byte (bit_or (m byte) (255 - mask bit))

-- for(i = i; i < i + n; i++) map->bitmap[i] = 0;
pub clear_from : (n i : ℕ) → Bitmap → Bitmap
clear_from zero i m = m
clear_from (suc n) i m = clear_from n (i + 1) (update m i 0)

pub bmap_clear : Bitmap → Bitmap
bmap_clear m = clear_from bitmap_size 0 m

-- PAGE_ALIGN(addr) on 32 bits
abbrev pub page_align : ℕ → ℕ
page_align addr = (addr + 4096 - 1) % 2 ^ 32 / 4096 * 4096

-- KERNEL_PDIR_SPACE * TABLE_SIZE
abbrev pub kernel_base : ℕ
kernel_base = 768 * 1024

-- the loop of `init_mm` with `n` rounds left
pub map_kernel : (n i : ℕ) → Bitmap → Bitmap
map_kernel zero i m = m
map_kernel (suc n) i m = map_kernel n (i + 1) (bmap_on (bmap_on m i) (kernel_base + i))

-- `get_kernel_size()` is an argument
pub init_mm : (kernel_size : ℕ) → Bitmap → Bitmap
init_mm kernel_size m = map_kernel (page_align kernel_size / 4096) 0 (bmap_clear m)
