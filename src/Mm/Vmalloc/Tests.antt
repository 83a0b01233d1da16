-- ===== src/Mm/Vmalloc/Tests.antt =====
-- The theorems on kmalloc.c at a map with a few pages.
use tempos.Base.{ℕ, ◌+◌, ◌*◌, ◌<◌, ◌≡◌, refl, ◌≤◌, arith, Returns, ◌==◌, if◌then◌else◌}
use tempos.Mm.Bitmap.{bitmap_size, bit_at}
use tempos.Mm.Pages.{Pages, alloc_page}
use tempos.Mm.Vmalloc.{
  Vm, scan_start, scan_map, scan_byte, scan_bit, vmalloc, vmalloc_at, conclude, finish, alloc_pages,
  advance, pages_for, kfree,
}
use tempos.Mm.Vmalloc.Search.{NoRun, Found, scan_map-first_fit}
use tempos.Mm.Vmalloc.Alloc.{Fresh, vmalloc-Fresh}
use tempos.Mm.Vmalloc.Free.{Grows, kfree-Grows}

abbrev pages : Pages
pages = record { stack = λ i. (i + 1) * 4096; top = 0; max = 8 }

-- the kernel's first page is used
abbrev vm : Vm
vm = record {
  bitmap = λ i. if i == 0 then 0x80 else 0;
  entries = λ i. 0;
  pages = pages;
  regions = λ i. record { initial_addr = 5; size = 2 };
  bytes = λ i. 0;
}

vmalloc_runs : (vmalloc 100 0 vm).0 ≡ 4096 + 12
unfolding vmalloc vmalloc_at conclude finish alloc_pages advance pages_for scan_map scan_byte
    scan_bit alloc_page bit_at
vmalloc_runs = refl

vm-IsBytes : (i : ℕ) → vm.bitmap i < 256
vm-IsBytes i = ground arith

pages_for_100 : pages_for 100 ≡ 1
unfolding pages_for
pages_for_100 = refl

vmalloc-Fresh_example : Fresh 100 vm (vmalloc 100 0 vm)
vmalloc-Fresh_example =
    vmalloc-Fresh 100 0 vm vm-IsBytes (omega (arith, pages_for_100)) (omega (arith, vmalloc_runs))

scan_map-first_fit_example :
    let s = scan_map vm.bitmap 2 bitmap_size 0 scan_start in
    (2 ≤ s.apages → Found vm.bitmap 2 (bitmap_size * 8) s)
    × (s.apages < 2 → NoRun vm.bitmap 2 (bitmap_size * 8))
scan_map-first_fit_example = scan_map-first_fit vm.bitmap 2 (omega arith)

kfree-Grows_example : Returns (λ v'. Grows vm.bitmap v'.bitmap) (kfree 3 (5 * 4096 + 12) vm)
kfree-Grows_example =
    kfree-Grows 3 (5 * 4096 + 12) vm vm-IsBytes (omega arith) (omega arith) (omega arith)
