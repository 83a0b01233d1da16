-- ===== src/Mm/Bitmap/Init.antt =====
-- What `bmap_clear` and `init_mm` leave in the bitmap.
use Prim.Native.Nat.{bit_and, bit_and-bitwise}
use tempos.Base.{
  ℕ, zero, suc, ◌+◌, ◌*◌, ◌/◌, ◌%◌, ◌<◌, ◌≡◌, ◌∙◌, false, ◌||◌, ◌&&◌, arith, ltb, leb,
  if◌then◌else◌, update,
}
use tempos.Mm.Bitmap.{
  Bitmap, bitmap_size, mask, bit_at, is_on, bmap_on, clear_from, bmap_clear, page_align,
  kernel_base, map_kernel, init_mm,
}
use tempos.Mm.Bitmap.Bits.{IsBytes, bmap_on-IsBytes, is_on-bmap_on}

-- the byte at `b` after the rounds for `i`, …, `i + n - 1`
clear_from-get :
    (n i : ℕ) (m : Bitmap) (b : ℕ)
    → clear_from n i m b ≡ (if leb i b && ltb b (i + n) then 0 else m b)
unfolding clear_from
clear_from-get zero i m b = ground arith
clear_from-get (suc n) i m b = clear_from-get n (i + 1) (update m i 0) b ∙ ground arith

zero-bit_and : (b : ℕ) → bit_and 0 b ≡ 0
zero-bit_and b = bit_and-bitwise 0 b

-- `bmap_clear` turns off every bit of the bitmap.
pub is_on-bmap_clear :
    (m : Bitmap) (block : ℕ) → block < bitmap_size * 8 → is_on (bmap_clear m) block ≡ false
unfolding bmap_clear bit_at
is_on-bmap_clear m block h =
    ground (arith, clear_from-get bitmap_size 0 m (block / 8), zero-bit_and (mask (block % 8)))

bmap_clear-IsBytes : (m : Bitmap) → IsBytes m → IsBytes (bmap_clear m)
unfolding bmap_clear
bmap_clear-IsBytes m bytes i = ground (arith, clear_from-get bitmap_size 0 m i, bytes i)

is_on-map_kernel :
    (n i : ℕ) (m : Bitmap) (block : ℕ)
    → IsBytes m
    → is_on (map_kernel n i m) block ≡ (
        (leb i block && ltb block (i + n))
        || (leb (kernel_base + i) block && ltb block (kernel_base + i + n))
        || is_on m block)
unfolding map_kernel
is_on-map_kernel zero i m block bytes = ground arith
is_on-map_kernel (suc n) i m block bytes =
    let m1 = bmap_on m i in
    let b1 = bmap_on-IsBytes m i bytes in
    is_on-map_kernel n (i + 1) (bmap_on m1 (kernel_base + i)) block
      (bmap_on-IsBytes m1 (kernel_base + i) b1)
    ∙ ground (arith, is_on-bmap_on m1 (kernel_base + i) block b1, is_on-bmap_on m i block bytes)

-- After `init_mm` the bits that are on are those of the kernel's pages, counted from page 0 and once
-- more from the page at 3GB.
pub is_on-init_mm :
    (size : ℕ) (m : Bitmap) (block : ℕ)
    → IsBytes m
    → block < bitmap_size * 8
    → let pages = page_align size / 4096 in
      is_on (init_mm size m) block
      ≡ (ltb block pages || (leb kernel_base block && ltb block (kernel_base + pages)))
unfolding init_mm
is_on-init_mm size m block bytes h =
    is_on-map_kernel (page_align size / 4096) 0 (bmap_clear m) block (bmap_clear-IsBytes m bytes)
    ∙ ground (arith, is_on-bmap_clear m block h)
