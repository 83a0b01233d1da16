-- ===== src/Mm/Vmalloc/Free.antt =====
-- `kfree`: what it gives back, and where it does not end.
use tempos.Base.{
  ℕ, zero, suc, ◌+◌, ◌-◌, ◌*◌, ◌/◌, ◌%◌, ◌^◌, ◌≤◌, ◌<◌, ◌≡◌, refl, true, arith, leb, Bool-cases,
  inl, inr, out_of_fuel, Returns, returns, Returns-mono,
}
use tempos.Mm.Bitmap.{Bitmap, is_on, bmap_off}
use tempos.Mm.Bitmap.Bits.{IsBytes, bmap_off-IsBytes, is_on-bmap_off}
use tempos.Mm.Vmalloc.{Vm, region_size, free_pages, kfree}

-- every bit that is on in `m` is on in `m'`
abbrev pub Grows : Bitmap → Bitmap → Type 0
Grows m m' = (r : ℕ) → is_on m r ≡ true → is_on m' r ≡ true

bmap_off-Grows : (m : Bitmap) (block : ℕ) → IsBytes m → Grows m (bmap_off m block)
bmap_off-Grows m block bytes r on = ground (arith, is_on-bmap_off m block r bytes, on)

free_pages-Grows :
    (k initial ffpage dpages j i : ℕ) (v : Vm)
    → IsBytes v.bitmap
    → 0 < ffpage
    → dpages + 1 < ffpage + k
    → dpages < 2 ^ 32
    → ffpage ≤ dpages + 1
    → Returns (λ v'. Grows v.bitmap v'.bitmap) (free_pages k initial ffpage dpages j i v)
unfolding free_pages
free_pages-Grows zero initial ffpage dpages j i v bytes pos fuel word near = absurd (omega arith)
free_pages-Grows (suc k) initial ffpage dpages j i v bytes pos fuel word near =
    elim (Bool-cases (leb ffpage dpages)) [
      | inr done ↦ rw done (returns λ r on. on)
      | inl more ↦
          let le : ffpage ≤ dpages = ground arith in
          let down : (dpages + 2 ^ 32 - 1) % 2 ^ 32 ≡ dpages - 1 = omega arith in
          rw (more, down)
            (Returns-mono
              (free_pages-Grows k initial ffpage (dpages - 1) _ _ _
                (bmap_off-IsBytes v.bitmap (initial + dpages) bytes) pos (omega arith) (omega arith)
                (omega arith))
              λ v' grows r on. grows r (bmap_off-Grows v.bitmap (initial + dpages) bytes r on))
    ]

-- Where the first page of a block is not the first of its page table, `kfree` ends after a round for
-- each page of the block, and every bit that was on is on still: no page of the block becomes free.
pub kfree-Grows :
    (fuel ptr : ℕ) (v : Vm)
    → IsBytes v.bitmap
    → let r = v.regions (ptr - region_size) in
      0 < r.initial_addr % 1024
      → r.size < fuel
      → r.size < 2 ^ 31
      → Returns (λ v'. Grows v.bitmap v'.bitmap) (kfree fuel ptr v)
unfolding kfree
kfree-Grows fuel ptr v bytes pos enough small =
    free_pages-Grows fuel _ _ _ _ _ v bytes (omega arith) (omega arith) (omega arith) (omega arith)

leb-zero : (d : ℕ) → leb 0 d ≡ true
leb-zero d = ground arith

free_pages-endless :
    (k initial dpages j i : ℕ) (v : Vm) → free_pages k initial 0 dpages j i v ≡ out_of_fuel
unfolding free_pages
free_pages-endless zero initial dpages j i v = refl
free_pages-endless (suc k) initial dpages j i v =
    rw (leb-zero dpages) (free_pages-endless k initial _ _ _ _)

-- Where the first page of a block is the first of its page table, `kfree` does not end: its counter is
-- unsigned, and the loop waits for it to fall below 0.
pub kfree-endless :
    (fuel ptr : ℕ) (v : Vm)
    → (v.regions (ptr - region_size)).initial_addr % 1024 ≡ 0
    → kfree fuel ptr v ≡ out_of_fuel
unfolding kfree
kfree-endless fuel ptr v e =
    let r = v.regions (ptr - region_size) in
    let first_page : r.initial_addr - 1024 * (r.initial_addr / 1024) ≡ 0 = omega arith in
    rw first_page (free_pages-endless fuel _ _ _ _ v)
