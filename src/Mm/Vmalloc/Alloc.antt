-- ===== src/Mm/Vmalloc/Alloc.antt =====
-- What a successful `_vmalloc_` has done.
use tempos.Base.{
  ℕ, zero, suc, ◌+◌, ◌*◌, ◌^◌, ◌≤◌, ◌<◌, ◌≡◌, refl, ◌≢◌, ◌∙◌, Bool, true, false, ◌||◌, ◌&&◌, arith,
  ltb, leb, ◌==◌, Bool-cases, inl, inr,
}
use native.Mathlib.Nat.{add_assoc}
use tempos.Mm.Bitmap.{Bitmap, bitmap_size, is_on}
use tempos.Mm.Bitmap.Bits.{IsBytes, bmap_on-IsBytes, is_on-bmap_on}
use tempos.Mm.Pages.{Pages, alloc_page}
use tempos.Mm.Vmalloc.{
  Vm, scan_start, scan_map, Cursor, first_slot, conclude, advance, map_page, alloc_pages, finish,
  vmalloc_at, vmalloc, pages_for, region_size,
}
use tempos.Mm.Vmalloc.Search.{AllFree, NoRun, Found, scan_map-first_fit}

-- The blocks from `a` up to `b` are marked used, and the other bits are as they were.
abbrev pub Marked : Bitmap → (a b : ℕ) → Bitmap → Type 0
Marked m a b m' = (r : ℕ) → is_on m' r ≡ ((leb a r && ltb r b) || is_on m r)

alloc_page-top :
    (zone : ℕ) (s : Pages) → (alloc_page zone s).0 ≢ 0 → (alloc_page zone s).1.top ≡ s.top + 1
unfolding alloc_page
alloc_page-top zone s h = ground arith

advance-apages : (c : Cursor) → (advance c).apages ≡ c.apages + 1
unfolding advance
advance-apages c = ground arith

record Took (n pstart : ℕ) (c : Cursor) (v : Vm) (out : Bool × Cursor × Vm) : Type 0 where
  bits : Marked v.bitmap (pstart + c.apages) (pstart + c.apages + n) out.2.bitmap
  top : out.2.pages.top ≡ v.pages.top + n

alloc_pages-Took :
    (n zone user pstart : ℕ) (c : Cursor) (v : Vm)
    → IsBytes v.bitmap
    → (alloc_pages n zone user pstart c v).0 ≡ true
    → Took n pstart c v (alloc_pages n zone user pstart c v)
unfolding alloc_pages
alloc_pages-Took zero zone user pstart c v bytes done = record {
  bits = ground arith;
  top = omega arith;
}
alloc_pages-Took (suc n) zone user pstart c v bytes done =
    let (page, pages) = alloc_page zone v.pages in
    let v1 : Vm = map_page page user pstart c pages v in
    let b1 : IsBytes v1.bitmap = bmap_on-IsBytes v.bitmap (pstart + c.apages) bytes in
    elim (Bool-cases (page == 0)) [
      | inl none_left ↦ ground (arith, none_left, done)
      | inr got ↦
          let t = alloc_pages-Took n zone user pstart (advance c) v1 b1 (rw got at done) in
          rw got (record {
            bits = λ r.
                t.bits r
                ∙ ground
                    (arith, advance-apages c, is_on-bmap_on v.bitmap (pstart + c.apages) r bytes);
            top = omega (arith, t.top, alloc_page-top zone v.pages (λ z. ground (arith, got, z)));
          })
    ]

-- what `_vmalloc_` has done where it took the blocks from `pstart` on for `n` pages
record Allocated (n pstart : ℕ) (v : Vm) (out : ℕ × Vm) : Type 0 where
  address : out.0 ≡ pstart * 4096 + region_size
  bits : Marked v.bitmap pstart (pstart + (n + 1)) out.1.bitmap
  header : out.1.regions (pstart * 4096) ≡ record { initial_addr = pstart; size = n }
  taken : out.1.pages.top ≡ v.pages.top + (n + 1)

conclude-Allocated :
    (size flags pstart n : ℕ) (v : Vm) (out : Bool × Cursor × Vm)
    → (out.0 ≡ true → Took (n + 1) pstart (first_slot pstart) v out)
    → (conclude size flags pstart n out).0 ≢ 0
    → Allocated n pstart v (conclude size flags pstart n out)
unfolding conclude finish
conclude-Allocated size flags pstart n v (true, c, w) took got =
    let t = took refl in
    record {
      address = refl;
      bits = λ r. t.bits r ∙ ground arith;
      header = ground arith;
      taken = t.top;
    }
conclude-Allocated size flags pstart n v (false, c, w) took got = absurd (got refl)

vmalloc_at-Allocated :
    (size flags n pstart : ℕ) (v : Vm)
    → IsBytes v.bitmap
    → (vmalloc_at size flags n pstart v).0 ≢ 0
    → Allocated n pstart v (vmalloc_at size flags n pstart v)
unfolding vmalloc_at
vmalloc_at-Allocated size flags n pstart v bytes =
    conclude-Allocated size flags pstart n v _
      (alloc_pages-Took (n + 1) _ _ pstart (first_slot pstart) v bytes)

-- the rounding of a size to pages: the header fits in beside the block, and no page is left over
pub pages_for_bounds :
    (size : ℕ)
    → size + region_size + 4095 < 2 ^ 32
    → (size + region_size ≤ pages_for size * 4096)
      × (pages_for size * 4096 < size + region_size + 4096)
unfolding pages_for
pages_for_bounds size h = omega arith

-- what `kmalloc` promises of an address that it returns
pub record Fresh (size : ℕ) (v : Vm) (out : ℕ × Vm) : Type 0 where
  pub pstart : ℕ
  pub address : out.0 ≡ pstart * 4096 + region_size
  pub was_free : AllFree v.bitmap pstart (pstart + pages_for size)
  pub within : pstart + pages_for size ≤ bitmap_size * 8
  pub bits : Marked v.bitmap pstart (pstart + pages_for size + 1) out.1.bitmap
  pub header :
      out.1.regions (pstart * 4096) ≡ record { initial_addr = pstart; size = pages_for size }
  pub taken : out.1.pages.top ≡ v.pages.top + pages_for size + 1

-- If `_vmalloc_` returns an address, then the blocks for the size and the header were off and lie in
-- the bitmap, the address is behind the header at the first of them, the header records them, and the
-- bits that it turned on are those of these blocks and of the one block behind them: it takes one
-- page more than it has looked for.
pub vmalloc-Fresh :
    (size flags : ℕ) (v : Vm)
    → IsBytes v.bitmap
    → 0 < pages_for size
    → (vmalloc size flags v).0 ≢ 0
    → Fresh size v (vmalloc size flags v)
unfolding vmalloc
vmalloc-Fresh size flags v bytes some got =
    let s = scan_map v.bitmap (pages_for size) bitmap_size 0 scan_start in
    elim (Bool-cases (ltb s.apages (pages_for size))) [
      | inl short ↦ absurd (ground (arith, short, got))
      | inr fits ↦
          let f : Found v.bitmap (pages_for size) (bitmap_size * 8) s =
            (scan_map-first_fit v.bitmap (pages_for size) some).0 (ground (arith, fits)) in
          let a =
            vmalloc_at-Allocated size flags (pages_for size) s.pstart v bytes
              (λ z. got (rw fits z)) in
          rw fits (record {
            pstart = s.pstart;
            address = a.address;
            was_free = f.free;
            within = f.within;
            bits = λ r. a.bits r ∙ ground (arith, add_assoc s.pstart (pages_for size) 1);
            header = a.header;
            taken = omega (arith, a.taken);
          })
    ]

-- If no blocks in a row for the size and the header are off, `_vmalloc_` returns NULL and changes
-- nothing.
pub vmalloc-full :
    (size flags : ℕ) (v : Vm)
    → 0 < pages_for size
    → NoRun v.bitmap (pages_for size) (bitmap_size * 8)
    → vmalloc size flags v ≡ (0, v)
unfolding vmalloc
vmalloc-full size flags v some full =
    let s = scan_map v.bitmap (pages_for size) bitmap_size 0 scan_start in
    elim (Bool-cases (ltb s.apages (pages_for size))) [
      | inl short ↦ rw short
      | inr fits ↦
          let f : Found v.bitmap (pages_for size) (bitmap_size * 8) s =
            (scan_map-first_fit v.bitmap (pages_for size) some).0 (ground (arith, fits)) in
          absurd (full s.pstart f.within f.free)
    ]
