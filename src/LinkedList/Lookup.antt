-- ===== src/LinkedList/Lookup.antt =====
-- `llist_nth`, `llist_index` and `llist_length` against the list of elements.
use tempos.Base.{
  ℕ, zero, suc, ◌+◌, ◌%◌, ◌^◌, ◌<◌, ◌≡◌, refl, ◌∙◌, ap, List, [], ◌∷◌, arith, length, none, some,
  Option, get_elem?, ◌==◌, if◌then◌else◌, ok, ◌>>=◌,
}
use tempos.LinkedList.{
  Ptr, null, Heap, minus_one, nth_walk, read_element, llist_nth, index_walk, llist_index,
  length_walk, llist_length,
}
use tempos.LinkedList.Cells.{Cell, elements, first, Holds, not_null, load-ok}

-- the element that a lookup hands out: NULL for none
abbrev pub or_null : Option Ptr → Ptr
or_null none = null
or_null (some e) = e

nth_walk-elements :
    (h : Heap) (prev : Ptr) (cs : List Cell) (n : ℕ)
    → Holds h cs
    → (nth_walk h prev (first cs) n >>= read_element h) ≡ ok (or_null (get_elem? (elements cs) n))
unfolding nth_walk read_element
nth_walk-elements h prev [] zero s = refl
nth_walk-elements h prev [] (suc n) s = refl
nth_walk-elements h prev ((p, e) ∷ cs) zero s = rw (not_null s.0, load-ok h s.0 s.1)
nth_walk-elements h prev ((p, e) ∷ cs) (suc n) s =
    rw (not_null s.0, load-ok h s.0 s.1) (nth_walk-elements h p cs n s.3)

-- `llist_nth` returns the element at the index, counted from 0, and NULL past the end.
pub llist_nth-get_elem? :
    (h : Heap) (cs : List Cell) (n : ℕ)
    → Holds h cs
    → llist_nth h (first cs) n ≡ ok (or_null (get_elem? (elements cs) n))
unfolding llist_nth
llist_nth-get_elem? h cs n s = nth_walk-elements h (first cs) cs n s

-- the number of elements before the first `x`, and -1 where there is none
abbrev pub index_of : List Ptr → Ptr → ℕ → ℕ
index_of [] x p = minus_one
index_of (e ∷ es) x p = if e == x then p else index_of es x (p + 1)

index_walk-index_of :
    (k : ℕ) (h : Heap) (cs : List Cell) (x p : ℕ)
    → Holds h cs
    → length cs < k
    → p + length cs < 2 ^ 32
    → index_walk k h (first cs) x p ≡ ok (index_of (elements cs) x p)
unfolding index_walk
index_walk-index_of zero h cs x p s fuel small = absurd (omega arith)
index_walk-index_of (suc k) h [] x p s fuel small = refl
index_walk-index_of (suc k) h ((q, e) ∷ cs) x p s fuel small =
    let wrap : (p + 1) % 2 ^ 32 ≡ p + 1 = omega arith in
    rw
      (
        not_null s.0,
        load-ok h s.0 s.1,
        wrap,
        index_walk-index_of k h cs x (p + 1) s.3 (omega arith) (omega arith),
      )
      (ground arith)

-- `llist_index` returns the position of the first node with the element, counted from 0, and -1
-- where no node has it, for a list of fewer than 2^31 nodes.
pub llist_index-index_of :
    (k : ℕ) (h : Heap) (cs : List Cell) (x : ℕ)
    → Holds h cs
    → length cs < k
    → length cs < 2 ^ 31
    → llist_index k h (first cs) x ≡ ok (index_of (elements cs) x 0)
unfolding llist_index
llist_index-index_of k h [] x s fuel small = refl
llist_index-index_of k h ((q, e) ∷ cs) x s fuel small =
    rw
      (
        not_null s.0,
        load-ok h s.0 s.1,
        index_walk-index_of k h ((q, e) ∷ cs) x 0 s fuel (omega arith),
      )
      (ground arith)

length_walk-length :
    (k : ℕ) (h : Heap) (cs : List Cell) (n : ℕ)
    → Holds h cs
    → length cs < k
    → n + length cs < 2 ^ 32
    → length_walk k h (first cs) n ≡ ok (n + length cs)
unfolding length_walk
length_walk-length zero h cs n s fuel small = absurd (omega arith)
length_walk-length (suc k) h [] n s fuel small = ap ok (omega arith)
length_walk-length (suc k) h ((q, e) ∷ cs) n s fuel small =
    rw (not_null s.0, load-ok h s.0 s.1)
      (length_walk-length k h cs ((n + 1) % 2 ^ 32) s.3 (omega arith) (omega arith)
        ∙ ap ok (omega arith))

-- `llist_length` returns the number of nodes, for a list of fewer than 2^31 nodes.
pub llist_length-length :
    (k : ℕ) (h : Heap) (cs : List Cell)
    → Holds h cs
    → length cs < k
    → length cs < 2 ^ 31
    → llist_length k h (first cs) ≡ ok (length cs)
unfolding llist_length
llist_length-length k h cs s fuel small =
    length_walk-length k h cs 0 s fuel (omega arith) ∙ ap ok (omega arith)
