-- ===== src/LinkedList/Remove.antt =====
-- `llist_remove` and `llist_remove_nth` against lists of cells.
use tempos.Base.{
  ℕ, zero, suc, ◌<◌, ◌≡◌, refl, Bool, true, false, ◌||◌, none, some, List, [], ◌∷◌, arith, length,
  erase_idx, ◌==◌, if◌then◌else◌, Bool-cases, ==_of_ne, inl, inr, ok, fault, ◌>>=◌, Returns,
  returns, Returns-mono,
}
use tempos.LinkedList.{
  Ptr, null, load, node, Heap, write, drop_first, unlink, nth_walk, unlink_nth, llist_remove_nth,
  find_walk, unlink_found, llist_remove,
}
use tempos.LinkedList.Cells.{
  Cell, has, first, Holds, SameOutside, Holds-same, not_null, load-ok, set_next-ok, kfree-ok,
}

-- the cells without the first one that holds `x`
abbrev pub drop_element : List Cell → Ptr → List Cell
drop_element [] x = []
drop_element ((p, e) ∷ cs) x = if e == x then cs else (p, e) ∷ drop_element cs x

abbrev pub contains : List Cell → Ptr → Bool
contains [] x = false
contains ((p, e) ∷ cs) x = e == x || contains cs x

-- From the chain `cs` to the chain `ds` of some of its nodes: the others are given back to kmalloc,
-- and nothing else changes.
abbrev pub Kept : Heap → List Cell → List Cell → Heap → Type 0
Kept h cs ds g =
    Holds g ds × SameOutside cs h g × ((a : Ptr) → has a cs ≡ true → has a ds ≡ false → g a ≡ none)

-- the node behind `(p, e)` is unlinked
unlink-Kept :
    (h : Heap) (list p e q y : Ptr) (cs : List Cell)
    → Holds h ((p, e) ∷ (q, y) ∷ cs)
    → Returns
        (λ (r, l, g). (r ≡ 1) × (l ≡ list) × Kept h ((p, e) ∷ (q, y) ∷ cs) ((p, e) ∷ cs) g)
        (unlink h list p q)
unfolding unlink write
unlink-Kept h list p e q y cs s =
    let h1 = write h p (some (node e (first cs))) in
    let at : h1 q ≡ some (node y (first cs)) = ground arith in
    rw (load-ok h s.3.0 s.3.1, set_next-ok h s.0 s.1 (first cs), kfree-ok h1 s.3.0 at)
      (returns (
        refl,
        refl,
        (
          (s.0, ground arith, ground arith, Holds-same h cs s.3.3 (λ a i. ground arith)),
          ground arith,
          ground arith,
        ),
      ))

-- What a removal behind the cell `c` did is what it did to the chain from `(p, e)`.
Kept-cons :
    (h : Heap) {g : Heap} (p e q y : Ptr) (cs ds : List Cell)
    → Holds h ((p, e) ∷ (q, y) ∷ cs)
    → Kept h ((q, y) ∷ cs) ((q, y) ∷ ds) g
    → ((a : Ptr) → has a cs ≡ false → has a ds ≡ false)
    → Kept h ((p, e) ∷ (q, y) ∷ cs) ((p, e) ∷ (q, y) ∷ ds) g
Kept-cons h p e q y cs ds s (s', same, freed) sub = (
  (s.0, ground (arith, same p), ground (arith, sub p), s'),
  λ a o. same a (ground arith),
  λ a i o. freed a (ground arith) (ground arith),
)

has-drop_element :
    (a x : Ptr) (cs : List Cell) → has a cs ≡ false → has a (drop_element cs x) ≡ false
has-drop_element a x [] o = refl
has-drop_element a x ((p, e) ∷ cs) o = ground (arith, has-drop_element a x cs)

has-erase_idx :
    (a : Ptr) (n : ℕ) (cs : List Cell) → has a cs ≡ false → has a (erase_idx cs n) ≡ false
has-erase_idx a n [] o = refl
has-erase_idx a zero ((p, e) ∷ cs) o = ground arith
has-erase_idx a (suc n) ((p, e) ∷ cs) o = ground (arith, has-erase_idx a n cs)

Kept-refl : (h : Heap) (cs : List Cell) → Holds h cs → Kept h cs cs h
Kept-refl h cs s = (s, (λ a o. refl), λ a i o. ground arith)

-- from the cell `(p, e)`, with the chain `cs` behind it
find_walk-Kept :
    (k : ℕ) (h : Heap) (list p e x : Ptr) (cs : List Cell)
    → Holds h ((p, e) ∷ cs)
    → length cs < k
    → Returns
        (λ (r, l, g).
          (r ≡ (if contains cs x then 1 else 0))
          × (l ≡ list)
          × Kept h ((p, e) ∷ cs) ((p, e) ∷ drop_element cs x) g)
        (find_walk k h p (first cs) x >>= unlink_found h list)
unfolding find_walk unlink_found
find_walk-Kept zero h list p e x cs s fuel = absurd (omega arith)
find_walk-Kept (suc k) h list p e x [] s fuel = returns (refl, refl, Kept-refl h ((p, e) ∷ []) s)
find_walk-Kept (suc k) h list p e x ((q, y) ∷ cs) s fuel =
    rw (not_null s.3.0, load-ok h s.3.0 s.3.1)
      (elim (Bool-cases (y == x)) [
        | inl hit ↦ rw (hit, not_null s.3.0, not_null s.0) (unlink-Kept h list p e q y cs s)
        | inr miss ↦ rw miss (
            Returns-mono (find_walk-Kept k h list q y x cs s.3 (omega arith)) λ (r, l, g) d. (
              d.0,
              d.1,
              Kept-cons h p e q y cs (drop_element cs x) s d.2 λ a. has-drop_element a x cs,
            ))
      ])

drop_first-Kept :
    (h : Heap) (p e : Ptr) (cs : List Cell)
    → Holds h ((p, e) ∷ cs)
    → Returns (λ (r, l, g). (r ≡ 1) × (l ≡ first cs) × Kept h ((p, e) ∷ cs) cs g) (drop_first h p)
unfolding drop_first write
drop_first-Kept h p e cs s =
    rw (load-ok h s.0 s.1, kfree-ok h s.0 s.1)
      (returns
        (refl, refl, (Holds-same h cs s.3 (λ a i. ground arith), ground arith, ground arith)))

-- `llist_remove` unlinks the first node with the element, gives that node back to kmalloc and returns
-- 1; where no node has the element it returns 0. Every other node and the order stay, and nothing
-- outside the chain changes.
pub llist_remove-drop :
    (k : ℕ) (h : Heap) (cs : List Cell) (x : Ptr)
    → Holds h cs
    → length cs < k
    → Returns
        (λ (r, l, g).
          (r ≡ (if contains cs x then 1 else 0))
          × (l ≡ first (drop_element cs x))
          × Kept h cs (drop_element cs x) g)
        (llist_remove k h (first cs) x)
unfolding llist_remove find_walk
llist_remove-drop zero h cs x s fuel = absurd (omega arith)
llist_remove-drop (suc k) h [] x s fuel = returns (refl, refl, Kept-refl h [] s)
llist_remove-drop (suc k) h ((p, e) ∷ cs) x s fuel =
    rw (not_null s.0, load-ok h s.0 s.1)
      (elim (Bool-cases (e == x)) [
        | inl hit ↦ rw hit (drop_first-Kept h p e cs s)
        | inr miss ↦ rw miss (find_walk-Kept k h p p e x cs s (omega arith))
      ])

-- the walk of `llist_remove` past a chain without the element
find_walk-absent :
    (k : ℕ) (h : Heap) (prev x : Ptr) (cs : List Cell)
    → Holds h cs
    → length cs < k
    → contains cs x ≡ false
    → (last : Ptr) × (find_walk k h prev (first cs) x ≡ ok (last, null))
unfolding find_walk
find_walk-absent zero h prev x cs s fuel absent = absurd (omega arith)
find_walk-absent (suc k) h prev x [] s fuel absent = (prev, refl)
find_walk-absent (suc k) h prev x ((p, e) ∷ cs) s fuel absent =
    let differs : (e == x) ≡ false = ground arith in
    let (last, rest) = find_walk-absent k h p x cs s.3 (omega arith) (ground arith) in
    (last, rw (not_null s.0, load-ok h s.0 s.1) (rw differs rest))

-- Where no node has the element, `llist_remove` returns 0 and writes nothing at all.
pub llist_remove-absent :
    (k : ℕ) (h : Heap) (cs : List Cell) (x : Ptr)
    → Holds h cs
    → length cs < k
    → contains cs x ≡ false
    → llist_remove k h (first cs) x ≡ ok (0, first cs, h)
unfolding llist_remove unlink_found
llist_remove-absent k h [] x s fuel absent = refl
llist_remove-absent k h ((p, e) ∷ cs) x s fuel absent =
    let differs : (e == x) ≡ false = ground arith in
    let (last, walk) = find_walk-absent k h p x ((p, e) ∷ cs) s fuel absent in
    rw (not_null s.0, load-ok h s.0 s.1) (rw differs (rw walk refl))

-- the walk of `llist_remove_nth` from the cell `(p, e)`, with the chain `cs` behind it
nth_walk-Kept :
    (n : ℕ) (h : Heap) (list p e : Ptr) (cs : List Cell)
    → Holds h ((p, e) ∷ cs)
    → Returns
        (λ (r, l, g). (r ≡ 1) × (l ≡ list) × Kept h ((p, e) ∷ cs) ((p, e) ∷ erase_idx cs n) g)
        (nth_walk h p (first cs) n >>= unlink_nth h list)
unfolding nth_walk unlink_nth
nth_walk-Kept zero h list p e [] s =
    rw (not_null s.0) (returns (refl, refl, Kept-refl h ((p, e) ∷ []) s))
nth_walk-Kept (suc n) h list p e [] s =
    rw (not_null s.0) (returns (refl, refl, Kept-refl h ((p, e) ∷ []) s))
nth_walk-Kept zero h list p e ((q, y) ∷ cs) s =
    rw (not_null s.0, not_null s.3.0) (unlink-Kept h list p e q y cs s)
nth_walk-Kept (suc n) h list p e ((q, y) ∷ cs) s =
    rw (not_null s.3.0, load-ok h s.3.0 s.3.1)
      (Returns-mono (nth_walk-Kept n h list q y cs s.3) λ (r, l, g) d.
        (d.0, d.1, Kept-cons h p e q y cs (erase_idx cs n) s d.2 λ a. has-erase_idx a n cs))

-- On a chain with at least one node `llist_remove_nth` unlinks the node at `pos`, counted from 0, and
-- gives it back to kmalloc. Where the chain has no node at `pos` it changes nothing. It returns 1
-- either way.
pub llist_remove_nth-erase_idx :
    (h : Heap) (cs : List Cell) (pos : ℕ)
    → Holds h cs
    → 0 < length cs
    → Returns
        (λ (r, l, g). (r ≡ 1) × (l ≡ first (erase_idx cs pos)) × Kept h cs (erase_idx cs pos) g)
        (llist_remove_nth h (first cs) pos)
unfolding llist_remove_nth nth_walk
llist_remove_nth-erase_idx h [] pos s some_node = absurd (omega arith)
llist_remove_nth-erase_idx h ((p, e) ∷ cs) zero s some_node = drop_first-Kept h p e cs s
llist_remove_nth-erase_idx h ((p, e) ∷ cs) (suc pos) s some_node =
    rw (==_of_ne (suc pos) 0 (omega arith), not_null s.0, load-ok h s.0 s.1)
      (nth_walk-Kept pos h p p e cs s)

-- On the empty list `llist_remove_nth` returns 0 at every position but 0, where it reads through NULL.
pub llist_remove_nth-null :
    (h : Heap) (pos : ℕ)
    → llist_remove_nth h null pos ≡ (if pos == 0 then fault else ok (0, null, h))
unfolding llist_remove_nth nth_walk unlink_nth drop_first load
llist_remove_nth-null h zero = refl
llist_remove_nth-null h (suc pos) = refl
