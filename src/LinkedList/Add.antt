-- ===== src/LinkedList/Add.antt =====
-- `llist_add` against lists of cells.
use tempos.Base.{
  ℕ, zero, suc, ◌<◌, ◌≡◌, refl, ◌≢◌, false, none, some, List, [], ◌∷◌, ◌++◌, arith, length, ok,
  Returns, returns, Returns-bind, Returns-mono,
}
use tempos.LinkedList.{Ptr, null, node, Heap, write, last_walk, link_last, llist_add}
use tempos.LinkedList.Cells.{
  Cell, has, first, Holds, SameOutside, has-append, Holds-write, has_of_none, not_null, load-ok,
  set_next-ok,
}

-- the walk from the cell `(p, e)` with the chain `cs` behind it
link_last-Holds :
    (k : ℕ) (h : Heap) (p e f x : Ptr) (cs : List Cell)
    → Holds h ((p, e) ∷ cs)
    → length cs < k
    → f ≢ null
    → h f ≡ some (node x null)
    → has f ((p, e) ∷ cs) ≡ false
    → Returns
        (λ g. Holds g ((p, e) ∷ cs ++ ((f, x) ∷ [])) × SameOutside ((p, e) ∷ cs) h g)
        (link_last k h p (first cs) f)
unfolding link_last last_walk write
link_last-Holds zero h p e f x cs s fuel nf at out = absurd (omega arith)
link_last-Holds (suc k) h p e f x [] s fuel nf at out =
    rw (not_null s.0, set_next-ok h s.0 s.1 f) (returns (ground arith, ground arith))
link_last-Holds (suc k) h p e f x ((q, y) ∷ cs) s fuel nf at out =
    rw (not_null s.3.0, load-ok h s.3.0 s.3.1)
      (Returns-mono (link_last-Holds k h q y f x cs s.3 (omega arith) nf at (ground arith))
        λ g (s', same). (
          (s.0, ground (arith, same p), ground (arith, has-append p cs ((f, x) ∷ [])), s'),
          λ a o. same a (ground arith),
        ))

-- what a call of `llist_add` that adds has to leave behind
abbrev pub Added : Heap → List Cell → Cell → ℕ × Ptr × Heap → Type 0
Added h cs c (r, list, g) =
    (r ≡ 1)
    × (list ≡ first (cs ++ (c ∷ [])))
    × Holds g (cs ++ (c ∷ []))
    × ((a : Ptr) → has a (c ∷ cs) ≡ false → g a ≡ h a)

-- Given an unused address from kmalloc, `llist_add` puts one new node with the element at the end of
-- the chain and returns 1; it writes at the nodes of the chain and at the new node only.
pub llist_add-append :
    (k : ℕ) (h : Heap) (cs : List Cell) (fresh x : Ptr)
    → Holds h cs
    → length cs < k
    → fresh ≢ null
    → h fresh ≡ none
    → Returns (Added h cs (fresh, x)) (llist_add k fresh h (first cs) x)
unfolding llist_add write link_last last_walk
llist_add-append zero h cs fresh x s fuel nf free = absurd (omega arith)
llist_add-append (suc k) h [] fresh x s fuel nf free =
    rw (not_null nf) (returns (refl, refl, (nf, ground arith, refl, tt), ground arith))
llist_add-append (suc k) h ((p, e) ∷ cs) fresh x s fuel nf free =
    let h1 = write h fresh (some (node x null)) in
    let out : has fresh ((p, e) ∷ cs) ≡ false = has_of_none h fresh ((p, e) ∷ cs) s free in
    let s1 : Holds h1 ((p, e) ∷ cs) =
      Holds-write h ((p, e) ∷ cs) fresh (some (node x null)) s out in
    rw (not_null nf, not_null s.0, load-ok h1 s1.0 s1.1)
      (Returns-bind (link_last-Holds k h1 p e fresh x cs s1 (omega arith) nf (ground arith) out)
        λ g (s', same). returns (refl, refl, s', λ a o. ground (arith, same a)))

-- When kmalloc fails, `llist_add` returns 0 and changes nothing.
pub llist_add-null : (k : ℕ) (h : Heap) (list x : Ptr) → llist_add k null h list x ≡ ok (0, list, h)
unfolding llist_add
llist_add-null k h list x = refl
