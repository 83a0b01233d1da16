-- ===== src/LinkedList/Cells.antt =====
-- What a chain of nodes stands for: the address and the element of each node, in order.
use mathlib.Core.Bool.{or_assoc}
use tempos.Base.{
  ◌≡◌, refl, ◌≢◌, Bool, true, false, ◌||◌, some, none, Option, List, [], ◌∷◌, ◌++◌, arith, ◌==◌, ok,
  fault,
}
use tempos.LinkedList.{Ptr, null, Node, node, Heap, write, load, set_next, kfree}

abbrev pub Cell : Type 0
Cell = Ptr × Ptr

abbrev pub has : Ptr → List Cell → Bool
has a [] = false
has a ((p, e) ∷ cs) = a == p || has a cs

abbrev pub elements : List Cell → List Ptr
elements [] = []
elements ((p, e) ∷ cs) = e ∷ elements cs

-- the pointer to a chain
abbrev pub first : List Cell → Ptr
first [] = null
first ((p, e) ∷ cs) = p

-- The heap holds the chain: its nodes are allocated, distinct, and each leads to the next.
abbrev pub Holds : Heap → List Cell → Type 0
Holds h [] = Unit {0}
Holds h ((p, e) ∷ cs) =
    (p ≢ null) × (h p ≡ some (node e (first cs))) × (has p cs ≡ false) × Holds h cs

-- `g` differs from `h` at most at the nodes of `cs`.
abbrev pub SameOutside : List Cell → Heap → Heap → Type 0
SameOutside cs h g = (a : Ptr) → has a cs ≡ false → g a ≡ h a

pub has-append : (a : Ptr) (xs ys : List Cell) → has a (xs ++ ys) ≡ (has a xs || has a ys)
has-append a [] ys = refl
has-append a ((p, e) ∷ xs) ys = rw (has-append a xs ys, or_assoc)

-- A chain survives what spares its nodes.
pub Holds-same :
    (h : Heap) {g : Heap} (cs : List Cell)
    → Holds h cs
    → ((a : Ptr) → has a cs ≡ true → g a ≡ h a)
    → Holds g cs
Holds-same h [] s same = tt
Holds-same h ((p, e) ∷ cs) s same =
    (s.0, ground (arith, same p), s.2, Holds-same h cs s.3 (λ a i. same a (ground arith)))

pub Holds-write :
    (h : Heap) (cs : List Cell) (a : Ptr) (c : Option Node)
    → Holds h cs
    → has a cs ≡ false
    → Holds (write h a c) cs
unfolding write
Holds-write h cs a c s out = Holds-same h cs s (λ b i. ground arith)

-- An unallocated address is none of the nodes.
pub has_of_none : (h : Heap) (a : Ptr) (cs : List Cell) → Holds h cs → h a ≡ none → has a cs ≡ false
has_of_none h a [] s e = refl
has_of_none h a ((p, x) ∷ cs) s e = ground (arith, has_of_none h a cs s.3 e)

pub not_null : {p : Ptr} → p ≢ null → (p == null) ≡ false
not_null ne = ground arith

module _ (h : Heap) {p e q : Ptr} (ne : p ≢ null) (at : h p ≡ some (node e q)) where
  pub load-ok : load h p ≡ ok (node e q)
  unfolding load
  load-ok = rw (not_null ne, at)

  pub set_next-ok : (r : Ptr) → set_next h p r ≡ ok (write h p (some (node e r)))
  unfolding set_next
  set_next-ok r = rw (not_null ne, at)

  pub kfree-ok : kfree h p ≡ ok (write h p none)
  unfolding kfree
  kfree-ok = rw (not_null ne, at)

-- reading through NULL
pub load-null : (h : Heap) → load h null ≡ fault
unfolding load
load-null h = refl

-- reading a node that is not allocated
pub load-fault : (h : Heap) (p : Ptr) → h p ≡ none → load h p ≡ fault
unfolding load
load-fault h p gone = ground arith
