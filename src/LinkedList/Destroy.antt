-- ===== src/LinkedList/Destroy.antt =====
-- `llist_destroy`
use tempos.Base.{ℕ, suc, ◌≡◌, refl, none, List, [], ◌∷◌, arith, fault}
use tempos.LinkedList.{Ptr, null, Heap, write, load, kfree, free_each, llist_destroy}
use tempos.LinkedList.Cells.{Cell, Holds, not_null, load-ok, kfree-ok}

load-freed : (h : Heap) (p : Ptr) → load (write h p none) p ≡ fault
unfolding load write
load-freed h p = ground arith

kfree-null : (h : Heap) → kfree h null ≡ fault
unfolding kfree
kfree-null h = refl

-- On a chain with at least one node `llist_destroy` does what C leaves undefined: it reads the `next` of
-- the second node after it has freed that node, or hands NULL to kfree where there is no second node.
pub llist_destroy-fault :
    (k : ℕ) (h : Heap) (p e : Ptr) (cs : List Cell)
    → Holds h ((p, e) ∷ cs)
    → llist_destroy (suc k) h p ≡ fault
unfolding llist_destroy free_each
llist_destroy-fault k h p e [] s = rw (not_null s.0, load-ok h s.0 s.1, kfree-null h)
llist_destroy-fault k h p e ((q, y) ∷ cs) s =
    rw (not_null s.0, load-ok h s.0 s.1, not_null s.3.0, kfree-ok h s.3.0 s.3.1, load-freed h q)
