-- ===== src/CircularList/Rings.antt =====
-- What the memory holds: a ring of allocated nodes.
use tempos.Base.{◌≡◌, true, false, List, ◌∷◌, ◌==◌, ==_of_ne}
use tempos.Ring.Links.{mem, Ring}
use tempos.CircularList.{Ptr, null, Memory}

-- From the head `l` the links lead through the nodes `ps` back to it; all are allocated, and NULL is not.
pub record Circular (h : Memory) (l : Ptr) (ps : List Ptr) : Type 0 where
  pub ring : Ring h.next h.prev l ps
  pub all_live : (p : Ptr) → mem p (l ∷ ps) ≡ true → h.live p ≡ true
  pub null_dead : h.live null ≡ false

pub not_null : (h : Memory) (p : Ptr) → h.live null ≡ false → h.live p ≡ true → (p == null) ≡ false
not_null h p dead live = ==_of_ne p null (λ e. let d : h.live p ≡ false = rw e dead in cc)
