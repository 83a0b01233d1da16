-- ===== src/CircularList/Tests.antt =====
-- The theorems on circular lists at a list of three nodes.
use tempos.Base.{◌*◌, ◌≡◌, refl, ◌&&◌, [], ◌∷◌, arith, ok, update, leb}
use tempos.CircularList.{null, Memory, c_llist_remove}
use tempos.CircularList.Rings.{Circular}
use tempos.CircularList.Remove.{dropped, c_llist_remove-first}

-- the nodes 1, 2 and 3 with the elements 10, 20 and 30; the head is 1
abbrev memory : Memory
memory = record {
  element = λ p. p * 10;
  prev = update (update (update (λ p. null) 1 3) 2 1) 3 2;
  next = update (update (update (λ p. null) 1 2) 2 3) 3 1;
  live = λ p. leb 1 p && leb p 3;
}

memory-Circular : Circular memory 1 (2 ∷ 3 ∷ [])
memory-Circular = record { ring = ground arith; all_live = λ p m. ground arith; null_dead = refl }

abbrev single : Memory
single = record { element = λ p. 10; prev = λ p. 1; next = λ p. 1; live = λ p. leb 1 p }

single-Circular : Circular single 1 []
single-Circular = record { ring = ground arith; all_live = λ p m. ground arith; null_dead = refl }

c_llist_remove-first_example :
    (c_llist_remove 3 memory 1 20 ≡ ok (1, 1, dropped memory 2))
    × Circular (dropped memory 2) 1 (3 ∷ [])
c_llist_remove-first_example =
    c_llist_remove-first 3 memory 1 2 20 [] (3 ∷ []) memory-Circular refl refl (omega arith)
