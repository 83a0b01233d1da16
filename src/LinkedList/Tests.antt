-- ===== src/LinkedList/Tests.antt =====
-- The theorems on linkedl.c at concrete lists.
use tempos.Base.{◌≡◌, refl, none, some, [], ◌∷◌, List, arith, Returns}
use tempos.LinkedList.{Heap, node, write, llist_add, llist_remove}
use tempos.LinkedList.Cells.{Cell, Holds}
use tempos.LinkedList.Add.{Added, llist_add-append}
use tempos.LinkedList.Remove.{Kept, llist_remove-drop}

abbrev heap : Heap
heap =
    write (write (write (λ _. none) 8 (some (node 70 16))) 16 (some (node 71 24))) 24
      (some (node 72 0))

abbrev cells : List Cell
cells = (8, 70) ∷ (16, 71) ∷ (24, 72) ∷ []

heap-Holds : Holds heap cells
unfolding write
heap-Holds = ground arith

llist_add-append_example : Returns (Added heap cells (32, 73)) (llist_add 4 32 heap 8 73)
unfolding write
llist_add-append_example =
    llist_add-append 4 heap cells 32 73 heap-Holds (omega arith) (omega arith) refl

llist_remove-drop_example :
    Returns
      (λ (r, l, g). (r ≡ 1) × (l ≡ 8) × Kept heap cells ((8, 70) ∷ (24, 72) ∷ []) g)
      (llist_remove 4 heap 8 71)
llist_remove-drop_example = llist_remove-drop 4 heap cells 71 heap-Holds (omega arith)
