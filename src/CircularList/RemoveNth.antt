-- ===== src/CircularList/RemoveNth.antt =====
-- c_llist_remove_nth.
use tempos.Base.{
  ℕ, zero, suc, ◌<◌, ◌≡◌, refl, true, false, List, [], ◌∷◌, ◌++◌, arith, length, ◌==◌, ok,
}
use tempos.Ring.Links.{mem, Linked, Linked-split, mem-append}
use tempos.CircularList.{Ptr, Memory, c_llist_remove_nth}
use tempos.CircularList.Rings.{Circular, not_null}
use tempos.CircularList.Lookup.{walked, nth_walk-walked}
use tempos.CircularList.Remove.{dropped, drop_node-dropped, dropped-Circular}

-- the node behind
abbrev behind : (l : Ptr) → List Ptr → Ptr
behind l [] = l
behind l (y ∷ ys) = y

walked-behind :
    (l p : Ptr) (xs ys : List Ptr) → (walked l (xs ++ (p ∷ ys)) (suc (length xs))).0 ≡ behind l ys
walked-behind l p [] [] = refl
walked-behind l p [] (y ∷ ys) = refl
walked-behind l p (x ∷ xs) ys = walked-behind l p xs ys

walked-past : (l : Ptr) (ps : List Ptr) (n : ℕ) → (length ps < n) → (walked l ps n).0 ≡ l
walked-past l [] n past = refl
walked-past l (p ∷ ps) zero past = absurd (omega arith)
walked-past l (p ∷ ps) (suc n) past = walked-past l ps n (omega arith)

prev-behind :
    (h : Memory) (l p : Ptr) (ys : List Ptr)
    → Linked h.next h.prev p ys l
    → h.prev (behind l ys) ≡ p
prev-behind h l p [] c = c.1
prev-behind h l p (y ∷ ys) c = c.1

behind-mem : (l : Ptr) (ys : List Ptr) → mem (behind l ys) (l ∷ ys) ≡ true
behind-mem l [] = ground arith
behind-mem l (y ∷ ys) = ground arith

module _ (h : Memory) (l p : Ptr) (xs ys : List Ptr) (c : Circular h l (xs ++ (p ∷ ys)))
    (pos : ℕ) where
  -- where the walk ends at the node behind `p`
  remove_behind :
      0 < pos
      → (walked l (xs ++ (p ∷ ys)) pos).0 ≡ behind l ys
      → (c_llist_remove_nth h l pos ≡ ok (1, l, dropped h p)) × Circular (dropped h p) l (xs ++ ys)
  unfolding c_llist_remove_nth
  remove_behind some to =
      let ps = xs ++ (p ∷ ys) in
      let l_live = c.all_live l (ground arith) in
      let walk =
        nth_walk-walked h l l ps pos c.ring.0 c.ring.1.0 (λ q m. c.all_live q (ground arith)) in
      let (front, back) = Linked-split h.next h.prev l xs p ys l c.ring.0 in
      let b_live =
        c.all_live (behind l ys)
          (ground (arith, behind-mem l ys, mem-append (behind l ys) xs (p ∷ ys))) in
      let not_head : (p == l) ≡ false = ground (arith, c.ring.1.0, mem-append l xs (p ∷ ys)) in
      let above : (pos == 0) ≡ false = ground arith in
      (
        rw
            (
              not_null h l c.null_dead l_live,
              above,
              l_live,
              walk,
              to,
              b_live,
              prev-behind h l p ys back,
              not_head,
            )
            (drop_node-dropped h l p xs ys c),
        dropped-Circular h l p xs ys c,
      )

-- At a position above 0 that the list has, `c_llist_remove_nth` unlinks the node at that position, counted
-- from 0 at the head, gives it back to kmalloc and returns 1; the others keep their order.
pub c_llist_remove_nth-node :
    (h : Memory) (l p : Ptr) (xs ys : List Ptr)
    → Circular h l (xs ++ (p ∷ ys))
    → (c_llist_remove_nth h l (length (l ∷ xs)) ≡ ok (1, l, dropped h p))
      × Circular (dropped h p) l (xs ++ ys)
c_llist_remove_nth-node h l p xs ys c =
    remove_behind h l p xs ys c (length (l ∷ xs)) (omega arith) (walked-behind l p xs ys)

-- At a position past the end of a list of two nodes or more, `c_llist_remove_nth` does not fail: it removes
-- the last node and returns 1.
pub c_llist_remove_nth-past :
    (h : Memory) (l p : Ptr) (xs : List Ptr) (pos : ℕ)
    → Circular h l (xs ++ (p ∷ []))
    → length (l ∷ (xs ++ (p ∷ []))) < suc pos
    → (c_llist_remove_nth h l pos ≡ ok (1, l, dropped h p)) × Circular (dropped h p) l (xs ++ [])
c_llist_remove_nth-past h l p xs pos c past =
    remove_behind h l p xs [] c pos (omega arith) (walked-past l (xs ++ (p ∷ [])) pos (omega arith))
