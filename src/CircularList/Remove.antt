-- ===== src/CircularList/Remove.antt =====
-- c_llist_remove.
use tempos.Base.{
  append-nil, ℕ, zero, suc, ◌<◌, ◌≡◌, refl, ◌≢◌, Bool, true, false, List, [], ◌∷◌, ◌++◌, arith,
  length, ◌==◌, if◌then◌else◌, ==_self, update, ok, Returns, returns,
}
use tempos.Ring.Links.{mem, Linked, Linked-split, mem-append, prv-mem, nxt-mem, Linked-join}
use tempos.Ring.Edit.{Ring-without, Distinct-mid, Distinct-back, nxt_without, prv_without}
use tempos.CircularList.{
  Ptr, null, Memory, set_next, set_prev, kfree, unlink, drop_node, find_walk, c_llist_remove,
}
use tempos.CircularList.Rings.{Circular, not_null}

-- the memory after `unlink` and kfree
abbrev pub dropped : Memory → Ptr → Memory
dropped h p = record h {
  prev = prv_without h.next h.prev p;
  next = nxt_without h.next h.prev p;
  live = update h.live p false;
}

module _ (h : Memory) (l p : Ptr) (xs ys : List Ptr) (c : Circular h l (xs ++ (p ∷ ys))) where
  -- the neighbours of a node
  next_live : h.live (h.next p) ≡ true
  next_live =
      let (front, back) = Linked-split h.next h.prev l xs p ys l c.ring.0 in
      let m = nxt-mem h.next h.prev p ys l back in
      c.all_live (h.next p) (ground (arith, mem-append (h.next p) xs (p ∷ ys)))

  prev_live : h.live (h.prev p) ≡ true
  prev_live =
      let (front, back) = Linked-split h.next h.prev l xs p ys l c.ring.0 in
      let m = prv-mem h.next h.prev l xs p front in
      c.all_live (h.prev p) (ground (arith, mem-append (h.prev p) xs (p ∷ ys)))

  here_live : h.live p ≡ true
  here_live = c.all_live p (ground (arith, mem-append p xs (p ∷ ys)))

  unlinked : Memory
  unlinked = record h { prev = prv_without h.next h.prev p; next = nxt_without h.next h.prev p }

  unlink-unlinked : unlink h p ≡ ok (h.next p, unlinked)
  unfolding unlink set_prev set_next unlinked
  unlink-unlinked = rw (here_live, next_live, prev_live) refl

  kfree-unlinked : kfree unlinked p ≡ ok (dropped h p)
  unfolding kfree unlinked
  kfree-unlinked = rw here_live refl

  pub drop_node-dropped : drop_node h l p ≡ ok (1, l, dropped h p)
  unfolding drop_node
  drop_node-dropped = rw (unlink-unlinked, kfree-unlinked) refl

  pub dropped-Circular : Circular (dropped h p) l (xs ++ ys)
  dropped-Circular = record {
    ring = Ring-without h.next h.prev l p xs ys c.ring;
    all_live = λ q m. ground (
      arith,
      Distinct-mid p xs ys c.ring.1.1,
      mem-append q xs ys,
      mem-append q xs (p ∷ ys),
      mem-append l xs (p ∷ ys),
      c.all_live q,
    );
    null_dead = ground (arith, c.null_dead);
  }

-- from the second node as the head
pub rotate-Circular :
    (h : Memory) (l y : Ptr) (ys : List Ptr) → Circular h l (y ∷ ys) → Circular h y (ys ++ (l ∷ []))
rotate-Circular h l y ys c =
    let (to, from, rest) = c.ring.0 in
    record {
      ring = (
        Linked-join h.next h.prev y ys l [] y rest (to, from),
        Distinct-back l (y ∷ ys) c.ring.1.1 c.ring.1.0,
      );
      all_live = λ q m. ground (arith, mem-append q ys (l ∷ []), c.all_live q);
      null_dead = c.null_dead;
    }

-- no node has the element
abbrev pub lacks : (element : Ptr → Ptr) → Ptr → List Ptr → Bool
lacks element x [] = true
lacks element x (p ∷ ps) = if element p == x then false else lacks element x ps

-- the first node with the element, else `d`
abbrev find : (element : Ptr → Ptr) → Ptr → List Ptr → Ptr → Ptr
find element x [] d = d
find element x (p ∷ ps) d = if element p == x then p else find element x ps d

find-first :
    (element : Ptr → Ptr) (x p : Ptr) (xs ys : List Ptr) (d : Ptr)
    → lacks element x xs ≡ true
    → element p ≡ x
    → find element x (xs ++ (p ∷ ys)) d ≡ p
find-first element x p [] ys d none e = ground arith
find-first element x p (q ∷ xs) ys d none e = ground (arith, find-first element x p xs ys d)

find-lacks :
    (element : Ptr → Ptr) (x : Ptr) (ps : List Ptr) (d : Ptr)
    → lacks element x ps ≡ true
    → find element x ps d ≡ d
find-lacks element x [] d none = refl
find-lacks element x (p ∷ ps) d none = ground (arith, find-lacks element x ps d)

find_walk-find :
    (k : ℕ) (h : Memory) (l a x : Ptr) (ps : List Ptr)
    → Linked h.next h.prev a ps l
    → mem l ps ≡ false
    → ((p : Ptr) → mem p ps ≡ true → h.live p ≡ true)
    → length ps < k
    → find_walk k h l (h.next a) x ≡ ok (find h.element x ps l)
unfolding find_walk
find_walk-find zero h l a x ps c o live fuel = absurd (omega arith)
find_walk-find (suc k) h l a x [] c o live fuel = ground arith
find_walk-find (suc k) h l a x (p ∷ ps) c o live fuel =
    let rest =
      find_walk-find k h l p x ps c.2 (ground arith) (λ y m. live y (ground arith)) (omega arith) in
    let p_live = live p (ground arith) in rw (c.0, p_live, rest) (ground arith)

-- Where the head does not have the element and another node has, `c_llist_remove` unlinks the first such
-- node, gives it back to kmalloc and returns 1 with the same head; the others keep their order.
pub c_llist_remove-first :
    (k : ℕ) (h : Memory) (l p x : Ptr) (xs ys : List Ptr)
    → Circular h l (xs ++ (p ∷ ys))
    → lacks h.element x (l ∷ xs) ≡ true
    → h.element p ≡ x
    → length (xs ++ (p ∷ ys)) < k
    → (c_llist_remove k h l x ≡ ok (1, l, dropped h p)) × Circular (dropped h p) l (xs ++ ys)
unfolding c_llist_remove
c_llist_remove-first k h l p x xs ys c none e fuel =
    let ps = xs ++ (p ∷ ys) in
    let l_live = c.all_live l (ground arith) in
    let other : (h.element l == x) ≡ false = ground arith in
    let walk =
      find_walk-find k h l l x ps c.ring.0 c.ring.1.0 (λ q m. c.all_live q (ground arith)) fuel in
    let found = find-first h.element x p xs ys l (ground arith) e in
    let not_head : (p == l) ≡ false = ground (arith, c.ring.1.0, mem-append l xs (p ∷ ys)) in
    (
      rw (not_null h l c.null_dead l_live, l_live, other, walk, found, not_head)
          (drop_node-dropped h l p xs ys c),
      dropped-Circular h l p xs ys c,
    )

-- Where no node has the element, `c_llist_remove` returns 0 and changes nothing.
pub c_llist_remove-lacks :
    (k : ℕ) (h : Memory) (l x : Ptr) (ps : List Ptr)
    → Circular h l ps
    → lacks h.element x (l ∷ ps) ≡ true
    → length ps < k
    → c_llist_remove k h l x ≡ ok (0, l, h)
unfolding c_llist_remove
c_llist_remove-lacks k h l x ps c none fuel =
    let l_live = c.all_live l (ground arith) in
    let other : (h.element l == x) ≡ false = ground arith in
    let walk =
      find_walk-find k h l l x ps c.ring.0 c.ring.1.0 (λ q m. c.all_live q (ground arith)) fuel in
    let found = find-lacks h.element x ps l (ground arith) in
    rw (not_null h l c.null_dead l_live, l_live, other, walk, found, ==_self l) refl

-- Where the head has the element and there are more nodes, `c_llist_remove` unlinks the head, gives it back
-- to kmalloc and returns 1 with the second node as the head; the others keep their order.
pub c_llist_remove-head :
    (k : ℕ) (h : Memory) (l y : Ptr) (ys : List Ptr)
    → Circular h l (y ∷ ys)
    → (c_llist_remove k h l (h.element l) ≡ ok (1, y, dropped h l)) × Circular (dropped h l) y ys
unfolding c_llist_remove
c_llist_remove-head k h l y ys c =
    let c' = rotate-Circular h l y ys c in
    let l_live = c.all_live l (ground arith) in
    (
      rw
          (
            not_null h l c.null_dead l_live,
            l_live,
            ==_self (h.element l),
            unlink-unlinked h y l ys [] c',
            kfree-unlinked h y l ys [] c',
            c.ring.0.0,
          )
          refl,
      rw (append-nil ys) at (dropped-Circular h y l ys [] c'),
    )

-- Where the only node has the element, `c_llist_remove` gives it back to kmalloc and returns its address
-- as the head: not NULL, and no longer allocated.
pub c_llist_remove-only :
    (k : ℕ) (h : Memory) (l : Ptr)
    → Circular h l []
    → Returns
        (λ (r, l', h'). (r ≡ 1) × (l' ≢ null) × (h'.live l' ≡ false))
        (c_llist_remove k h l (h.element l))
unfolding c_llist_remove unlink set_prev set_next kfree
c_llist_remove-only k h l c =
    let l_live = c.all_live l (ground arith) in
    let ne : l ≢ null = λ e. let d : h.live l ≡ false = rw e c.null_dead in cc in
    rw (not_null h l c.null_dead l_live, l_live, ==_self (h.element l), c.ring.0.0, c.ring.0.1)
      (rw l_live (rw l_live (rw l_live (returns (refl, ne, ground arith)))))
