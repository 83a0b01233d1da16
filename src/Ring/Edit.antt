-- ===== src/Ring/Edit.antt =====
-- Taking a node out of a circular list, and putting one in.
use tempos.Base.{ℕ, ◌≡◌, false, List, [], ◌∷◌, ◌++◌, arith, update}
use tempos.Ring.Links.{
  mem, Distinct, Linked, Ring, mem-append, Linked-same, Linked-split, nxt-mem, prv-mem, mem-ne,
}

-- prv(p)->next = nxt(p); nxt(p)->prev = prv(p);
module _ (nxt prv : ℕ → ℕ) (p : ℕ) where
  abbrev pub nxt_without : ℕ → ℕ
  nxt_without = update nxt (prv p) (nxt p)

  abbrev pub prv_without : ℕ → ℕ
  prv_without = update prv (nxt p) (prv p)

  Linked-without :
      (a : ℕ) (xs ys : List ℕ) (z : ℕ)
      → Linked nxt prv a xs p
      → Linked nxt prv p ys z
      → Distinct (a ∷ (xs ++ (p ∷ ys)))
      → mem z (xs ++ (p ∷ ys)) ≡ false
      → Linked nxt_without prv_without a (xs ++ ys) z
  Linked-without a [] [] z front back d o = ground arith
  Linked-without a [] (y ∷ ys) z front back d o = (
    ground arith,
    ground arith,
    Linked-same nxt prv nxt_without prv_without y ys z back.2
        (λ x m. ground (arith, mem-ne x a (y ∷ ys) m))
        (λ x m. ground (arith, mem-ne x y (z ∷ ys) m)),
  )
  Linked-without a (x ∷ xs) ys z front back d o =
      let before = prv-mem nxt prv x xs p front.2 in
      let behind = nxt-mem nxt prv p ys z back in
      (
        ground (arith, mem-ne (prv p) a (x ∷ xs) before, mem-append a xs (p ∷ ys)),
        ground (arith, mem-ne (nxt p) x (z ∷ ys) behind, mem-append x xs (p ∷ ys)),
        Linked-without x xs ys z front.2 back d.1 (ground arith),
      )

mem-drop : (x p : ℕ) (xs ys : List ℕ) → mem x (xs ++ (p ∷ ys)) ≡ false → mem x (xs ++ ys) ≡ false
mem-drop x p xs ys o = ground (arith, mem-append x xs (p ∷ ys), mem-append x xs ys)

Distinct-drop : (p : ℕ) (xs ys : List ℕ) → Distinct (xs ++ (p ∷ ys)) → Distinct (xs ++ ys)
Distinct-drop p [] ys d = d.1
Distinct-drop p (x ∷ xs) ys d = (mem-drop x p xs ys d.0, Distinct-drop p xs ys d.1)

pub Distinct-mid : (p : ℕ) (xs ys : List ℕ) → Distinct (xs ++ (p ∷ ys)) → mem p (xs ++ ys) ≡ false
Distinct-mid p [] ys d = d.0
Distinct-mid p (x ∷ xs) ys d = ground (arith, Distinct-mid p xs ys d.1, mem-append x xs (p ∷ ys))

-- Unlinking takes one node out and keeps the order of the others.
pub Ring-without :
    (nxt prv : ℕ → ℕ) (h p : ℕ) (xs ys : List ℕ)
    → Ring nxt prv h (xs ++ (p ∷ ys))
    → Ring (nxt_without nxt prv p) (prv_without nxt prv p) h (xs ++ ys)
Ring-without nxt prv h p xs ys (l, d) =
    let (front, back) = Linked-split nxt prv h xs p ys h l in
    (
      Linked-without nxt prv p h xs ys h front back d d.0,
      (mem-drop h p xs ys d.0, Distinct-drop p xs ys d.1),
    )

-- tmp = head->next; b->next = tmp; b->prev = head; head->next = b; tmp->prev = b;
module _ (nxt prv : ℕ → ℕ) (h b : ℕ) where
  abbrev pub nxt_front : ℕ → ℕ
  nxt_front = update (update nxt b (nxt h)) h b

  abbrev pub prv_front : ℕ → ℕ
  prv_front = update (update prv b h) (nxt h) b

  -- That puts the node at the beginning.
  pub Ring-front :
      (ps : List ℕ)
      → Ring nxt prv h ps
      → mem b (h ∷ ps) ≡ false
      → Ring nxt_front prv_front h (b ∷ ps)
  Ring-front [] (l, d) new = ground arith
  Ring-front (p ∷ ps) (l, d) new = (
    (
      ground arith,
      ground arith,
      (
        ground arith,
        ground arith,
        Linked-same nxt prv nxt_front prv_front p ps h l.2
            (λ x m. ground (arith, mem-ne x h (p ∷ ps) m, mem-ne x b (p ∷ ps) m))
            (λ x m. ground (arith, mem-ne x p (h ∷ ps) m, mem-ne x b (h ∷ ps) m)),
      ),
    ),
    ground arith,
  )

pub Distinct-back :
    (b : ℕ) (ps : List ℕ) → Distinct ps → mem b ps ≡ false → Distinct (ps ++ (b ∷ []))
Distinct-back b [] d new = ground arith
Distinct-back b (p ∷ ps) d new =
    (ground (arith, mem-append p ps (b ∷ [])), Distinct-back b ps d.1 (ground arith))

-- tmp = z->prev; b->prev = tmp; b->next = z; z->prev = b; tmp->next = b;
module _ (nxt prv : ℕ → ℕ) (z b : ℕ) where
  abbrev pub nxt_back : ℕ → ℕ
  nxt_back = update (update nxt b z) (prv z) b

  abbrev pub prv_back : ℕ → ℕ
  prv_back = update (update prv b (prv z)) z b

  Linked-back :
      (a : ℕ) (ps : List ℕ)
      → Linked nxt prv a ps z
      → Distinct (a ∷ ps)
      → mem z ps ≡ false
      → mem b (z ∷ a ∷ ps) ≡ false
      → Linked nxt_back prv_back a (ps ++ (b ∷ [])) z
  Linked-back a [] l d o new = ground arith
  Linked-back a (p ∷ ps) l d o new = (
    ground (arith, mem-ne (prv z) a (p ∷ ps) (prv-mem nxt prv p ps z l.2)),
    ground arith,
    Linked-back p ps l.2 d.1 (ground arith) (ground arith),
  )

  -- That puts the node at the end.
  pub Ring-back :
      (ps : List ℕ)
      → Ring nxt prv z ps
      → mem b (z ∷ ps) ≡ false
      → Ring nxt_back prv_back z (ps ++ (b ∷ []))
  Ring-back ps (l, d) new =
      (Linked-back z ps l d d.0 (ground arith), Distinct-back b (z ∷ ps) d new)
