-- ===== src/CircularList/Destroy.antt =====
-- c_llist_destroy.
use tempos.Base.{
  ℕ, zero, suc, ◌<◌, ◌≡◌, refl, true, false, List, [], ◌∷◌, arith, length, if◌then◌else◌, update,
  Returns, returns, Returns-bind, Returns-mono,
}
use tempos.Ring.Links.{mem, Distinct, Linked, prv-mem, mem-ne}
use tempos.CircularList.{Ptr, null, Memory, set_next, kfree, free_walk, c_llist_destroy}
use tempos.CircularList.Rings.{Circular, not_null}

-- from `p` the links lead through the nodes to NULL
abbrev Run : (next : Ptr → Ptr) → Ptr → List Ptr → Type 0
Run next p [] = p ≡ null
Run next p (b ∷ bs) = (p ≡ b) × Run next (next b) bs

cut-Run :
    (nxt prv : Ptr → Ptr) (a : Ptr) (ps : List Ptr) (z : Ptr)
    → Linked nxt prv a ps z
    → Distinct (a ∷ ps)
    → Run (update nxt (prv z) null) a (a ∷ ps)
cut-Run nxt prv a [] z c d = ground arith
cut-Run nxt prv a (p ∷ ps) z c d =
    let last = prv-mem nxt prv p ps z c.2 in
    let apart = mem-ne (prv z) a (p ∷ ps) last d.0 in
    let step : update nxt (prv z) null a ≡ p = ground (arith, apart, c.0) in
    (refl, rw step (cut-Run nxt prv p ps z c.2 d.1))

free_walk-frees :
    (k : ℕ) (h : Memory) (p : Ptr) (bs : List Ptr)
    → Run h.next p bs
    → Distinct bs
    → ((q : Ptr) → mem q bs ≡ true → h.live q ≡ true)
    → h.live null ≡ false
    → length bs < k
    → Returns
        (λ h'. (q : Ptr) → h'.live q ≡ (if mem q bs then false else h.live q))
        (free_walk k h p)
unfolding free_walk kfree
free_walk-frees zero h p bs c d live dead fuel = absurd (omega arith)
free_walk-frees (suc k) h p [] c d live dead fuel = rw c (returns (λ q. refl))
free_walk-frees (suc k) h p (b ∷ bs) c d live dead fuel =
    let b_live = live b (ground arith) in
    let g : Memory = record h { live = update h.live b false } in
    let rest =
      free_walk-frees k g (g.next b) bs c.1 d.1 (λ q m. ground (arith, live q)) (ground arith)
        (omega arith) in
    rw (c.0, not_null h b dead b_live, b_live) (Returns-mono rest (λ h' e q. ground (arith, e q)))

-- `c_llist_destroy` returns 1 and gives back every node of the list to kmalloc, once, and nothing else. It
-- leaves the head: the address of memory that is not allocated any more.
pub c_llist_destroy-frees :
    (k : ℕ) (h : Memory) (l : Ptr) (ps : List Ptr)
    → Circular h l ps
    → length (l ∷ ps) < k
    → Returns
        (λ (r, l', h').
          (r ≡ 1)
          × (l' ≡ l)
          × ((q : Ptr) → h'.live q ≡ (if mem q (l ∷ ps) then false else h.live q)))
        (c_llist_destroy k h l)
unfolding c_llist_destroy set_next
c_llist_destroy-frees k h l ps c fuel =
    let l_live = c.all_live l (ground arith) in
    let last_live = c.all_live (h.prev l) (prv-mem h.next h.prev l ps l c.ring.0) in
    let g : Memory = record h { next = update h.next (h.prev l) null } in
    let run = cut-Run h.next h.prev l ps l c.ring.0 c.ring.1 in
    let freed = free_walk-frees k g l (l ∷ ps) run c.ring.1 c.all_live c.null_dead fuel in
    rw (not_null h l c.null_dead l_live, l_live, last_live)
      (Returns-bind freed (λ h' e. returns (refl, refl, e)))
