-- ===== src/CircularList/Lookup.antt =====
-- c_llist_length, c_llist_index and c_llist_nth.
use tempos.Base.{
  ℕ, zero, suc, ◌+◌, ◌%◌, ◌^◌, ◌<◌, ◌≡◌, refl, true, false, List, [], ◌∷◌, ◌++◌, Option, none, some,
  arith, length, get_elem?, ◌==◌, if◌then◌else◌, ok, fault, Bool-cases, inl, inr,
}
use tempos.Ring.Links.{mem, Linked}
use tempos.CircularList.{
  Ptr, null, Memory, length_walk, c_llist_length, index_walk, c_llist_index, minus_one, nth_walk,
  c_llist_nth,
}
use tempos.CircularList.Rings.{Circular, not_null}

length_walk-length :
    (k : ℕ) (h : Memory) (l a : Ptr) (ps : List Ptr) (size : ℕ)
    → Linked h.next h.prev a ps l
    → mem l ps ≡ false
    → ((p : Ptr) → mem p ps ≡ true → h.live p ≡ true)
    → length ps < k
    → size + length ps < 2 ^ 31
    → length_walk k h l (h.next a) size ≡ ok (size + length ps)
unfolding length_walk
length_walk-length zero h l a ps size c o live fuel small = absurd (omega arith)
length_walk-length (suc k) h l a [] size c o live fuel small = ground arith
length_walk-length (suc k) h l a (p ∷ ps) size c o live fuel small =
    let rest =
      length_walk-length k h l p ps (size + 1) c.2 (ground arith) (λ x m. live x (ground arith))
        (omega arith) (omega arith) in
    let p_live = live p (ground arith) in rw (c.0, p_live) (ground (arith, rest))

-- `c_llist_length` returns the number of nodes, for a list of fewer than 2^31 nodes.
pub c_llist_length-length :
    (k : ℕ) (h : Memory) (l : Ptr) (ps : List Ptr)
    → Circular h l ps
    → length ps < k
    → length (l ∷ ps) < 2 ^ 31
    → c_llist_length k h l ≡ ok (length (l ∷ ps))
unfolding c_llist_length
c_llist_length-length k h l ps c fuel small =
    let l_live = c.all_live l (ground arith) in
    let walk =
      length_walk-length k h l l ps 1 c.ring.0 c.ring.1.0 (λ x m. c.all_live x (ground arith)) fuel
        (omega arith) in
    rw (not_null h l c.null_dead l_live, l_live) (ground (arith, walk))

-- the position of the first node with the element, counted from `i`, else -1
abbrev pub index_of : (element : Ptr → Ptr) → List Ptr → Ptr → ℕ → ℕ
index_of element [] x i = minus_one
index_of element (p ∷ ps) x i = if element p == x then i else index_of element ps x (i + 1)

index_walk-index_of :
    (k : ℕ) (h : Memory) (l a x : Ptr) (ps : List Ptr) (i : ℕ)
    → Linked h.next h.prev a ps l
    → mem l ps ≡ false
    → ((p : Ptr) → mem p ps ≡ true → h.live p ≡ true)
    → length ps < k
    → i + length ps < 2 ^ 31
    → index_walk k h l (h.next a) x i ≡ ok (index_of h.element ps x i)
unfolding index_walk
index_walk-index_of zero h l a x ps i c o live fuel small = absurd (omega arith)
index_walk-index_of (suc k) h l a x [] i c o live fuel small = ground arith
index_walk-index_of (suc k) h l a x (p ∷ ps) i c o live fuel small =
    let rest =
      index_walk-index_of k h l p x ps (i + 1) c.2 (ground arith) (λ y m. live y (ground arith))
        (omega arith) (omega arith) in
    let p_live = live p (ground arith) in
    let step : (i + 1) % 2 ^ 32 ≡ i + 1 = omega arith in rw (c.0, p_live, step, rest) (ground arith)

-- `c_llist_index` returns the position of the first node with the element, counted from 0 at the head,
-- and -1 where no node has it, for a list of fewer than 2^31 nodes.
pub c_llist_index-index_of :
    (k : ℕ) (h : Memory) (l x : Ptr) (ps : List Ptr)
    → Circular h l ps
    → length ps < k
    → length (l ∷ ps) < 2 ^ 31
    → c_llist_index k h l x ≡ ok (index_of h.element (l ∷ ps) x 0)
unfolding c_llist_index
c_llist_index-index_of k h l x ps c fuel small =
    let l_live = c.all_live l (ground arith) in
    let walk =
      index_walk-index_of k h l l x ps 1 c.ring.0 c.ring.1.0 (λ y m. c.all_live y (ground arith))
        fuel (omega arith) in
    rw (not_null h l c.null_dead l_live, l_live, walk) (ground arith)

-- where the walk to a position ends
abbrev pub walked : (l : Ptr) → List Ptr → ℕ → Ptr × ℕ
walked l [] left = (l, left)
walked l (p ∷ ps) zero = (p, zero)
walked l (p ∷ ps) (suc left) = walked l ps left

pub nth_walk-walked :
    (h : Memory) (l a : Ptr) (ps : List Ptr) (left : ℕ)
    → Linked h.next h.prev a ps l
    → mem l ps ≡ false
    → ((p : Ptr) → mem p ps ≡ true → h.live p ≡ true)
    → nth_walk h l (h.next a) left ≡ ok (walked l ps left)
unfolding nth_walk
nth_walk-walked h l a [] zero c o live = rw c.0 refl
nth_walk-walked h l a [] (suc left) c o live = ground arith
nth_walk-walked h l a (p ∷ ps) zero c o live = rw c.0 refl
nth_walk-walked h l a (p ∷ ps) (suc left) c o live =
    let rest = nth_walk-walked h l p ps left c.2 (ground arith) (λ y m. live y (ground arith)) in
    let p_live = live p (ground arith) in rw (c.0, p_live, rest) (ground arith)

-- the element of a node that may be there
abbrev pub shown : (element : Ptr → Ptr) → Option Ptr → Ptr
shown element none = null
shown element (some p) = element p

walked-shown :
    (h : Memory) (l : Ptr) (ps : List Ptr) (n : ℕ)
    → ((p : Ptr) → mem p (l ∷ ps) ≡ true → h.live p ≡ true)
    → let (tmp, left) = walked l ps n in
      (if left == 0 then (if h.live tmp then ok (h.element tmp) else fault) else ok null)
      ≡ ok (shown h.element (get_elem? (ps ++ (l ∷ [])) n))
walked-shown h l [] zero live = rw (live l (ground arith)) refl
walked-shown h l [] (suc n) live = ground arith
walked-shown h l (p ∷ ps) zero live = rw (live p (ground arith)) refl
walked-shown h l (p ∷ ps) (suc n) live = walked-shown h l ps n (λ x m. live x (ground arith))

-- At index 0 `c_llist_nth` returns the element of the head. At an index `n` above 0 it returns the element
-- at `n` of the list without its head and with the head behind it: it is one node too far, the last index
-- gives the element of the head again, and from there on the answer is NULL.
pub c_llist_nth-get_elem? :
    (h : Memory) (l : Ptr) (ps : List Ptr) (n : ℕ)
    → Circular h l ps
    → c_llist_nth h l n
      ≡ ok (if n == 0 then h.element l else shown h.element (get_elem? (ps ++ (l ∷ [])) n))
unfolding c_llist_nth
c_llist_nth-get_elem? h l ps n c =
    let l_live = c.all_live l (ground arith) in
    let walk =
      nth_walk-walked h l l ps n c.ring.0 c.ring.1.0 (λ y m. c.all_live y (ground arith)) in
    rw (not_null h l c.null_dead l_live, l_live, walk)
      (elim (Bool-cases (n == 0)) [
        | inl z ↦ rw z refl
        | inr s ↦ rw s (walked-shown h l ps n c.all_live)
      ])
