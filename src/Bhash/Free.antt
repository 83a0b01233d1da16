-- ===== src/Bhash/Free.antt =====
-- The free list of the buffer queue.
use tempos.Base.{
  ℕ, zero, suc, ◌<◌, ◌≡◌, refl, sym, ◌≢◌, ◌⊎◌, true, false, List, [], ◌∷◌, ◌++◌, arith, length,
  ◌==◌, if◌then◌else◌, Bool-cases, ==_of_ne, ==_self, inl, inr, ok, Returns, returns,
}
use mathlib.Core.Path.{subst}
use tempos.Ring.Links.{mem, Linked, Ring, Linked-split, nxt-mem, prv-mem, mem-ne, mem-append}
pub use tempos.Ring.Member.{without}
use tempos.Ring.Member.{Ring-remove, mem-Split}
use tempos.Ring.Edit.{Ring-front, Ring-back}
use tempos.Bhash.{
  Ptr, null, st_valid, st_flush, st_unlocked, Queue, is_block, free_walk, blk_remove_from_freelist,
  take_free, get_free_blk, put_front, set_status, set_next, set_prev, brelse, bwrite, World,
}

-- the free list of the queue holds the buffers `ps`, in this order
abbrev pub FreeList : Queue → List Ptr → Type 0
FreeList q ps = Ring q.free_next q.free_prev q.head ps

-- the first buffer of the list with the block, else `d`
abbrev pub find_block : Queue → (device blocknum : ℕ) → List Ptr → Ptr → Ptr
find_block q device blocknum [] d = d
find_block q device blocknum (p ∷ ps) d =
    if is_block q device blocknum p then p else find_block q device blocknum ps d

-- the buffer that `get_free_blk` takes from a list that begins with `p`
abbrev pub pick : Queue → (device blocknum : ℕ) → Ptr → List Ptr → Ptr
pick q device blocknum p ps = find_block q device blocknum (p ∷ ps) p

module _ (q : Queue) (device blocknum : ℕ) where
  find_block-mem :
      (ps : List Ptr) (d : Ptr)
      → (mem (find_block q device blocknum ps d) ps ≡ true)
        ⊎ (find_block q device blocknum ps d ≡ d)
  find_block-mem [] d = inr refl
  find_block-mem (p ∷ ps) d = ground (arith, find_block-mem ps d)

  free_walk-find_block :
      (k : ℕ) (a : Ptr) (ps : List Ptr)
      → Linked q.free_next q.free_prev a ps q.head
      → mem q.head ps ≡ false
      → length ps < k
      → free_walk k q device blocknum (q.free_next a) ≡ ok (find_block q device blocknum ps q.head)
  unfolding free_walk
  free_walk-find_block zero a ps l o fuel = absurd (omega arith)
  free_walk-find_block (suc k) a [] l o fuel = ground arith
  free_walk-find_block (suc k) a (p ∷ ps) l o fuel =
      rw l.0 (ground (arith, free_walk-find_block k p ps l.2 (ground arith) (omega arith)))

-- Unlinking a buffer of the free list takes it out and leaves the others in their order.
take_free-FreeList :
    (q : Queue) (x : Ptr) (ps : List Ptr)
    → FreeList q ps
    → mem x ps ≡ true
    → FreeList (take_free q x) (without x ps)
take_free-FreeList q x ps l m = Ring-remove q.free_next q.free_prev q.head x ps l m

find_block-default :
    (q : Queue) (device blocknum : ℕ) (ps : List Ptr) (d d' : Ptr)
    → mem d ps ≡ false
    → let found = find_block q device blocknum ps d in
      (if found == d then d' else found) ≡ find_block q device blocknum ps d'
find_block-default q device blocknum [] d d' o = ground arith
find_block-default q device blocknum (p ∷ ps) d d' o =
    ground (arith, find_block-default q device blocknum ps d d')

-- the same walk with another answer for a block that is not there
pick-find_block :
    (q : Queue) (device blocknum : ℕ) (p : Ptr) (ps : List Ptr)
    → mem q.head (p ∷ ps) ≡ false
    → let found = find_block q device blocknum (p ∷ ps) q.head in
      (if found == q.head then p else found) ≡ pick q device blocknum p ps
pick-find_block q device blocknum p ps o = find_block-default q device blocknum (p ∷ ps) q.head p o

pick-mem :
    (q : Queue) (device blocknum : ℕ) (p : Ptr) (ps : List Ptr)
    → mem (pick q device blocknum p ps) (p ∷ ps) ≡ true
pick-mem q device blocknum p ps = ground (arith, find_block-mem q device blocknum (p ∷ ps) p)

-- From a free list that begins with `p`, `get_free_blk` takes the first buffer that holds the block, and
-- `p` if none does; the other buffers stay in the list in their order.
pub get_free_blk-FreeList :
    (k : ℕ) (q : Queue) (device blocknum : ℕ) (p : Ptr) (ps : List Ptr)
    → FreeList q (p ∷ ps)
    → length (p ∷ ps) < k
    → let x = pick q device blocknum p ps in
      (get_free_blk k q device blocknum ≡ ok (x, take_free q x))
      × FreeList (take_free q x) (without x (p ∷ ps))
unfolding get_free_blk
get_free_blk-FreeList k q device blocknum p ps l fuel =
    let x = pick q device blocknum p ps in
    let some : (p == q.head) ≡ false = ground (arith, l.1.0) in
    let walk : free_walk k q device blocknum p ≡ ok (find_block q device blocknum (p ∷ ps) q.head) =
      rw l.0.0 at (free_walk-find_block q device blocknum k q.head (p ∷ ps) l.0 l.1.0 fuel) in
    let picked = pick-find_block q device blocknum p ps l.1.0 in
    (
      rw (l.0.0, some, walk, picked),
      take_free-FreeList q x (p ∷ ps) l (pick-mem q device blocknum p ps),
    )

-- From an empty free list `get_free_blk` takes nothing: it returns NULL and leaves the queue.
pub get_free_blk-empty :
    (k : ℕ) (q : Queue) (device blocknum : ℕ)
    → FreeList q []
    → get_free_blk k q device blocknum ≡ ok (null, q)
unfolding get_free_blk
get_free_blk-empty k q device blocknum l = ground arith

-- `brelse` of a buffer that is not in the free list puts it there, at the end if the buffer was valid
-- and at the beginning otherwise, and leaves it unlocked. The others stay in their order.
pub brelse-FreeList :
    (q : Queue) (b : Ptr) (ps : List Ptr)
    → FreeList q ps
    → mem b (q.head ∷ ps) ≡ false
    → FreeList (brelse q b) (if q.status b == st_valid then ps ++ (b ∷ []) else b ∷ ps)
      × ((brelse q b).status b ≡ st_unlocked)
unfolding brelse
brelse-FreeList q b ps l new = elim (Bool-cases (q.status b == st_valid)) [
  | inl valid ↦ rw valid (Ring-back q.free_next q.free_prev q.head b ps l new, ground arith)
  | inr other ↦ rw other (Ring-front q.free_next q.free_prev q.head b ps l new, ground arith)
]

-- A delayed write of a buffer that is not in the free list returns 1, marks the buffer for a flush and
-- puts it at the beginning of the free list. It calls nothing of the driver.
pub bwrite-delayed :
    (w : World) (q : Queue) (device : ℕ) (b : Ptr) (ps : List Ptr)
    → b ≢ null
    → FreeList q ps
    → mem b (q.head ∷ ps) ≡ false
    → let (r, q') = bwrite w q device b 3 in
      (r ≡ 1) × FreeList q' (b ∷ ps) × (q'.status b ≡ st_flush)
unfolding bwrite
bwrite-delayed w q device b ps ne l new =
    let e : bwrite w q device b 3 ≡ (1, put_front (set_status q b st_flush) b) =
      rw (==_of_ne b null ne) in
    subst (λ out. (out.0 ≡ 1) × FreeList out.1 (b ∷ ps) × (out.1.status b ≡ st_flush)) (sym e)
      (refl, Ring-front q.free_next q.free_prev q.head b ps l new, ground arith)

neighbours :
    (q : Queue) (x : Ptr) (ps : List Ptr)
    → FreeList q ps
    → mem x ps ≡ true
    → null ≢ q.head
    → mem null ps ≡ false
    → (q.free_next x ≢ null) × (q.free_prev x ≢ null)
neighbours q x ps l m ne o =
    let s = mem-Split x ps m in
    let (front, back) =
      Linked-split q.free_next q.free_prev q.head s.xs x s.ys q.head (rw s.whole at (l.0)) in
    let o' : mem null (s.xs ++ (x ∷ s.ys)) ≡ false = rw s.whole at o in
    let before = prv-mem q.free_next q.free_prev q.head s.xs x front in
    let behind = nxt-mem q.free_next q.free_prev x s.ys q.head back in
    (
      mem-ne (q.free_next x) null (q.head ∷ s.ys) behind
          (ground (arith, mem-append null s.xs (x ∷ s.ys))),
      mem-ne (q.free_prev x) null (q.head ∷ s.xs) before
          (ground (arith, mem-append null s.xs (x ∷ s.ys))),
    )

-- `blk_remove_from_freelist` takes nothing out of the free list, also where the block is in it: it
-- writes the links of the hash chains.
pub blk_remove_from_freelist-FreeList :
    (k : ℕ) (q : Queue) (device blocknum : ℕ) (ps : List Ptr)
    → FreeList q ps
    → length ps < k
    → null ≢ q.head
    → mem null ps ≡ false
    → Returns
        (λ q'. FreeList q' ps × (q'.status ≡ q.status))
        (blk_remove_from_freelist k q device blocknum)
unfolding blk_remove_from_freelist set_prev set_next
blk_remove_from_freelist-FreeList k q device blocknum ps l fuel ne o =
    rw (free_walk-find_block q device blocknum k q.head ps l.0 l.1.0 fuel)
      (elim (find_block-mem q device blocknum ps q.head) [
        | inr e ↦ rw (e, ==_self q.head) (returns (l, refl))
        | inl m ↦
            let x = find_block q device blocknum ps q.head in
            let (n, p) = neighbours q x ps l m ne o in
            rw (==_of_ne x q.head (mem-ne x q.head ps m l.1.0), ==_of_ne (q.free_next x) null n)
              (rw (==_of_ne (q.free_prev x) null p) (returns (l, refl)))
      ])
