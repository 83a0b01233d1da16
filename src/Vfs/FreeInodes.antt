-- ===== src/Vfs/FreeInodes.antt =====
-- The free list of the i-nodes: get_free_inode and inode_remove_from_freelist.
use tempos.Base.{
  ℕ, zero, suc, ◌<◌, ◌≡◌, true, false, List, [], ◌∷◌, arith, length, ◌==◌, some, none, ok,
}
use tempos.Ring.Links.{mem, Linked, Ring}
use tempos.Ring.Member.{find, find-mem, find-default, without, Ring-remove}
use tempos.Vfs.{Ptr, Inodes, World, free_walk, take_free, initialize, get_free_inode}

-- the free list holds the i-nodes `ps`, in this order
abbrev pub FreeInodes : Inodes → List Ptr → Type 0
FreeInodes q ps = Ring q.free_next q.free_prev q.free_inodes_head ps

-- the i-node that `get_free_inode` takes from a list that begins with `p`
abbrev pub pick : Inodes → (device : ℕ) → Ptr → List Ptr → Ptr
pick q device p ps = find (λ x. q.device x == device) (p ∷ ps) p

module _ (q : Inodes) (device : ℕ) where
  pub free_walk-find :
      (k : ℕ) (a : Ptr) (ps : List Ptr)
      → Linked q.free_next q.free_prev a ps q.free_inodes_head
      → mem q.free_inodes_head ps ≡ false
      → length ps < k
      → free_walk k q device (q.free_next a)
        ≡ ok (find (λ x. q.device x == device) ps q.free_inodes_head)
  unfolding free_walk
  free_walk-find zero a ps l o fuel = absurd (omega arith)
  free_walk-find (suc k) a [] l o fuel = ground arith
  free_walk-find (suc k) a (p ∷ ps) l o fuel =
      rw l.0 (ground (arith, free_walk-find k p ps l.2 (ground arith) (omega arith)))

-- what the file system may do to an i-node that it reads: its links, its number and its device stay
pub record Reads (w : World) : Type 0 where
  pub keeps :
      (q : Inodes) (p : Ptr)
      → w.get_inode q p
        ≡ record q { flags = (w.get_inode q p).flags; lock = (w.get_inode q p).lock }

-- the i-node that get_free_inode makes of `x`
abbrev pub made : World → Inodes → (x sb device number : ℕ) → Inodes
made w q x sb device number = w.get_inode (initialize (take_free q x) x sb device number) x

-- From a free list that begins with `p`, `get_free_inode` takes the first i-node that has the
-- device, and `p` if none has it; the i-node is initialised and read, and the others stay in the free list in
-- their order.
pub get_free_inode-FreeInodes :
    (k : ℕ) (w : World) (q : Inodes) (sb device number : ℕ) (p : Ptr) (ps : List Ptr)
    → FreeInodes q (p ∷ ps)
    → length (p ∷ ps) < k
    → Reads w
    → let x = pick q device p ps in
      (get_free_inode k w q sb device number ≡ ok (some (x, made w q x sb device number)))
      × FreeInodes (made w q x sb device number) (without x (p ∷ ps))
unfolding get_free_inode
get_free_inode-FreeInodes k w q sb device number p ps l fuel reads =
    let test = λ (x : Ptr). q.device x == device in
    let x = pick q device p ps in
    let some : (p == q.free_inodes_head) ≡ false = ground (arith, l.1.0) in
    let walk : free_walk k q device p ≡ ok (find test (p ∷ ps) q.free_inodes_head) =
      rw l.0.0 at (free_walk-find q device k q.free_inodes_head (p ∷ ps) l.0 l.1.0 fuel) in
    let picked = find-default test (p ∷ ps) q.free_inodes_head p l.1.0 in
    let member : mem x (p ∷ ps) ≡ true = ground (arith, find-mem test (p ∷ ps) p) in
    (
      rw (l.0.0, some, walk, picked),
      rw (reads.keeps (initialize (take_free q x) x sb device number) x)
          (Ring-remove q.free_next q.free_prev q.free_inodes_head x (p ∷ ps) l member),
    )

-- From an empty free list there is no i-node to take: the kernel panics.
pub get_free_inode-empty :
    (k : ℕ) (w : World) (q : Inodes) (sb device number : ℕ)
    → FreeInodes q []
    → get_free_inode k w q sb device number ≡ ok none
unfolding get_free_inode
get_free_inode-empty k w q sb device number l = ground arith
