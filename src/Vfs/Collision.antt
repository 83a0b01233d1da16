-- ===== src/Vfs/Collision.antt =====
-- Two i-nodes whose numbers belong to the same queue of the table.
use tempos.Base.{ℕ, suc, ◌%◌, ◌<◌, ◌≡◌, ◌≢◌, List, some, Returns, returns, length, arith}
use tempos.Vfs.{Ptr, null, Inodes, World, inode_hash_table_size, vfs_iget, add_inode_htable}
use tempos.Vfs.Table.{IsTable, slot, add_inode_htable-entered, entered-drops}
use tempos.Vfs.Iget.{Found, Fresh, vfs_iget-Found}

-- `add_inode_htable` puts the i-node into its queue; another i-node that stood there is in no queue
-- of the table afterwards.
pub add_inode_htable-drops :
    (k : ℕ) (q : Inodes) (ps : List Ptr) (x : Ptr)
    → IsTable q ps
    → x ≢ null
    → slot q (q.number x) ≢ null
    → slot q (q.number x) ≢ x
    → Returns
        (λ q'.
          (slot q' (q.number x) ≡ x)
          × ((i : ℕ) → i < inode_hash_table_size → q'.inode_hash_table i ≢ slot q (q.number x)))
        (add_inode_htable k q x)
add_inode_htable-drops k q ps x t ne held other =
    rw (add_inode_htable-entered q ps t k x ne)
      (returns (ground arith, λ i small. entered-drops q ps t x i held other small))

-- After a call of `vfs_iget` that took the i-node `x`, while `mutex_is_locked` answers 0 for its lock, every call for the same device
-- and a number of the same queue returns `x` and leaves the table and the free list: the call for the same number, as it has
-- to, and one for any other number of the queue.
pub vfs_iget-again :
    (w : World) (q : Inodes) (ps : List Ptr) (x sb device number number' n k : ℕ)
    → Fresh ps x sb device number (some (x, q))
    → x ≢ null
    → q.lock x ≡ 0
    → number' % inode_hash_table_size ≡ number % inode_hash_table_size
    → length ps < suc (suc k)
    → Returns (Found q ps x) (vfs_iget (suc n) (suc (suc k)) w q sb device number')
vfs_iget-again w q ps x sb device number number' n k (_, t, here, dev, _, _, _) ne unlocked same
      fuel =
    let at : slot q number' ≡ x = ground (arith, here) in
    rw at at (
      vfs_iget-Found w q ps t sb device number' n k (ground (arith, ne)) (ground (arith, dev))
        (ground (arith, unlocked)) fuel)
