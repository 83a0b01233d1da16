-- ===== src/Vfs/Table.antt =====
-- The table of i-nodes: search_inode, add_inode_htable and inode_remove_from_freelist.
use mathlib.Core.Path.{fun_ext}
use tempos.Base.{
  ℕ, suc, ◌%◌, ◌<◌, ◌≡◌, refl, ◌≢◌, Bool-cases, inl, inr, true, false, List, ◌∷◌, arith, length,
  ◌==◌, if◌then◌else◌, ==_of_ne, ==_self, ok, Returns, returns, update,
}
use tempos.Ring.Links.{mem, mem-ne, nxt-mem, prv-mem, Linked-split, mem-append}
use tempos.Ring.Member.{find, find-mem, mem-Split}
use tempos.Vfs.{
  Ptr, null, Inodes, inode_hash_table_size, search_inode, search_walk, add_inode_htable,
  leave_queue, enter_queue, inode_remove_from_freelist, set_next, set_prev,
}
use tempos.Vfs.FreeInodes.{FreeInodes, free_walk-find}

-- The free list holds `ps`; every queue of the table is empty or is one i-node that is not free and that
-- has a number of this queue.
pub record IsTable (q : Inodes) (ps : List Ptr) : Type 0 where
  pub free : FreeInodes q ps
  pub no_null : mem null (q.free_inodes_head ∷ ps) ≡ false
  pub single :
      (i : ℕ)
      → i < inode_hash_table_size
      → q.inode_hash_table i ≢ null
      → q.next (q.inode_hash_table i) ≡ null
  pub busy :
      (i : ℕ)
      → i < inode_hash_table_size
      → mem (q.inode_hash_table i) (q.free_inodes_head ∷ ps) ≡ false
  pub numbered :
      (i : ℕ)
      → i < inode_hash_table_size
      → q.inode_hash_table i ≢ null
      → q.number (q.inode_hash_table i) % inode_hash_table_size ≡ i

-- the queue of a number
abbrev pub slot : Inodes → (number : ℕ) → Ptr
slot q number = q.inode_hash_table (number % inode_hash_table_size)

module _ (q : Inodes) (ps : List Ptr) (t : IsTable q ps) where
  -- `search_inode` finds the i-node of the queue when that has the device, whatever its number is.
  pub search_inode-device :
      (k device number : ℕ)
      → search_inode (suc (suc k)) q device number
        ≡ ok (if q.device (slot q number) == device then slot q number else null)
  unfolding search_inode search_walk
  search_inode-device k device number = elim (Bool-cases (slot q number == null)) [
    | inl empty ↦ ground arith
    | inr held ↦
        let y = slot q number in
        let alone : q.next y ≡ null =
          t.single (number % inode_hash_table_size) (omega arith) (ground arith) in
        ground arith
  ]

  -- the table with the i-node `x` as the only one of its queue
  abbrev pub entered : Ptr → Inodes
  entered x = record q {
    next = update q.next x null;
    prev = update q.prev x null;
    inode_hash_table = update q.inode_hash_table (q.number x % inode_hash_table_size) x;
  }

  update_twice : (f : ℕ → ℕ) (i a b : ℕ) → update (update f i a) i b ≡ update f i b
  update_twice f i a b = fun_ext λ j. ground arith

  -- `add_inode_htable` makes the i-node the only one of its queue, and drops the i-node that was there.
  pub add_inode_htable-entered :
      (k : ℕ) (x : Ptr) → x ≢ null → add_inode_htable k q x ≡ ok (entered x)
  unfolding add_inode_htable leave_queue enter_queue set_next set_prev
  add_inode_htable-entered k x ne =
      let y = slot q (q.number x) in
      let i = q.number x % inode_hash_table_size in
      elim (Bool-cases (y == null)) [
        | inl empty ↦ rw empty (rw (empty, ==_of_ne x null ne) refl)
        | inr held ↦
            let alone : q.next y ≡ null = t.single i (omega arith) (ground arith) in
            rw (held, alone)
              (rw (==_self i)
                (rw (==_of_ne x null ne) (rw (update_twice q.inode_hash_table i null x) refl)))
      ]

  -- The i-node that is taken into the table was not free any more.
  pub entered-IsTable :
      (x : Ptr) → x ≢ null → mem x (q.free_inodes_head ∷ ps) ≡ false → IsTable (entered x) ps
  entered-IsTable x ne new = record {
    free = t.free;
    no_null = t.no_null;
    single = λ i small held. ground (arith, t.single i small);
    busy = λ i small. ground (arith, t.busy i small);
    numbered = λ i small held. ground (arith, t.numbered i small);
  }

  -- no queue of the new table has the i-node that the queue of `x` had before
  pub entered-drops :
      (x : Ptr) (i : ℕ)
      → slot q (q.number x) ≢ null
      → slot q (q.number x) ≢ x
      → i < inode_hash_table_size
      → (entered x).inode_hash_table i ≢ slot q (q.number x)
  entered-drops x i held other small =
      let j = q.number x % inode_hash_table_size in
      λ e. ground (arith, t.numbered i small, t.numbered j (omega arith), e)

  -- the neighbours of a free i-node
  neighbours :
      (x : Ptr)
      → mem x ps ≡ true
      → (mem (q.free_next x) (q.free_inodes_head ∷ ps) ≡ true)
        × (mem (q.free_prev x) (q.free_inodes_head ∷ ps) ≡ true)
  neighbours x m =
      let s = mem-Split x ps m in
      let (front, back) =
        Linked-split q.free_next q.free_prev q.free_inodes_head s.xs x s.ys q.free_inodes_head
          (rw s.whole at (t.free.0)) in
      let before = prv-mem q.free_next q.free_prev q.free_inodes_head s.xs x front in
      let behind = nxt-mem q.free_next q.free_prev x s.ys q.free_inodes_head back in
      rw s.whole (
        ground (arith, mem-append (q.free_next x) s.xs (x ∷ s.ys)),
        ground (arith, mem-append (q.free_prev x) s.xs (x ∷ s.ys)),
      )

  -- what the links of the table's queues do not depend on
  relinked : (a b c d : Ptr) → Inodes
  relinked a b c d = record q { prev = update q.prev a b; next = update q.next c d }

  relinked-IsTable :
      (a b c d : Ptr) → mem c (q.free_inodes_head ∷ ps) ≡ true → IsTable (relinked a b c d) ps
  unfolding relinked
  relinked-IsTable a b c d m = record {
    free = t.free;
    no_null = t.no_null;
    single = λ i small held. ground (
      arith,
      t.single i small,
      mem-ne c (q.inode_hash_table i) (q.free_inodes_head ∷ ps) m (t.busy i small),
    );
    busy = t.busy;
    numbered = t.numbered;
  }

  -- `inode_remove_from_freelist` takes nothing out of the free list, also where it finds an i-node with the
  -- device in it: it writes the links of the hash queues, of free i-nodes only, so the queues stay.
  pub inode_remove_from_freelist-IsTable :
      (k : ℕ) (y : Ptr)
      → length ps < k
      → Returns
          (λ q'. IsTable q' ps × (q' ≡ record q { next = q'.next; prev = q'.prev }))
          (inode_remove_from_freelist k q y)
  unfolding inode_remove_from_freelist set_prev set_next relinked
  inode_remove_from_freelist-IsTable k y fuel =
      let test = λ (x : Ptr). q.device x == q.device y in
      let x = find test ps q.free_inodes_head in
      rw (free_walk-find q (q.device y) k q.free_inodes_head ps t.free.0 t.free.1.0 fuel)
        (elim (find-mem test ps q.free_inodes_head) [
          | inr e ↦ rw (e, ==_self q.free_inodes_head) (returns (t, refl))
          | inl (m, _) ↦
              let (n, p) = neighbours x m in
              let ne = mem-ne (q.free_next x) null (q.free_inodes_head ∷ ps) n t.no_null in
              let pe = mem-ne (q.free_prev x) null (q.free_inodes_head ∷ ps) p t.no_null in
              rw (==_of_ne x q.free_inodes_head (mem-ne x q.free_inodes_head ps m t.free.1.0)) (
                rw (==_of_ne (q.free_next x) null ne) (
                  rw (==_of_ne (q.free_prev x) null pe) (
                    returns (
                      relinked-IsTable (q.free_next x) (q.free_prev x) (q.free_prev x)
                          (q.free_next x) p,
                      refl,
                    ))))
        ])
