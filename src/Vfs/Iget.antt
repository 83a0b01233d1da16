-- ===== src/Vfs/Iget.antt =====
-- vfs_iget.
use tempos.Base.{
  ℕ, suc, ◌<◌, ◌≡◌, refl, ap, ◌∙◌, ◌≢◌, ◌⊎◌, true, false, List, [], ◌∷◌, arith, length, ◌==◌,
  if◌then◌else◌, ==_of_ne, ==_self, some, none, ok, Option, Returns, returns, Returns-bind,
}
use tempos.Ring.Links.{mem, mem-ne}
use tempos.Ring.Member.{find-mem, Ring-remove, without, mem-without, without-gone}
use tempos.Vfs.{Ptr, null, Inodes, World, vfs_iget, enter_new, initialize, take_free}
use tempos.Vfs.FreeInodes.{pick, Reads, get_free_inode-FreeInodes, get_free_inode-empty}
use tempos.Vfs.Table.{
  IsTable, slot, search_inode-device, add_inode_htable-entered, entered-IsTable,
  inode_remove_from_freelist-IsTable,
}

-- the answer of a call that finds the i-node `y` in the table `q`
abbrev pub Found : Inodes → List Ptr → Ptr → Option (Ptr × Inodes) → Type 0
Found q ps y none = ⊥
Found q ps y (some (x, q')) =
    (x ≡ y) × IsTable q' ps × (q' ≡ record q { next = q'.next; prev = q'.prev })

module _ (w : World) (q : Inodes) (ps : List Ptr) (t : IsTable q ps) (sb device number : ℕ) where
  -- When the queue of the number has an i-node of the device and `mutex_is_locked` answers 0 for its lock, `vfs_iget` returns it, whatever its
  -- own number is, and leaves the table and the free list as they were.
  pub vfs_iget-Found :
      (n k : ℕ)
      → slot q number ≢ null
      → q.device (slot q number) ≡ device
      → q.lock (slot q number) ≡ 0
      → length ps < suc (suc k)
      → Returns (Found q ps (slot q number)) (vfs_iget (suc n) (suc (suc k)) w q sb device number)
  unfolding vfs_iget
  vfs_iget-Found n k held dev unlocked fuel =
      let y = slot q number in
      rw (search_inode-device q ps t k device number) (
        rw dev (
          rw (==_self device) (
            rw (==_of_ne y null held, unlocked)
              (Returns-bind (inode_remove_from_freelist-IsTable q ps t (suc (suc k)) y fuel)
                λ q' (kept, same). returns (refl, kept, same)))))

  -- When the queue of the number has no i-node of the device and the free list is empty, the kernel panics.
  pub vfs_iget-panic :
      (n k : ℕ)
      → (slot q number ≡ null) ⊎ (q.device (slot q number) ≢ device)
      → ps ≡ []
      → vfs_iget (suc n) (suc (suc k)) w q sb device number ≡ ok none
  unfolding vfs_iget enter_new
  vfs_iget-panic n k absent none_free =
      let missed : (if q.device (slot q number) == device then slot q number else null) ≡ null =
        ground (arith, absent) in
      rw (search_inode-device q ps t k device number) (
        rw missed (
          rw (get_free_inode-empty (suc (suc k)) w q sb device number (rw none_free at t.free))
            refl))

-- the i-node `x`, taken from the free list and initialised
module _ (q : Inodes) (ps : List Ptr) (t : IsTable q ps) (x sb device number : ℕ) where
  abbrev taken : Inodes
  taken = initialize (take_free q x) x sb device number

  taken-IsTable : mem x ps ≡ true → IsTable taken (without x ps)
  taken-IsTable m = record {
    free = Ring-remove q.free_next q.free_prev q.free_inodes_head x ps t.free m;
    no_null = ground (arith, mem-without x null ps, t.no_null);
    single = t.single;
    busy = λ i small. ground (arith, t.busy i small, mem-without x (q.inode_hash_table i) ps);
    numbered = λ i small held.
        ground
          (arith, t.numbered i small held, mem-ne x (q.inode_hash_table i) ps m, t.busy i small);
  }

-- the answer of a call that takes the i-node `x` from the free list and leaves `ps` there
abbrev pub Fresh : List Ptr → (x sb device number : ℕ) → Option (Ptr × Inodes) → Type 0
Fresh ps x sb device number none = ⊥
Fresh ps x sb device number (some (x', q')) =
    (x' ≡ x)
    × IsTable q' ps
    × (slot q' number ≡ x)
    × (q'.device x ≡ device)
    × (q'.number x ≡ number)
    × (q'.sb x ≡ sb)
    × (q'.reference x ≡ 1)

module _ (w : World) (reads : Reads w) (q : Inodes) (ps : List Ptr) (t : IsTable q ps)
    (x : Ptr) where
  read-IsTable : IsTable (w.get_inode q x) ps
  read-IsTable = rw (reads.keeps q x) (record {
    free = t.free;
    no_null = t.no_null;
    single = t.single;
    busy = t.busy;
    numbered = t.numbered;
  })

  enter_new-Fresh :
      (k sb device number : ℕ)
      → x ≢ null
      → mem x (q.free_inodes_head ∷ ps) ≡ false
      → q.sb x ≡ sb
      → q.device x ≡ device
      → q.number x ≡ number
      → q.reference x ≡ 1
      → Returns (Fresh ps x sb device number) (enter_new k (some (x, w.get_inode q x)))
  unfolding enter_new
  enter_new-Fresh k sb device number ne gone has_sb has_device has_number one =
      let q1 = w.get_inode q x in
      let e = reads.keeps q x in
      let out : mem x (q1.free_inodes_head ∷ ps) ≡ false = rw e gone in
      let same_number : q1.number x ≡ number = ap (λ (r : Inodes). r.number x) e ∙ has_number in
      rw (add_inode_htable-entered q1 ps read-IsTable k x ne) (
        returns (
          refl,
          entered-IsTable q1 ps read-IsTable x ne out,
          ground (arith, same_number),
          ap (λ (r : Inodes). r.device x) e ∙ has_device,
          same_number,
          ap (λ (r : Inodes). r.sb x) e ∙ has_sb,
          ap (λ (r : Inodes). r.reference x) e ∙ one,
        ))

module _ (w : World) (q : Inodes) (p : Ptr) (rest : List Ptr) (t : IsTable q (p ∷ rest)) where
  module _ (sb device number : ℕ) (reads : Reads w) where
    -- When the queue of the number has no i-node of the device, `vfs_iget` takes the first free i-node that has had the device, or the
    -- first one; it is initialised and the only one of its queue afterwards, it is not free any more,
    -- and the other free i-nodes keep their order.
    pub vfs_iget-Fresh :
        (n k : ℕ)
        → (slot q number ≡ null) ⊎ (q.device (slot q number) ≢ device)
        → length (p ∷ rest) < suc (suc k)
        → Returns
            (Fresh
              (without (pick q device p rest) (p ∷ rest))
              (pick q device p rest)
              sb
              device
              number)
            (vfs_iget (suc n) (suc (suc k)) w q sb device number)
    unfolding vfs_iget enter_new
    vfs_iget-Fresh n k absent fuel =
        let ps = p ∷ rest in
        let test = λ (x : Ptr). q.device x == device in
        let x = pick q device p rest in
        let missed : (if q.device (slot q number) == device then slot q number else null) ≡ null =
          ground (arith, absent) in
        let member : mem x ps ≡ true = ground (arith, find-mem test ps p) in
        let (got, _) =
          get_free_inode-FreeInodes (suc (suc k)) w q sb device number p rest t.free fuel reads in
        let ne = mem-ne x null ps member (ground (arith, t.no_null)) in
        let gone : mem x (q.free_inodes_head ∷ without x ps) ≡ false =
          ground (
            arith,
            mem-ne x q.free_inodes_head ps member t.free.1.0,
            without-gone x ps t.free.1.1,
          ) in
        let t1 = taken-IsTable q ps t x sb device number member in
        rw (search_inode-device q ps t k device number) (
          rw missed (
            rw got (
              enter_new-Fresh w reads (taken q ps t x sb device number) (without x ps) t1 x
                (suc (suc k)) sb device number ne gone (ground arith) (ground arith) (ground arith)
                (ground arith))))
