-- ===== src/Vfs/Tests.antt =====
-- The theorems on i-nodes at a small table.
use tempos.Base.{
  some, ◌+◌, ◌*◌, ◌≡◌, refl, inl, some, [], ◌∷◌, ltb, if◌then◌else◌, arith, update, Returns,
}
use tempos.Vfs.{null, Inodes, World, vfs_iget}
use tempos.Vfs.FreeInodes.{Reads}
use tempos.Vfs.Table.{IsTable}
use tempos.Vfs.Iget.{Fresh, vfs_iget-Fresh}
use tempos.Vfs.Bmap.{vfs_bmap}
use tempos.Vfs.Bmap.Indirect.{vfs_bmap-indirect}

-- the head 100 with the free i-nodes 101 and 102; the i-node 103, number 2 of the device 9, is in the table
abbrev inodes : Inodes
inodes = record {
  inode_hash_table = update (λ _. null) 2 103;
  free_inodes_head = 100;
  device = update (λ _. 0) 103 9;
  flags = λ _. 0;
  reference = λ _. 0;
  number = update (λ _. 0) 103 2;
  lock = λ _. 0;
  sb = λ _. 0;
  prev = λ _. null;
  next = λ _. null;
  free_next = update (update (update (λ _. null) 100 101) 101 102) 102 100;
  free_prev = update (update (update (λ _. null) 100 102) 101 100) 102 101;
}

inodes-IsTable : IsTable inodes (101 ∷ 102 ∷ [])
inodes-IsTable = record {
  free = ground arith;
  no_null = refl;
  single = λ i small held. refl;
  busy = λ i small. ground arith;
  numbered = λ i small held. ground arith;
}

abbrev world : World
world = record { get_inode = λ q p. q; sleep_on = λ a q. q }

world-Reads : Reads world
world-Reads = record { keeps = λ q p. refl }

vfs_iget-Fresh_example : Returns (Fresh (102 ∷ []) 101 50 9 7) (vfs_iget 1 3 world inodes 50 9 7)
vfs_iget-Fresh_example =
    vfs_iget-Fresh world inodes 101 (102 ∷ []) inodes-IsTable 50 9 7 world-Reads 0 1 (inl refl)
      (omega arith)

-- the i-node 104 with the same number
abbrev rival : Inodes
rival = record inodes { number = update inodes.number 104 4002 }

rival-IsTable : IsTable rival (101 ∷ 102 ∷ [])
rival-IsTable = record {
  free = ground arith;
  no_null = refl;
  single = λ i small held. refl;
  busy = λ i small. ground arith;
  numbered = λ i small held. ground arith;
}

abbrev owned : Inodes
owned = record inodes { sb = update (λ _. 0) 103 50; reference = update (λ _. 0) 103 1 }

owned-Fresh : Fresh (101 ∷ 102 ∷ []) 103 50 9 2 (some (103, owned))
owned-Fresh = (
  refl,
  record {
    free = ground arith;
    no_null = refl;
    single = λ i small held. refl;
    busy = λ i small. ground arith;
    numbered = λ i small held. ground arith;
  },
  refl,
  refl,
  refl,
  refl,
  refl,
)

-- the block with the index 20 of the file
vfs_bmap-indirect_example :
    Returns
      (λ m. m.blk_number ≡ (if ltb 20480 (12 + 4 * 256 + 256 * (4 * 256)) then 0 else 1) + 1000)
      (vfs_bmap (λ b. some (λ i. i + 1000)) (λ i. 70) (4 * 256) 20480)
vfs_bmap-indirect_example =
    vfs_bmap-indirect (λ b. some (λ i. i + 1000)) (λ i. 70) (λ i. i + 1000) 256 20480 refl
      (omega arith) (omega arith) (omega arith) (omega arith)
