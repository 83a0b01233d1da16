-- ===== src/Vfs/Bmap.antt =====
-- vfs_bmap and _ipow of kernel/fs/vfs.c. `get_fs_block` is the file system's function that reads a
-- block: the words of the block with a number, or NULL.
pub mod Power
pub mod Direct
pub mod Indirect
use tempos.Base.{
  ℕ, zero, suc, ◌+◌, ◌-◌, ◌*◌, ◌/◌, ◌%◌, ◌^◌, Bool, true, false, Option, none, some, ◌==◌, ltb,
  if◌then◌else◌, Res, ok, fault, ◌>>=◌,
}
use tempos.Vfs.Bmap.Power.{ipow}

abbrev pub vfs_ndir_blocks : ℕ
vfs_ndir_blocks = 12

-- vfs_bmap_t
pub record BlockMap : Type 0 where
  pub blk_number : ℕ
  pub blk_offset : ℕ
  pub blk_breada : ℕ

-- the index into a block of an indirection, as the code computes it
pub index_of : (offset blk_size n_entries ilevel : ℕ) → ℕ
index_of offset blk_size n_entries ilevel =
    let skipped = (vfs_ndir_blocks + ipow n_entries (ilevel - 1) * blk_size) % 2 ^ 32 in
    (offset + 2 ^ 32 - skipped) % 2 ^ 32 / (n_entries * blk_size % 2 ^ 32)

-- the first block number to read, and the level of the indirection
pub indirection : (i_block : ℕ → ℕ) → (b_ind n_entries : ℕ) → ℕ × ℕ
indirection i_block b_ind n_entries =
    if ltb b_ind (vfs_ndir_blocks + n_entries)
    then (i_block vfs_ndir_blocks, 1)
    else if ltb b_ind ((vfs_ndir_blocks + n_entries + ipow n_entries 2) % 2 ^ 32)
    then (i_block (vfs_ndir_blocks + 1), 2)
    else (i_block (vfs_ndir_blocks + 2), 3)

-- "Walk into indirect blocks", for the rounds that are left: a block has `n_entries` words
pub walk :
    (get_fs_block : ℕ → Option (ℕ → ℕ))
    → (rounds offset blk_size n_entries ilevel b_ind_number : ℕ) → Res ℕ
walk get_fs_block zero offset blk_size n_entries ilevel b_ind_number = ok b_ind_number
walk get_fs_block (suc rounds) offset blk_size n_entries ilevel b_ind_number =
    let b_ind_index = index_of offset blk_size n_entries ilevel in
    if n_entries * blk_size % 2 ^ 32 == 0 then fault else elim (get_fs_block b_ind_number) [
      | none ↦ fault
      | some ind_blk ↦
          let rest =
            walk get_fs_block rounds offset blk_size n_entries ilevel (ind_blk b_ind_index) in
          if ltb b_ind_index n_entries then rest else fault
    ]

pub vfs_bmap :
    (get_fs_block : ℕ → Option (ℕ → ℕ)) → (i_block : ℕ → ℕ) → (blk_size offset : ℕ) → Res BlockMap
vfs_bmap get_fs_block i_block blk_size offset =
    if blk_size == 0
    then fault
    else let b_ind = offset / blk_size in
      let blk_offset = offset - b_ind * blk_size in
      if ltb b_ind vfs_ndir_blocks
      then ok (record { blk_number = i_block b_ind; blk_offset = blk_offset; blk_breada = 0 })
      else (do
        let (b_ind_number, ilevel) = indirection i_block b_ind (blk_size / 4)
        blk_number ← walk get_fs_block ilevel offset blk_size (blk_size / 4) ilevel b_ind_number
        ok (record { blk_number = blk_number; blk_offset = blk_offset; blk_breada = 0 }))
