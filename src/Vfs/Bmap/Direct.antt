-- ===== src/Vfs/Bmap/Direct.antt =====
-- vfs_bmap for the blocks that the i-node itself names.
use native.Mathlib.Nat.{div-lt_iff_lt-mul, div-mul-le_self, lt-div-mul-add}
use tempos.Base.{
  Option, ℕ, ◌+◌, ◌*◌, ◌/◌, ◌<◌, ◌≡◌, refl, true, ==_of_ne, ltb, arith, Returns, returns,
}
use tempos.Vfs.Bmap.{vfs_bmap, vfs_ndir_blocks}

-- For an offset within the first twelve blocks, `vfs_bmap` gives the number that the i-node has for the block and the
-- offset in it: the offset lies within a block, and block index and offset make up the
-- offset that was asked for. No indirect block is read.
pub vfs_bmap-direct :
    (get_fs_block : ℕ → Option (ℕ → ℕ)) (i_block : ℕ → ℕ) (blk_size offset : ℕ)
    → 0 < blk_size
    → offset < vfs_ndir_blocks * blk_size
    → Returns
        (λ m.
          (m.blk_number ≡ i_block (offset / blk_size))
          × (offset / blk_size < vfs_ndir_blocks)
          × (m.blk_offset < blk_size)
          × (offset / blk_size * blk_size + m.blk_offset ≡ offset))
        (vfs_bmap get_fs_block i_block blk_size offset)
unfolding vfs_bmap
vfs_bmap-direct get_fs_block i_block blk_size offset pos small =
    let index : offset / blk_size < vfs_ndir_blocks = (div-lt_iff_lt-mul pos).1 small in
    let direct : ltb (offset / blk_size) vfs_ndir_blocks ≡ true = ground arith in
    let whole = div-mul-le_self offset blk_size in
    let part = lt-div-mul-add {a = offset} pos in
    rw (==_of_ne blk_size 0 (omega arith))
      (rw direct (returns (refl, index, omega arith, omega arith)))
