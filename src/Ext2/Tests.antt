-- ===== src/Ext2/Tests.antt =====
-- The theorems on ext2 at a file system of two groups with blocks of 1024 bytes.
use tempos.Base.{Data, ℕ, ◌+◌, ◌/◌, ◌%◌, ◌<◌, ◌≡◌, refl, some, true, arith, Returns}
use tempos.Ext2.{Superblock, get_block_size, next_group, ext2_get_fs_block}
use tempos.Ext2.Block.{ext2_get_fs_block-bytes}

abbrev sb : Superblock
sb = record {
  blocks_count = 10000;
  first_data_block = 1;
  log_block_size = 0;
  blocks_per_group = 8192;
  inodes_per_group = 1000;
  rev_level = 0;
}

abbrev bytes : Data
bytes p = p % 251

-- 6 is no power of 3, 5 or 7, and the group keeps its place all the same
next_group-6 : next_group (record sb { rev_level = 1 }) 6 100 ≡ 8292
unfolding next_group
next_group-6 = refl

-- the i-node 2001 is the first of the group 2, which has no copy of the super block
abbrev later : Superblock
later = record sb { rev_level = 1 }

ext2_get_fs_block-bytes_example :
    Returns
      (λ r.
        (b : Data) × (r ≡ some b)
        × ((p : ℕ) → p < get_block_size sb → b p ≡ bytes (200 + p / 512 + p % 512)))
      (ext2_get_fs_block (λ x. some (λ j. bytes (x + j))) sb 2 100 true)
ext2_get_fs_block-bytes_example =
    ext2_get_fs_block-bytes (λ x j. bytes (x + j)) sb 2 100 (omega arith)
