-- ===== src/Ext2.antt =====
-- kernel/fs/ext2/ext2.c: where an i-node and a block stand on the disk. The super block and the group descriptor are
-- the fields that the code reads. `bread` is a parameter: the data of the buffer for a sector, or NULL; the
-- buffer goes back to the cache with brelse, which is no part of the state here.
pub mod Size
pub mod Layout
pub mod Inode
pub mod Block
mod Tests
use tempos.Base.{
  ℕ, zero, suc, ◌+◌, ◌-◌, ◌*◌, ◌/◌, ◌%◌, ◌^◌, Bool, true, false, ◌&&◌, ◌||◌, not, Option, none,
  some, ◌==◌, ltb, leb, if◌then◌else◌, Res, Data, read16, read32, ok, fault, ◌>>=◌,
}

abbrev pub sector_size : ℕ
sector_size = 512

-- what is read of `struct _ext2_superblock_st`
pub record Superblock : Type 0 where
  pub blocks_count : ℕ
  pub first_data_block : ℕ
  pub log_block_size : ℕ
  pub blocks_per_group : ℕ
  pub inodes_per_group : ℕ
  pub rev_level : ℕ

-- the sizes of `struct _ext2_fsdriver`
pub record FsSizes : Type 0 where
  pub block_size : ℕ
  pub n_groups : ℕ
  pub blks_bmap_size : ℕ
  pub inodes_bmap_size : ℕ

-- a division by 0 is undefined
pub div_rup : (a b : ℕ) → Res ℕ
div_rup a b =
    if b == 0
    then fault
    else ok (if ltb ((a / b) * b % 2 ^ 32) a then (a / b + 1) % 2 ^ 32 else a / b)

pub get_block_size : Superblock → ℕ
get_block_size sb =
    if sb.log_block_size == 1 then 2048 else if sb.log_block_size == 2 then 4096 else 1024

-- "calculate FS information" in ext2_get_sb
pub fs_sizes : Superblock → Res FsSizes
unfolding div_rup get_block_size
fs_sizes sb = do
  n_groups ← div_rup sb.blocks_count sb.blocks_per_group
  block_bytes ← div_rup sb.blocks_per_group 8
  blks_bmap_size ← div_rup block_bytes (get_block_size sb)
  inode_bytes ← div_rup sb.inodes_per_group 8
  inodes_bmap_size ← div_rup inode_bytes (get_block_size sb)
  ok (record {
    block_size = get_block_size sb / sector_size;
    n_groups = n_groups;
    blks_bmap_size = blks_bmap_size;
    inodes_bmap_size = inodes_bmap_size;
  })

pub check_is_ext2 : (bread : ℕ → Option Data) → Res ℕ
check_is_ext2 bread = elim (bread 2) [
  | none ↦ fault
  | some buff ↦ ok (if read16 buff 56 == 0xEF53 then 1 else 0)
]

-- "i-node number": 0 stands for the root
pub inode_number : (number : ℕ) → ℕ
inode_number number = if number == 0 then 2 else number

-- a round of the loop over the groups
pub next_group : Superblock → (i grp_block : ℕ) → ℕ
next_group sb i grp_block =
    let b = (grp_block + sb.blocks_per_group) % 2 ^ 32 in
    if i == 1 || (i % 3 == 0) || (i % 5 == 0) || (i % 7 == 0) then b else (b + 2 ^ 32 - 2) % 2 ^ 32

-- the rounds for i from 1 to `n`
pub group_loop : (n : ℕ) → Superblock → (grp_block : ℕ) → ℕ
group_loop zero sb grp_block = grp_block
group_loop (suc n) sb grp_block = next_group sb (suc n) (group_loop n sb grp_block)

pub group_block : Superblock → (inode_table grp_number : ℕ) → ℕ
group_block sb inode_table grp_number =
    if ltb 0 sb.rev_level
    then group_loop grp_number sb inode_table
    else (sb.blocks_per_group * grp_number % 2 ^ 32 + inode_table) % 2 ^ 32

-- from "Calculate which group" to the sector of the i-node and its offset there
pub locate : Superblock → (inode_table number : ℕ) → Res (ℕ × ℕ)
unfolding get_block_size group_block
locate sb inode_table number =
    if sb.inodes_per_group == 0
    then fault
    else let grp_number = (number - 1) / sb.inodes_per_group in
      let grp_block = group_block sb inode_table grp_number in
      let index = number - grp_number * sb.inodes_per_group in
      let iblk = (index - 1) * 128 % 2 ^ 32 in
      ok (
        (grp_block * get_block_size sb % 2 ^ 32 + iblk) % 2 ^ 32 / sector_size,
        iblk - (iblk / sector_size) * sector_size,
      )

-- what ext2_get_inode fills in of `vfs_inode`
pub record InodeInfo : Type 0 where
  pub i_mode : ℕ
  pub i_uid : ℕ
  pub i_size : ℕ
  pub i_atime : ℕ
  pub i_ctime : ℕ
  pub i_mtime : ℕ
  pub i_gid : ℕ
  pub i_links_count : ℕ
  pub i_blocks : ℕ
  pub i_flags : ℕ
  pub i_block : ℕ → ℕ

-- the fields of `struct _ext2_inode_st` at `at`
pub inode_info : Data → (at : ℕ) → InodeInfo
inode_info d at = record {
  i_mode = read16 d at;
  i_uid = read16 d (at + 2);
  i_size = read32 d (at + 4);
  i_atime = read32 d (at + 8);
  i_ctime = read32 d (at + 12);
  i_mtime = read32 d (at + 16);
  i_gid = read16 d (at + 24);
  i_links_count = read16 d (at + 26);
  i_blocks = read32 d (at + 28);
  i_flags = read32 d (at + 32);
  i_block = λ i. read32 d (at + 40 + 4 * i);
}

-- `none` where it returns 0
pub ext2_get_inode :
    (bread : ℕ → Option Data) → Superblock → (inode_table number : ℕ) → Res (Option InodeInfo)
unfolding locate inode_info inode_number
ext2_get_inode bread sb inode_table number = do
  (itab_addr, iblk_addr) ← locate sb inode_table (inode_number number)
  ok (elim (bread itab_addr) [ none ↦ none | some buff ↦ some (inode_info buff iblk_addr) ])

-- memcpy(&block[i * SECTOR_SIZE], blk->data, SECTOR_SIZE)
pub copy_sector : (block : Data) → (i : ℕ) → Data → Data
copy_sector block i buff p =
    if leb (i * sector_size) p && ltb p ((i + 1) * sector_size)
    then buff (p - i * sector_size)
    else block p

-- the first `n` rounds of the loop over the sectors; there is no check for NULL
pub read_sectors : (n : ℕ) → (bread : ℕ → Option Data) → (baddr : ℕ) → (block : Data) → Res Data
unfolding copy_sector
read_sectors zero bread baddr block = ok block
read_sectors (suc n) bread baddr block = do
  block ← read_sectors n bread baddr block
  elim (bread (baddr + n)) [ none ↦ fault | some buff ↦ ok (copy_sector block n buff) ]

-- `room` is whether kmalloc gives memory, which it clears; `fs_block_size` is in sectors
pub ext2_get_fs_block :
    (bread : ℕ → Option Data)
    → Superblock
    → (fs_block_size blocknum : ℕ) → (room : Bool) → Res (Option Data)
unfolding read_sectors get_block_size
ext2_get_fs_block bread sb fs_block_size blocknum room =
    if room
    then (do
      block ←
          read_sectors (get_block_size sb / sector_size) bread (blocknum * fs_block_size % 2 ^ 32)
            (λ _. 0)
      ok (some block))
    else ok none
