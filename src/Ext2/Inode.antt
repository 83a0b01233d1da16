-- ===== src/Ext2/Inode.antt =====
-- The part of ext2.c about i-nodes.
use tempos.Base.{
  Data, ℕ, ◌+◌, ◌-◌, ◌*◌, ◌/◌, ◌%◌, ◌^◌, ◌<◌, ◌≤◌, ◌≡◌, ◌≢◌, inl, inr, Option, some, ==_of_ne,
  arith, Returns, returns,
}
use native.Mathlib.Nat.{mod-eq_of_lt}
use tempos.Ext2.Layout.{table_block, place_of}
use tempos.Ext2.Size.{get_block_size-cases, quotient}
use tempos.Ext2.{Superblock, get_block_size, group_block, locate}

aligned : (sb : Superblock) (g : ℕ) → g * get_block_size sb % 512 ≡ 0
aligned sb g = elim (get_block_size-cases sb) [
  | inl kb ↦ rw kb (omega arith)
  | inr (inl kb) ↦ rw kb (omega arith)
  | inr (inr kb) ↦ rw kb (omega arith)
]

-- the sector and the offset of the entry `e` of a table at the byte `t`
entry-place :
    (t e : ℕ)
    → t % 512 ≡ 0
    → t + e * 128 < 2 ^ 32
    → ((t % 2 ^ 32 + e * 128 % 2 ^ 32) % 2 ^ 32 / 512 * 512
          + (e * 128 % 2 ^ 32 - e * 128 % 2 ^ 32 / 512 * 512)
        ≡ t + e * 128)
      × (e * 128 % 2 ^ 32 - e * 128 % 2 ^ 32 / 512 * 512 + 128 ≤ 512)
entry-place t e start small =
    let table : t % 2 ^ 32 ≡ t = mod-eq_of_lt (omega arith) in
    let entry : e * 128 % 2 ^ 32 ≡ e * 128 = mod-eq_of_lt (omega arith) in
    let sum : (t + e * 128) % 2 ^ 32 ≡ t + e * 128 = mod-eq_of_lt small in
    rw (table, entry, sum) (omega arith, omega arith)

-- The place that is computed for an i-node of number 1 or more: byte by byte it is the entry of the number in the table of its group, where the address of
-- the entry fits a word, and the 128 bytes from there on stand within one sector.
pub locate-entry :
    (sb : Superblock) (inode_table number : ℕ)
    → sb.inodes_per_group ≢ 0
    → number ≢ 0
    → group_block sb inode_table ((number - 1) / sb.inodes_per_group) * get_block_size sb
        + (number - 1) % sb.inodes_per_group * 128
      < 2 ^ 32
    → Returns
        (λ (itab_addr, iblk_addr).
          (itab_addr * 512 + iblk_addr
            ≡ group_block sb inode_table ((number - 1) / sb.inodes_per_group) * get_block_size sb
              + (number - 1) % sb.inodes_per_group * 128)
          × (iblk_addr + 128 ≤ 512))
        (locate sb inode_table number)
unfolding locate
locate-entry sb inode_table number ne some_number small =
    let (whole, rest) = quotient (number - 1) sb.inodes_per_group ne in
    let index : number - (number - 1) / sb.inodes_per_group * sb.inodes_per_group - 1
        ≡ (number - 1) % sb.inodes_per_group =
      omega arith in
    rw (==_of_ne sb.inodes_per_group 0 ne, index)
      (returns (
        entry-place
          (group_block sb inode_table ((number - 1) / sb.inodes_per_group) * get_block_size sb)
          ((number - 1) % sb.inodes_per_group) (aligned sb _) small))

-- the disk as one array of bytes, by sectors
abbrev pub sectors : Data → ℕ → Option Data
sectors d x = some (λ j. d (x * 512 + j))

-- the byte where the i-node stands
abbrev pub entry_place : Superblock → (inode_table number : ℕ) → ℕ
entry_place sb inode_table number =
    table_block sb inode_table (place_of number / sb.inodes_per_group)
      * (1024 * 2 ^ sb.log_block_size)
    + place_of number % sb.inodes_per_group * 128
