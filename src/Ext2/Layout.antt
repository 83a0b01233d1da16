-- ===== src/Ext2/Layout.antt =====
-- Where ext2 keeps the tables of i-nodes and the fields of an i-node.
use tempos.Base.{
  Data, read16, read32, ℕ, zero, suc, ◌+◌, ◌-◌, ◌*◌, ◌%◌, ◌^◌, ◌<◌, ◌≤◌, ◌≡◌, refl, ap, ◌∙◌, ◌||◌,
  Bool, Bool-cases, inl, inr, ◌==◌, ltb, if◌then◌else◌, arith,
}
use native.Mathlib.Nat.{mul_comm, add-mul, one-mul}
use tempos.Ext2.{
  Superblock, InodeInfo, get_block_size, next_group, group_loop, group_block, inode_number,
  inode_info,
}

-- The groups that the code takes for those with a copy of the super block: the first one, and those with a number that 3, 5 or 7 divides.
abbrev pub has_copy : (i : ℕ) → Bool
has_copy i = i == 1 || (i % 3 == 0) || (i % 5 == 0) || (i % 7 == 0)

-- how many of the groups from 1 to `g` have none
abbrev pub plain : (g : ℕ) → ℕ
plain zero = 0
plain (suc g) = plain g + (if has_copy (suc g) then 0 else 1)

-- The first block of the table of the group `g`: as far from that of the first group as the groups are, in later revisions two blocks less for
-- each group without a copy of the super block and of the group descriptors.
abbrev pub table_block : Superblock → (inode_table g : ℕ) → ℕ
table_block sb inode_table g =
    inode_table + g * sb.blocks_per_group - (if ltb 0 sb.rev_level then 2 * plain g else 0)

next-product : (g b : ℕ) → suc g * b ≡ g * b + b
next-product g b =
    let e : suc g ≡ g + 1 = omega arith in
    rw e (add-mul g 1 b ∙ ap (λ (t : ℕ). g * b + t) (one-mul b))

group_loop-plain :
    (g : ℕ) (sb : Superblock) (inode_table : ℕ)
    → 2 ≤ sb.blocks_per_group
    → inode_table + g * sb.blocks_per_group < 2 ^ 32
    → group_loop g sb inode_table + 2 * plain g ≡ inode_table + g * sb.blocks_per_group
unfolding group_loop next_group
group_loop-plain zero sb inode_table some_blocks small = omega arith
group_loop-plain (suc g) sb inode_table some_blocks small =
    let m = next-product g sb.blocks_per_group in
    let before = group_loop-plain g sb inode_table some_blocks (omega arith) in
    elim (Bool-cases (has_copy (suc g))) [
      | inl copy ↦ rw copy (omega arith)
      | inr none_there ↦ rw none_there (omega arith)
    ]

pub group_block-table_block :
    (sb : Superblock) (inode_table g : ℕ)
    → 2 ≤ sb.blocks_per_group
    → inode_table + g * sb.blocks_per_group < 2 ^ 32
    → group_block sb inode_table g ≡ table_block sb inode_table g
unfolding group_block
group_block-table_block sb inode_table g some_blocks small =
    elim (Bool-cases (ltb 0 sb.rev_level)) [
      | inl later ↦ rw later (omega (arith, group_loop-plain g sb inode_table some_blocks small))
      | inr first ↦ rw first (omega (arith, mul_comm g sb.blocks_per_group))
    ]

-- a block has 1024 bytes, doubled as often as the super block says
pub get_block_size-power :
    (sb : Superblock) → sb.log_block_size ≤ 2 → get_block_size sb ≡ 1024 * 2 ^ sb.log_block_size
unfolding get_block_size
get_block_size-power sb few = elim (Bool-cases (sb.log_block_size == 1)) [
  | inl one ↦ let e : sb.log_block_size ≡ 1 = ground arith in rw e refl
  | inr other ↦ elim (Bool-cases (sb.log_block_size == 2)) [
    | inl two ↦ let e : sb.log_block_size ≡ 2 = ground arith in rw e refl
    | inr none_left ↦ let e : sb.log_block_size ≡ 0 = ground arith in rw e refl
  ]
]

-- The place of an i-node among all, from 0 on; the number 0 stands for the root, which has the number 2.
abbrev pub place_of : (number : ℕ) → ℕ
place_of number = if number == 0 then 1 else number - 1

pub inode_number-place_of : (number : ℕ) → inode_number number - 1 ≡ place_of number
unfolding inode_number
inode_number-place_of number = ground arith

-- The fields of an i-node of ext2 at the byte `at`. Between i_mtime and i_gid stands i_dtime, between i_flags and i_block a word of the
-- system that wrote it.
abbrev pub entry_info : Data → (at : ℕ) → InodeInfo
entry_info d at = record {
  i_mode = read16 d at;
  i_uid = read16 d (at + 2);
  i_size = read32 d (at + 4);
  i_atime = read32 d (at + 8);
  i_ctime = read32 d (at + 12);
  i_mtime = read32 d (at + 16);
  i_gid = read16 d (at + 24);
  i_links_count = read16 d (at + 26);
  i_blocks = read32 d (at + 28);
  i_flags = read32 d (at + 32);
  i_block = λ i. read32 d (at + 40 + 4 * i);
}

pub inode_info-entry_info : (d : Data) (at : ℕ) → inode_info d at ≡ entry_info d at
unfolding inode_info
inode_info-entry_info d at = refl
