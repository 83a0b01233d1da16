-- ===== src/Namei/Tests.antt =====
-- The theorems on path names at a directory of one block.
use tempos.Base.{
  ℕ, ◌+◌, ◌*◌, ◌<◌, ◌≤◌, ◌≡◌, refl, ◌≢◌, inr, some, List, [], ◌∷◌, arith, ◌==◌, if◌then◌else◌, Data,
  read16, read32, Res, ok, out_of_fuel,
}
use tempos.Vfs.{Ptr}
use tempos.Namei.{Directory, entry_loop, same_text, vfs_namei, find_component}
use tempos.Namei.Path.{vfs_namei-follow}
use tempos.Namei.Block.{Entry, Listed, Reaches, here, next, entry_loop-lookup, entry_loop-ends}
use tempos.Namei.Search.{find_component-visit}

-- the directory with an entry `a` for the i-node 7 in 12 bytes, and an unused entry behind it
abbrev block : Data
block p =
    if p == 0 then 7 else if p == 4 then 12 else if p == 6 then 1 else if p == 8 then 97 else 0

abbrev entry : Entry
entry = record { inode = 7; rec_len = 12; name = 97 ∷ [] }

block-Listed : Listed block 64 0 (entry ∷ [])
unfolding read32 read16
block-Listed =
    (omega arith, refl, omega arith, refl, refl, (refl, omega arith, tt), inr (omega arith, refl))

entry_loop-lookup_example : entry_loop 2 block (97 ∷ []) 64 0 ≡ ok (some 7)
unfolding same_text
entry_loop-lookup_example =
    entry_loop-lookup 2 block (97 ∷ []) 64 0 (entry ∷ []) block-Listed (omega arith)

-- the search comes to the offsets 0 and 12 only
block-long :
    (p : ℕ) → Reaches block 64 0 p → p + 4 ≤ 64 → read32 block p ≢ 0 → 0 < read16 block (p + 4)
unfolding read32 read16
block-long p here room used = omega arith
block-long p (next inside first here) room used = absurd (used refl)
block-long p (next inside first (next inside' second reached)) room used = absurd (second refl)

entry_loop-ends_example : entry_loop 65 block (98 ∷ []) 64 0 ≢ out_of_fuel
entry_loop-ends_example = entry_loop-ends 65 block (98 ∷ []) 64 0 block-long (omega arith)

abbrev directory : Directory
directory = record {
  i_mode = 0x41ED;
  i_size = 64;
  s_log_block_size = 64;
  bmap = λ pos. ok (record { blk_number = 5; blk_offset = 0; blk_breada = 0 });
  get_fs_block = λ number. some block;
}

-- the state counts the calls of vfs_iget
abbrev iget : ℕ → ℕ → Res (Ptr × ℕ)
iget s number = ok (number + 100, s + 1)

find_component-visit_example : find_component 2 2 iget directory (97 ∷ []) 0 ≡ ok (107, 1)
unfolding same_text read32 read16
find_component-visit_example =
    find_component-visit iget 2 2 directory (97 ∷ []) ((entry ∷ []) ∷ []) 0
      (
        omega arith,
        (
          record { blk_number = 5; blk_offset = 0; blk_breada = 0 },
          block,
          refl,
          refl,
          refl,
          block-Listed,
        ),
        omega arith,
        omega arith,
      )
      (omega arith)

-- the path /a//../b
abbrev find : ℕ → Ptr → List ℕ → Res (Ptr × ℕ)
find s inode comp = ok (inode * 10 + s, s + 1)

vfs_namei-follow_example :
    vfs_namei find 1 2 (47 ∷ 97 ∷ 47 ∷ 47 ∷ 46 ∷ 46 ∷ 47 ∷ 98 ∷ []) 3 ≡ ok (134, 5)
unfolding same_text
vfs_namei-follow_example =
    vfs_namei-follow find 1 2 47 (97 ∷ 47 ∷ 47 ∷ 46 ∷ 46 ∷ 47 ∷ 98 ∷ []) 3 (omega arith)
      (ground arith) (omega arith)
