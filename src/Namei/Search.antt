-- ===== src/Namei/Search.antt =====
-- The search for a name in all blocks of a directory.
use tempos.Base.{
  ℕ, zero, suc, ◌+◌, ◌/◌, ◌%◌, ◌<◌, ◌≤◌, ◌≡◌, refl, Bool-cases, inl, inr, true, false, Option, none,
  some, List, [], ◌∷◌, arith, ◌==◌, ltb, if◌then◌else◌, length, Data, Res, ok, ◌>>=◌,
}
use tempos.Vfs.{Ptr, null}
use tempos.Vfs.Bmap.{BlockMap}
use tempos.Namei.{Directory, block_loop, find_component}
use tempos.Namei.Block.{Entry, Listed, lookup, entry_loop-lookup}

-- the blocks of a directory from an offset on list these entries, at most `k` less one in each block
abbrev pub Blocks : Directory → (k pos : ℕ) → List (List Entry) → Type 0
Blocks dir k pos [] = dir.i_size ≤ pos
Blocks dir k pos (es ∷ ess) =
    (pos < dir.i_size)
    × ((m : BlockMap) × (b : Data) × (dir.bmap pos ≡ ok m)
        × (m.blk_offset ≡ 0)
        × (dir.get_fs_block m.blk_number ≡ some b)
        × Listed b dir.s_log_block_size 0 es)
    × (length es < k)
    × Blocks dir k (pos + dir.s_log_block_size) ess

module _ {ℓ} {S : Type ℓ} (iget : S → ℕ → Res (Ptr × S)) where
  -- vfs_iget for the match of each block that has one, in order; the last one is the result
  abbrev pub visit : List (List Entry) → (component : List ℕ) → Ptr → S → Res (Ptr × S)
  visit [] component inode s = ok (inode, s)
  visit (es ∷ ess) component inode s = elim (lookup es component) [
    | none ↦ visit ess component inode s
    | some number ↦ do (inode, s) ← iget s number; visit ess component inode s
  ]

  -- what is done with the match of a block, before the next block
  after_block :
      (v : Option ℕ) (inode : Ptr) (s : S) (rest : Ptr × S → Res (Ptr × S))
      (next : Ptr → S → Res (Ptr × S))
      → ((at : Ptr × S) → rest at ≡ next at.0 at.1)
      → ((elim v [ none ↦ ok (inode, s) | some number ↦ iget s number ]) >>= rest)
        ≡ elim v [ none ↦ next inode s | some number ↦ do (inode, s) ← iget s number; next inode s ]
  after_block none inode s rest next same = same (inode, s)
  after_block (some number) inode s rest next same = λ t. iget s number >>= (λ at. same at t)

  block_loop-visit :
      (n k : ℕ) (dir : Directory) (component : List ℕ) (pos : ℕ) (ess : List (List Entry))
      (inode : Ptr) (s : S)
      → Blocks dir k pos ess
      → length ess < n
      → block_loop n k iget dir component pos (inode, s) ≡ visit ess component inode s
  unfolding block_loop
  block_loop-visit zero k dir component pos ess inode s blocks fuel = absurd (omega arith)
  block_loop-visit (suc n) k dir component pos [] inode s blocks fuel =
      let behind : ltb pos dir.i_size ≡ false = ground arith in rw behind refl
  block_loop-visit (suc n) k dir component pos (es ∷ ess) inode s
        (inside, (m, b, map, start, read, l), few, more) fuel =
      let within : ltb pos dir.i_size ≡ true = ground arith in
      let found = entry_loop-lookup k b component dir.s_log_block_size 0 es l few in
      rw (within, map)
        (rw (read, start)
          (rw found (
            after_block (lookup es component) inode s
              (λ at. block_loop n k iget dir component (pos + dir.s_log_block_size) at)
              (λ inode s. visit ess component inode s)
              (λ at.
                block_loop-visit n k dir component (pos + dir.s_log_block_size) ess at.0 at.1 more
                  (omega arith)))))

  -- In a directory whose blocks are lists of entries the search calls vfs_iget for the first match of each block that has one, and
  -- returns the last i-node that it gets so, or NULL if there is no match; without the mark of a directory it returns NULL at once.
  pub find_component-visit :
      (n k : ℕ) (dir : Directory) (component : List ℕ) (ess : List (List Entry)) (s : S)
      → Blocks dir k 0 ess
      → length ess < n
      → find_component n k iget dir component s
        ≡ (if dir.i_mode / 0x4000 % 2 == 0 then ok (null, s) else visit ess component null s)
  unfolding find_component
  find_component-visit n k dir component ess s blocks fuel =
      elim (Bool-cases (dir.i_mode / 0x4000 % 2 == 0)) [
        | inl other ↦ rw other refl
        | inr directory ↦ rw directory (block_loop-visit n k dir component 0 ess null s blocks fuel)
      ]
