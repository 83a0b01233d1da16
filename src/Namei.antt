-- ===== src/Namei.antt =====
-- kernel/fs/namei.c: path names. A path is the list of its bytes without the zero at its end. The search in a directory takes
-- vfs_iget, which changes the state `S` of the i-nodes, and the blocks of the directory as arguments.
pub mod Path
pub mod Split
pub mod Search
pub mod Block
mod Tests
use tempos.Base.{
  ℕ, zero, suc, ◌+◌, ◌-◌, ◌*◌, ◌/◌, ◌%◌, ◌^◌, Bool, true, false, ◌&&◌, ◌||◌, not, Option, none,
  some, List, [], ◌∷◌, ◌++◌, ◌==◌, ltb, leb, if◌then◌else◌, length, Data, read16, read32, Res, ok,
  fault, out_of_fuel, ◌>>=◌,
}
use tempos.Vfs.{Ptr, null}
use tempos.Vfs.Bmap.{BlockMap}

abbrev pub vfs_name_len : ℕ
vfs_name_len = 512

-- the byte at an index, with the zero behind the last one
pub char_at : List ℕ → ℕ → ℕ
char_at [] i = 0
char_at (c ∷ cs) zero = c
char_at (c ∷ cs) (suc i) = char_at cs i

-- `n` bytes from an index on
pub slice : List ℕ → (start n : ℕ) → List ℕ
slice cs start zero = []
slice [] start (suc n) = 0 ∷ slice [] start n
slice (c ∷ cs) zero (suc n) = c ∷ slice cs zero n
slice (c ∷ cs) (suc start) (suc n) = slice cs start (suc n)

-- strcmp(a, b) == 0
pub same_text : (a b : List ℕ) → Bool
same_text [] [] = true
same_text [] (y ∷ ys) = false
same_text (x ∷ xs) [] = false
same_text (x ∷ xs) (y ∷ ys) = (x == y) && same_text xs ys

module _ {ℓ} {S : Type ℓ} where
  -- what is done with a component, and whether the loop goes on: one that is empty, or ".." in a path from the root, is
  -- left out, and one that is not found ends the loop with NULL. One without room in `comp` is written behind its end.
  pub enter :
      (find : S → Ptr → List ℕ → Res (Ptr × S))
      → (isroot : Bool) → (comp : List ℕ) → Ptr
      → S
      → Res (Bool × Ptr × S)
  unfolding same_text
  enter find isroot comp inode s =
      if leb vfs_name_len (length comp)
      then fault
      else if (length comp == 0) || (same_text comp (46 ∷ 46 ∷ []) && isroot)
      then ok (true, inode, s)
      else (do (inode, s) ← find s inode comp; ok (not (inode == null), inode, s))

  -- the loop from `i` on, with `n` rounds left
  pub name_loop :
      (find : S → Ptr → List ℕ → Res (Ptr × S))
      → (isroot : Bool) → (pathname : List ℕ) → (n i start : ℕ) → Ptr
      → S
      → Res (Ptr × S)
  unfolding char_at slice enter
  name_loop find isroot pathname zero i start inode s = ok (inode, s)
  name_loop find isroot pathname (suc n) i start inode s =
      let skip = name_loop find isroot pathname n (i + 1) start inode s in
      if char_at pathname i == 47 || (char_at pathname i == 0)
      then (do
        (goes_on, inode, s) ← enter find isroot (slice pathname start (i - start)) inode s
        let rest = name_loop find isroot pathname n (i + 1) (i + 1) inode s
        if goes_on then rest else ok (null, s))
      else skip

  -- from the root or the current directory of the task
  pub vfs_namei :
      (find : S → Ptr → List ℕ → Res (Ptr × S))
      → (i_root i_cdir : Ptr) → (pathname : List ℕ) → S
      → Res (Ptr × S)
  unfolding char_at name_loop
  vfs_namei find i_root i_cdir pathname s =
      if char_at pathname 0 == 47
      then name_loop find true pathname (length pathname) 1 1 i_root s
      else name_loop find false pathname (length pathname) 1 1 i_cdir s

-- the bytes of a name in a block, up to a zero
pub name_at : (n : ℕ) → Data → (pos : ℕ) → List ℕ
name_at zero block pos = []
name_at (suc n) block pos =
    let rest = name_at n block (pos + 1) in if block pos == 0 then [] else block pos ∷ rest

-- the loop over the entries of a block of `blk_size` bytes: the number of the i-node, where the component is found. What lies
-- behind the block is not memory of the block.
pub entry_loop : ℕ → Data → (component : List ℕ) → (blk_size bpos : ℕ) → Res (Option ℕ)
unfolding name_at same_text
entry_loop zero block component blk_size bpos = out_of_fuel
entry_loop (suc k) block component blk_size bpos =
    let next = entry_loop k block component blk_size (bpos + read16 block (bpos + 4)) in
    if leb blk_size bpos
    then ok none
    else if ltb blk_size (bpos + 4)
    then fault
    else if read32 block bpos == 0
    then ok none
    else if ltb blk_size (bpos + 8 + block (bpos + 6))
    then fault
    else if same_text (name_at (block (bpos + 6)) block (bpos + 8)) component
    then ok (some (read32 block bpos))
    else next

-- a directory as namei.c sees it
pub record Directory : Type 0 where
  pub i_mode : ℕ
  pub i_size : ℕ
  pub s_log_block_size : ℕ
  -- vfs_bmap for an offset, and get_fs_block for a number
  pub bmap : ℕ → Res BlockMap
  pub get_fs_block : ℕ → Option Data

module _ {ℓ} {S : Type ℓ} where
  -- the loop over the blocks; it goes on after the component was found
  pub block_loop :
      (n k : ℕ)
      → (iget : S → ℕ → Res (Ptr × S)) → Directory
      → (component : List ℕ) → (pos : ℕ) → Ptr × S
      → Res (Ptr × S)
  unfolding entry_loop
  block_loop zero k iget dir component pos (newinode, s) = out_of_fuel
  block_loop (suc n) k iget dir component pos (newinode, s) =
      if ltb pos dir.i_size
      then (do
        m ← dir.bmap pos
        elim (dir.get_fs_block m.blk_number) [
          | none ↦ ok (newinode, s)
          | some block ↦ do
            found ← entry_loop k block component dir.s_log_block_size m.blk_offset
            at ← elim found [ none ↦ ok (newinode, s) | some number ↦ iget s number ]
            block_loop n k iget dir component (pos + dir.s_log_block_size) at
        ])
      else ok (newinode, s)

  pub find_component :
      (n k : ℕ)
      → (iget : S → ℕ → Res (Ptr × S)) → Directory
      → (component : List ℕ) → S
      → Res (Ptr × S)
  unfolding block_loop
  find_component n k iget dir component s =
      if dir.i_mode / 0x4000 % 2 == 0
      then ok (null, s)
      else block_loop n k iget dir component 0 (null, s)
