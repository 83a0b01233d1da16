-- ===== src/Ext2/Block.antt =====
-- ext2_get_fs_block.
use tempos.Base.{
  Data, ℕ, zero, suc, ◌+◌, ◌*◌, ◌/◌, ◌%◌, ◌^◌, ◌<◌, ◌≡◌, refl, ap, ◌∙◌, inl, inr, Bool-cases, true,
  false, some, arith, ltb, leb, Returns, returns, Returns-bind,
}
use native.Mathlib.Nat.{mod-eq_of_lt}
use tempos.Ext2.Size.{get_block_size-cases}
use tempos.Ext2.{
  Superblock, sector_size, get_block_size, copy_sector, read_sectors, ext2_get_fs_block,
}

-- a byte that is copied and one before
copy_sector-new :
    (block : Data) (n : ℕ) (buff : Data) (j : ℕ)
    → j < 512
    → copy_sector block n buff (n * 512 + j) ≡ buff j
unfolding copy_sector
copy_sector-new block n buff j within =
    let low : leb (n * 512) (n * 512 + j) ≡ true = ground arith in
    let high : ltb (n * 512 + j) ((n + 1) * 512) ≡ true = ground arith in
    rw (low, high) (ap buff (omega arith))

copy_sector-old :
    (block : Data) (n : ℕ) (buff : Data) (p : ℕ)
    → p < n * 512
    → copy_sector block n buff p ≡ block p
unfolding copy_sector
copy_sector-old block n buff p before =
    let low : leb (n * 512) p ≡ false = ground arith in rw low refl

read_sectors-bytes :
    (n baddr : ℕ) (disk : ℕ → Data) (block : Data)
    → Returns
        (λ b. (i j : ℕ) → i < n → j < 512 → b (i * 512 + j) ≡ disk (baddr + i) j)
        (read_sectors n (λ x. some (disk x)) baddr block)
unfolding read_sectors
read_sectors-bytes zero baddr disk block = returns λ i j below. absurd (omega arith)
read_sectors-bytes (suc n) baddr disk block =
    Returns-bind (read_sectors-bytes n baddr disk block) λ b before. returns λ i j below within.
      elim (Bool-cases (ltb i n)) [
        | inl old ↦
            copy_sector-old b n (disk (baddr + n)) (i * 512 + j) (ground arith)
            ∙ before i j (ground arith) within
        | inr new ↦
            let last : i ≡ n = ground arith in
            rw last (copy_sector-new b n (disk (baddr + n)) j within)
      ]

in_block : (sb : Superblock) (p : ℕ) → p < get_block_size sb → p / 512 < get_block_size sb / 512
in_block sb p below = elim (get_block_size-cases sb) [
  | inl kb ↦ rw kb (omega arith)
  | inr (inl kb) ↦ rw kb (omega arith)
  | inr (inr kb) ↦ rw kb (omega arith)
]

-- Given memory and a disk that can be read, the block that `ext2_get_fs_block` returns has the bytes of the disk from the
-- sector blocknum * fs_block_size on, one sector after the other up to the size of a block.
pub ext2_get_fs_block-bytes :
    (disk : ℕ → Data) (sb : Superblock) (fs_block_size blocknum : ℕ)
    → blocknum * fs_block_size < 2 ^ 32
    → Returns
        (λ r.
          (b : Data) × (r ≡ some b)
          × ((p : ℕ)
              → p < get_block_size sb
              → b p ≡ disk (blocknum * fs_block_size + p / 512) (p % 512)))
        (ext2_get_fs_block (λ x. some (disk x)) sb fs_block_size blocknum true)
unfolding ext2_get_fs_block
ext2_get_fs_block-bytes disk sb fs_block_size blocknum small =
    let start : blocknum * fs_block_size % 2 ^ 32 ≡ blocknum * fs_block_size = mod-eq_of_lt small in
    rw start (
      Returns-bind
        (read_sectors-bytes (get_block_size sb / sector_size) (blocknum * fs_block_size) disk
          (λ _. 0))
        λ b bytes. returns (
          b,
          refl,
          λ p below.
              ap b (omega arith) ∙ bytes (p / 512) (p % 512) (in_block sb p below) (omega arith),
        ))
