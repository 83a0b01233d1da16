-- ===== src/Vfs/Bmap/Indirect.antt =====
-- vfs_bmap for the blocks that the first indirect block names.
use native.Mathlib.Nat.{
  div-lt_iff_lt-mul, le-div_iff_mul-le, div-eq_of_lt, div-eq_of_lt-le, mul-div_cancel_left,
  mul-le-mul_right, add-mul,
}
use tempos.Base.{
  Option, some, ℕ, ◌+◌, ◌-◌, ◌*◌, ◌/◌, ◌%◌, ◌^◌, ◌<◌, ◌≤◌, ◌≡◌, refl, true, false, Bool-cases, inl,
  inr, ◌==◌, ==_of_ne, ltb, if◌then◌else◌, arith, Returns, returns,
}
use tempos.Vfs.Bmap.{vfs_bmap, vfs_ndir_blocks, walk, index_of, indirection}
use tempos.Vfs.Bmap.Power.{ipow-zero}

-- a quotient that is 0 or 1
div-two : (d m : ℕ) → 0 < m → d < m + m → d / m ≡ (if ltb d m then 0 else 1)
div-two d m pos below = elim (Bool-cases (ltb d m)) [
  | inl less ↦ rw less (div-eq_of_lt (ground arith))
  | inr more ↦ rw more (div-eq_of_lt-le m (ground arith) (omega arith))
]

-- `n` is the number of entries of a block, `m` the bytes that the first indirect block covers
index_of-single :
    (n m offset : ℕ)
    → n * (4 * n) ≡ m
    → 32 ≤ n
    → m < 2 ^ 31
    → 12 * (4 * n) ≤ offset
    → offset < 12 * (4 * n) + m
    → index_of offset (4 * n) n 1 ≡ (if ltb offset (12 + 4 * n + m) then 0 else 1)
unfolding index_of
index_of-single n m offset square big small from below =
    let wide : 32 * (4 * n) ≤ n * (4 * n) = mul-le-mul_right (4 * n) big in
    let wide' : 32 * (4 * n) ≤ m = omega (arith, wide, square) in
    let skipped : (12 + 1 * (4 * n)) % 2 ^ 32 ≡ 12 + 4 * n = omega arith in
    let d : (offset + 2 ^ 32 - (12 + 4 * n)) % 2 ^ 32 ≡ offset - (12 + 4 * n) = omega arith in
    let full : m % 2 ^ 32 ≡ m = omega arith in
    rw (ipow-zero n, square)
      (rw skipped (
        rw (d, full)
          (rw (div-two (offset - (12 + 4 * n)) m (omega arith) (omega arith)) (ground arith))))

-- For a file system with blocks of `4 * n` bytes, which are `n` numbers, where the first indirect block can be read: every offset that the first indirect block covers gets
-- the first number of that block, or the second one if the offset is at least `12 + 4 * n + n * (4 * n)`, whichever
-- of the `n` blocks the offset lies in.
pub vfs_bmap-indirect :
    (get_fs_block : ℕ → Option (ℕ → ℕ)) (i_block ind_blk : ℕ → ℕ) (n offset : ℕ)
    → get_fs_block (i_block vfs_ndir_blocks) ≡ some ind_blk
    → 32 ≤ n
    → n * (4 * n) < 2 ^ 31
    → 12 * (4 * n) ≤ offset
    → offset < 12 * (4 * n) + n * (4 * n)
    → Returns
        (λ m. m.blk_number ≡ ind_blk (if ltb offset (12 + 4 * n + n * (4 * n)) then 0 else 1))
        (vfs_bmap get_fs_block i_block (4 * n) offset)
unfolding vfs_bmap walk indirection
vfs_bmap-indirect get_fs_block i_block ind_blk n offset read big small from below =
    let b = offset / (4 * n) in
    let pos : 0 < 4 * n = omega arith in
    let not_direct : 12 ≤ b = (le-div_iff_mul-le pos).1 from in
    let cover : (12 + n) * (4 * n) ≡ 12 * (4 * n) + n * (4 * n) = add-mul 12 n (4 * n) in
    let single : b < 12 + n = (div-lt_iff_lt-mul pos).1 (rw cover below) in
    let entries : 4 * n / 4 ≡ n = mul-div_cancel_left n (omega arith) in
    let wide : 32 * (4 * n) ≤ n * (4 * n) = mul-le-mul_right (4 * n) big in
    let full : (n * (4 * n) % 2 ^ 32 == 0) ≡ false =
      ==_of_ne (n * (4 * n) % 2 ^ 32) 0 (omega arith) in
    let far : ltb b 12 ≡ false = ground arith in
    let near : ltb b (12 + n) ≡ true = ground arith in
    let i = index_of-single n (n * (4 * n)) offset refl big small from below in
    let inside : ltb (if ltb offset (12 + 4 * n + n * (4 * n)) then 0 else 1) n ≡ true =
      ground arith in
    rw (==_of_ne (4 * n) 0 (omega arith), far)
      (rw (entries, near) (rw (full, read) (rw i (rw inside (returns refl)))))
