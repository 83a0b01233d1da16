-- ===== src/Ext2/Size.antt =====
-- div_rup and get_block_size.
use tempos.Base.{
  ℕ, ◌+◌, ◌*◌, ◌/◌, ◌%◌, ◌^◌, ◌<◌, ◌≤◌, ◌≡◌, sym, ap, ◌∙◌, ◌≢◌, ◌⊎◌, inl, inr, Bool-cases, arith,
  ==_of_ne, ltb, Returns, returns,
}
use native.Mathlib.Nat.{mod-add-div', mod-lt, add_comm, one-mul, le-mul_of_pos_right, add-mul}
use tempos.Ext2.{Superblock, div_rup, get_block_size}

-- the quotient and the remainder
pub quotient : (a b : ℕ) → b ≢ 0 → (a ≡ (a / b) * b + a % b) × (a % b < b)
quotient a b ne = (sym (mod-add-div' a b) ∙ add_comm (a % b) (a / b * b), mod-lt a (ground arith))

-- The result `c` of `div_rup` is `a / b` rounded up: a ≤ c * b < a + b.
pub div_rup-ceiling :
    (a b : ℕ) → b ≢ 0 → a < 2 ^ 32 → Returns (λ c. (a ≤ c * b) × (c * b < a + b)) (div_rup a b)
unfolding div_rup
div_rup-ceiling a b ne small =
    let (whole, rest) = quotient a b ne in
    let next : (a / b + 1) * b ≡ a / b * b + b =
      add-mul (a / b) 1 b ∙ ap (λ (t : ℕ). a / b * b + t) (one-mul b) in
    let below : a / b ≤ a / b * b = le-mul_of_pos_right (a / b) (ground arith) in
    elim (Bool-cases (ltb (a / b * b % 2 ^ 32) a)) [
      | inl up ↦
          let less : a / b * b < a = ground arith in
          let word : (a / b + 1) % 2 ^ 32 ≡ a / b + 1 = omega arith in
          rw (==_of_ne b 0 ne, up, word) (returns (rw next (omega arith), rw next (omega arith)))
      | inr exact ↦
          let all : a / b * b ≡ a = ground arith in
          rw (==_of_ne b 0 ne, exact) (returns (omega arith, omega arith))
    ]

-- A block is 1024, 2048 or 4096 bytes.
pub get_block_size-cases :
    (sb : Superblock)
    → (get_block_size sb ≡ 1024) ⊎ (get_block_size sb ≡ 2048) ⊎ (get_block_size sb ≡ 4096)
unfolding get_block_size
get_block_size-cases sb = ground arith
