-- ===== src/Vfs/Bmap/Power.antt =====
-- _ipow: powers of 32 bits.
use native.Mathlib.Nat.{pow-suc, pow-zero, one-mul, add-zero}
use tempos.Base.{
  mul-mod, ℕ, zero, suc, ◌+◌, ◌-◌, ◌*◌, ◌%◌, ◌^◌, ◌<◌, ◌≡◌, refl, ap, sym, ◌∙◌, false, ◌==◌,
  if◌then◌else◌, arith,
}

-- for (i = 1; i < y; i++) res *= x; with `y - i` rounds left
pub ipow_loop : (rounds x res : ℕ) → ℕ
ipow_loop zero x res = res
ipow_loop (suc rounds) x res = ipow_loop rounds x (res * x % 2 ^ 32)

pub ipow : (x y : ℕ) → ℕ
unfolding ipow_loop
ipow x y = if y == 0 then 1 else ipow_loop (y - 1) x x

ipow_loop-pow :
    (rounds x res n : ℕ) → res ≡ x ^ n % 2 ^ 32 → ipow_loop rounds x res ≡ x ^ (n + rounds) % 2 ^ 32
unfolding ipow_loop
ipow_loop-pow zero x res n e = rw (add-zero n) e
ipow_loop-pow (suc rounds) x res n e =
    let next : res * x % 2 ^ 32 ≡ x ^ suc n % 2 ^ 32 =
      rw e (mul-mod (x ^ n) x (2 ^ 32) ∙ ap (λ (t : ℕ). t % 2 ^ 32) (sym (pow-suc x n))) in
    let exponent : suc n + rounds ≡ n + suc rounds = omega arith in
    rw exponent at (ipow_loop-pow rounds x (res * x % 2 ^ 32) (suc n) next)

-- `_ipow` is the power, modulo the range of 32 bits.
pub ipow-pow : (x y : ℕ) → x < 2 ^ 32 → ipow x y ≡ x ^ y % 2 ^ 32
unfolding ipow
ipow-pow x zero small = rw (pow-zero x) refl
ipow-pow x (suc y) small =
    let one : x ^ 1 ≡ x = pow-suc x 0 ∙ rw (pow-zero x) (one-mul x) in
    let start : x ≡ x ^ 1 % 2 ^ 32 = rw one (omega arith) in
    let exponent : 1 + y ≡ suc y = omega arith in
    let rounds : suc y - 1 ≡ y = omega arith in
    let positive : (suc y == 0) ≡ false = ground arith in
    rw (positive, rounds) (rw exponent at (ipow_loop-pow y x x 1 start))

pub ipow-zero : (x : ℕ) → ipow x 0 ≡ 1
unfolding ipow
ipow-zero x = refl
