-- ===== src/Numbers/Digits.antt =====
-- The loop of numtostr that writes digits.
use native.Mathlib.Nat.{mod-add-div, div-lt_self, div-le_self, mod-lt, mul-zero}
use tempos.Base.{
  ℕ, zero, suc, ◌+◌, ◌-◌, ◌*◌, ◌/◌, ◌%◌, ◌<◌, ◌≤◌, ◌≡◌, refl, ◌∙◌, ◌≢◌, ◌⊎◌, Bool-cases, inl, inr,
  ◌==◌, ==_self, arith, update, Returns, returns, Returns-mono,
}
use tempos.Strings.{Bytes}
use tempos.Numbers.{digit, digits_loop}

-- the number that `n` digits stand for, the lowest one at `lo`
abbrev pub low_first : (base : ℕ) → Bytes → (lo n : ℕ) → ℕ
low_first base m lo zero = 0
low_first base m lo (suc n) = (m lo - b'0') + base * low_first base m (lo + 1) n

-- the bytes from `lo` up to `hi` are digits of the base
abbrev pub AreDigits : (base : ℕ) → Bytes → (lo hi : ℕ) → Type 0
AreDigits base m lo hi = (a : ℕ) → lo ≤ a → a < hi → (b'0' ≤ m a) × (m a < b'0' + base)

-- What the loop leaves behind: `n + 1` digits of `v`, and nothing else new.
abbrev pub Written : (base v : ℕ) → Bytes → (pos : ℕ) → ℕ × Bytes → Type 0
Written base v m pos (end, m') =
    (n : ℕ) × (end ≡ pos + suc n)
    × (n ≤ v)
    × (low_first base m' pos (suc n) ≡ v)
    × AreDigits base m' pos (pos + suc n)
    × ((a : ℕ) → (a < pos) ⊎ (pos + suc n ≤ a) → m' a ≡ m a)

digit-decimal : (base r : ℕ) → base ≤ 10 → r < base → digit base r ≡ r + b'0'
unfolding digit
digit-decimal base r small below = ground arith

-- `numtostr` writes the digits of a number in a base up to 10 with the lowest digit first.
pub digits_loop-Written :
    (k base v : ℕ) (m : Bytes) (pos : ℕ)
    → 1 < base
    → base ≤ 10
    → v < k
    → Returns (Written base v m pos) (digits_loop k base v m pos)
unfolding digits_loop
digits_loop-Written zero base v m pos big small fuel = absurd (omega arith)
digits_loop-Written (suc k) base v m pos big small fuel =
    let r = v % base in
    let below : r < base = mod-lt v (omega arith) in
    let m1 = update m pos (digit base r) in
    let d = digit-decimal base r small below in
    let whole = mod-add-div v base in
    elim (Bool-cases (v / base == 0)) [
      | inl done ↦
          let e : v / base ≡ 0 = ground arith in
          let product : base * (v / base) ≡ 0 = rw e (mul-zero base) in
          rw done (
            returns (
              0,
              refl,
              omega arith,
              rw (==_self pos, d, mul-zero base) (omega (arith, whole, product)),
              λ a low high.
                  let here : a ≡ pos = omega arith in rw here (rw (==_self pos, d) (omega arith)),
              λ a out. ground (arith, out),
            ))
      | inr more ↦
          let e : v / base ≢ 0 = ground arith in
          let less : v / base < v = div-lt_self (omega (arith, div-le_self v base)) big in
          rw more (
            Returns-mono
              (digits_loop-Written k base (v / base) m1 (pos + 1) big small (omega arith))
              λ (end, m') (n, at, few, value, digits, same).
                let low : m' pos ≡ r + b'0' = same pos (inl (omega arith)) ∙ rw (==_self pos) d in
                (
                  suc n,
                  omega arith,
                  omega arith,
                  rw (low, value) (omega (arith, whole)),
                  λ a from to. elim (Bool-cases (a == pos)) [
                    | inl eq ↦ let here : a ≡ pos = ground arith in rw (here, low) (omega arith)
                    | inr ne ↦ digits a (ground arith) (omega arith)
                  ],
                  λ a out. ground (arith, same a, out),
                ))
    ]
