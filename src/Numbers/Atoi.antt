-- ===== src/Numbers/Atoi.antt =====
-- atoi on a text of digits.
use native.Mathlib.Nat.{add-mul, mul_assoc, mul_comm, zero-mul, add-zero, mul-one}
use tempos.Base.{
  ℕ, zero, suc, ◌+◌, ◌-◌, ◌*◌, ◌%◌, ◌^◌, ◌<◌, ◌≡◌, refl, ap, ◌∙◌, Bool-cases, inl, inr, true, false,
  ◌&&◌, not, ◌==◌, ==_of_ne, arith, ok, add-mul-mod,
}
use tempos.Strings.{Bytes}
use tempos.Chars.{isdigit}
use tempos.Numbers.{check_loop, sum_loop, atoi}
use tempos.Numbers.Digits.{AreDigits}

-- the number that `n` decimal digits from `start` on stand for, the highest one first
abbrev pub high_first : Bytes → (start n : ℕ) → ℕ
high_first m start zero = 0
high_first m start (suc n) = (m (start + n) - b'0') + 10 * high_first m start n

sum_loop-high_first :
    (base : ℕ)
    → base < 2 ^ 32
    → (n : ℕ) (m : Bytes) (start sum mult : ℕ) → AreDigits base m start (start + n)
    → sum < 2 ^ 32
    → sum_loop n m start sum mult ≡ (sum + high_first m start n * mult) % 2 ^ 32
unfolding sum_loop
sum_loop-high_first base fits zero m start sum mult digits small = rw (zero-mul mult) (omega arith)
sum_loop-high_first base fits (suc n) m start sum mult digits small =
    let (ge, lt) = digits (start + n) (omega arith) (omega arith) in
    let d = m (start + n) - b'0' in
    let f = high_first m start n in
    let value : (m (start + n) + 2 ^ 32 - b'0') % 2 ^ 32 ≡ d = omega arith in
    let rest =
      sum_loop-high_first base fits n m start ((sum + d * mult) % 2 ^ 32) (mult * 10 % 2 ^ 32)
        (λ a from to. digits a from (omega arith)) (omega arith) in
    let whole : sum + d * mult + f * (mult * 10) ≡ sum + (d + 10 * f) * mult = omega (
      arith,
      add-mul d (10 * f) mult,
      mul_assoc 10 f mult,
      mul_assoc f mult 10,
      mul_comm (f * mult) 10,
    ) in
    rw value (
      rest ∙ add-mul-mod (sum + d * mult) f (mult * 10) (2 ^ 32) ∙ ap (λ (t : ℕ). t % 2 ^ 32) whole)

-- what follows the first byte of the text
next_fine :
    (n : ℕ) (m : Bytes) (start : ℕ)
    → AreDigits 10 m (start + 1) (start + suc n)
    → m (start + suc n) ≡ 0
    → (not (m (start + 1) == 0) && not (isdigit (m (start + 1)))) ≡ false
unfolding isdigit
next_fine zero m start digits end = ground (arith, end)
next_fine (suc n) m start digits end =
    let (ge, lt) = digits (start + 1) (omega arith) (omega arith) in ground arith

check_loop-digits :
    (k n : ℕ) (m : Bytes) (start : ℕ)
    → AreDigits 10 m start (start + n)
    → m (start + n) ≡ 0
    → n < k
    → check_loop k m start ≡ ok (true, start + n)
unfolding check_loop isdigit
check_loop-digits zero n m start digits end fuel = absurd (omega arith)
check_loop-digits (suc k) zero m start digits end fuel =
    let at : start + 0 ≡ start = add-zero start in
    let stop : m start ≡ 0 = rw at at end in rw (stop, at) refl
check_loop-digits (suc k) (suc n) m start digits end fuel =
    let (ge, lt) = digits start (omega arith) (omega arith) in
    let at : start + suc n ≡ start + 1 + n = omega arith in
    let rest =
      check_loop-digits k n m (start + 1) (λ a from to. digits a (omega arith) (omega arith))
        (rw at at end) (omega arith) in
    let fine : (not (m (start + 1) == 0) && not (isdigit (m (start + 1)))) ≡ false =
      next_fine n m start (λ a from to. digits a (omega arith) to) end in
    rw (==_of_ne (m start) 0 (omega arith)) (rw fine (rw at rest))

-- `atoi` of a text of digits is the number that they stand for in the decimal system, modulo the range of 32 bits.
pub atoi-high_first :
    (k n : ℕ) (m : Bytes) (s : ℕ)
    → AreDigits 10 m s (s + suc n)
    → m (s + suc n) ≡ 0
    → suc n < k
    → atoi k m s ≡ ok (high_first m s (suc n) % 2 ^ 32)
unfolding atoi
atoi-high_first k n m s digits end fuel =
    let (ge, lt) = digits s (omega arith) (omega arith) in
    let check = check_loop-digits k (suc n) m s digits end fuel in
    let sum = sum_loop-high_first 10 (omega arith) (suc n) m s 0 1 digits (omega arith) in
    let at : s + 0 ≡ s = add-zero s in
    let count : s + suc n - s ≡ suc n = omega arith in
    rw (==_of_ne (m s) b'-' (omega arith), at)
      (rw check (
        rw (count, sum)
          (ap (λ (v : ℕ). ok (v % 2 ^ 32)) (omega (arith, mul-one (high_first m s (suc n)))))))

-- The first byte is not looked at: a text that begins with any byte above the digits, such as a letter, and goes on with digits gets
-- a number other than 0 in which the distance of that byte from `0` counts as a digit.
pub atoi-first_byte :
    (k n : ℕ) (m : Bytes) (s : ℕ)
    → b'9' < m s
    → m s < 2 ^ 8
    → AreDigits 10 m (s + 1) (s + suc n)
    → m (s + suc n) ≡ 0
    → suc n < k
    → atoi k m s ≡ ok (high_first m s (suc n) % 2 ^ 32)
unfolding atoi check_loop
atoi-first_byte zero n m s above byte digits end fuel = absurd (omega arith)
atoi-first_byte (suc k) n m s above byte digits end fuel =
    let shifted : s + suc n ≡ s + 1 + n = omega arith in
    let rest =
      check_loop-digits k n m (s + 1) (λ a from to. digits a from (omega arith)) (rw shifted at end)
        (omega arith) in
    let bytes : AreDigits 256 m s (s + suc n) = λ a from to. elim (Bool-cases (a == s)) [
      | inl e ↦ let here : a ≡ s = ground arith in rw here (omega arith)
      | inr ne ↦ let d = digits a (ground arith) to in omega (arith, d)
    ] in
    let sum = sum_loop-high_first 256 (omega arith) (suc n) m s 0 1 bytes (omega arith) in
    let at : s + 0 ≡ s = add-zero s in
    let count : s + 1 + n - s ≡ suc n = omega arith in
    let fine = next_fine n m s digits end in
    rw (==_of_ne (m s) b'-' (omega arith), at)
      (rw (==_of_ne (m s) 0 (omega arith)) (
        rw fine (
          rw rest (
            rw (count, sum)
              (ap (λ (v : ℕ). ok (v % 2 ^ 32))
                (omega (arith, mul-one (high_first m s (suc n)))))))))

-- the empty text
pub atoi-empty : (k : ℕ) (m : Bytes) (s : ℕ) → m s ≡ 0 → atoi (suc k) m s ≡ ok 0
unfolding atoi check_loop sum_loop
atoi-empty k m s end =
    let at : s + 0 ≡ s = add-zero s in
    let none : s - s ≡ 0 = omega arith in rw (end, at) (rw end (rw none refl))
