-- ===== src/Numbers/RoundTrip.antt =====
-- numtostr, and atoi of what it wrote.
use tempos.Base.{
  ℕ, zero, suc, ◌+◌, ◌-◌, ◌/◌, ◌^◌, ◌<◌, ◌≤◌, ◌≡◌, refl, ap, ◌∙◌, ◌⊎◌, Bool, true, false, ◌&&◌,
  ==_self, leb, arith, update, ok, ◌>>=◌, Returns, returns, Returns-bind, Returns-then,
}
use tempos.Strings.{Bytes}
use tempos.Numbers.{
  numtostr, atoi, no_flags, is_negative, dividend, reverse_loop, sign_of, shift_width, shift,
}
use tempos.Numbers.Digits.{low_first, AreDigits, digits_loop-Written}
use tempos.Numbers.Reverse.{reverse_loop-reverse}
use tempos.Numbers.Atoi.{high_first, atoi-high_first}

-- digits in the other order stand for the same number
high_first-low_first :
    (n : ℕ) (m m' : Bytes) (s lo : ℕ)
    → ((j : ℕ) → j < n → m' (s + j) ≡ m (lo + (n - 1 - j)))
    → high_first m' s n ≡ low_first 10 m lo n
high_first-low_first zero m m' s lo turned = refl
high_first-low_first (suc n) m m' s lo turned =
    let top : m' (s + n) ≡ m lo = turned n (omega arith) ∙ ap m (omega arith) in
    let rest =
      high_first-low_first n m m' s (lo + 1)
        (λ j below. turned j (omega arith) ∙ ap m (omega arith)) in
    rw (top, rest) refl

high_first-same :
    (n : ℕ) (m m' : Bytes) (s : ℕ)
    → ((a : ℕ) → a < s + n → m' a ≡ m a)
    → high_first m' s n ≡ high_first m s n
high_first-same zero m m' s same = refl
high_first-same (suc n) m m' s same =
    rw (same (s + n) (omega arith), high_first-same n m m' s (λ a below. same a (omega arith))) refl

-- What `numtostr` leaves behind without flags and precision: the decimal digits of `v` from `dest` on, the highest one
-- first.
abbrev pub Text : (v : ℕ) → Bytes → (dest : ℕ) → ℕ × Bytes → Type 0
Text v m dest (end, m') =
    (n : ℕ) × (end ≡ dest + suc n)
    × (n ≤ v)
    × AreDigits 10 m' dest end
    × (high_first m' dest (suc n) ≡ v)
    × ((a : ℕ) → (a < dest) ⊎ (end ≤ a) → m' a ≡ m a)

turned-Text :
    (m m1 : Bytes) (dest v n : ℕ)
    → n ≤ v
    → low_first 10 m1 dest (suc n) ≡ v
    → AreDigits 10 m1 dest (dest + suc n)
    → ((a : ℕ) → (a < dest) ⊎ (dest + suc n ≤ a) → m1 a ≡ m a)
    → Text v m dest (dest + (suc n + 0), reverse_loop (n / 2 + 1) dest n 0 m1)
turned-Text m m1 dest v n few value digits same =
    let m2 = reverse_loop (n / 2 + 1) dest n 0 m1 in
    let inside : (a : ℕ) → dest ≤ a → a < dest + suc n → m2 a ≡ m1 (dest + (dest + n - a)) =
      λ a from to.
        let within : (leb dest a && leb a (dest + n)) ≡ true = ground arith in
        reverse_loop-reverse dest n m1 a ∙ rw within refl in
    (
      n,
      omega arith,
      few,
      λ a from to.
          rw (inside a from (omega arith))
            (digits (dest + (dest + n - a)) (omega arith) (omega arith)),
      high_first-low_first (suc n) m1 m2 dest dest
            (λ j below. inside (dest + j) (omega arith) (omega arith) ∙ ap m1 (omega arith))
          ∙ value,
      λ a out. reverse_loop-reverse dest n m1 a ∙ ground (arith, same a, out),
    )

-- Without flags and precision `numtostr` writes the decimal digits of a number that is not negative, the highest one
-- first, and nothing else; it leaves `*dest` behind the last one.
pub numtostr-Text :
    (k : ℕ) (m : Bytes) (dest v : ℕ) (sig : Bool)
    → v < k
    → (sig && is_negative v) ≡ false
    → Returns (Text v m dest) (numtostr k m dest no_flags v 10 0 sig)
unfolding numtostr dividend sign_of shift_width shift
numtostr-Text k m dest v sig fuel positive = rw positive (
    Returns-bind (digits_loop-Written k 10 v m dest (omega arith) (omega arith) fuel)
      λ (end, m1) (n, at, few, value, digits, same).
        let pos : end - dest ≡ suc n = omega arith in
        let last : suc n - 1 ≡ n = omega arith in
        rw pos (rw last (returns (turned-Text m m1 dest v n few value digits same))))

-- `atoi` of such a text, with a NUL behind it
pub atoi-Text :
    (k : ℕ) (m : Bytes) (dest v : ℕ) (out : ℕ × Bytes)
    → Text v m dest out
    → v < 2 ^ 32
    → suc v < k
    → atoi k (update out.1 out.0 0) dest ≡ ok v
atoi-Text k m dest v (end, m1) (n, at, few, digits, value, same) small fuel =
    let m2 = update m1 end 0 in
    let kept : (a : ℕ) → a < dest + suc n → m2 a ≡ m1 a = λ a below. ground arith in
    let text =
      atoi-high_first k n m2 dest (λ a from to. rw (kept a to) (digits a from (omega arith)))
        (rw (← at) (rw (==_self end) refl)) (omega arith) in
    let number : high_first m2 dest (suc n) ≡ v =
      high_first-same (suc n) m1 m2 dest (λ a below. kept a below) ∙ value in
    text ∙ rw number (ap ok (omega arith))

-- `atoi` of the text that `numtostr` wrote for a number, with a NUL behind it, is the number, if that fits into an `int`
-- or is taken as unsigned.
pub atoi-numtostr :
    (k : ℕ) (m : Bytes) (dest v : ℕ) (sig : Bool)
    → v < 2 ^ 32
    → suc v < k
    → (sig && is_negative v) ≡ false
    → (do (end, m1) ← numtostr k m dest no_flags v 10 0 sig; atoi k (update m1 end 0) dest) ≡ ok v
atoi-numtostr k m dest v sig small fuel positive =
    Returns-then (ok v) (numtostr-Text k m dest v sig (omega arith) positive)
      λ out text. atoi-Text k m dest v out text small fuel
