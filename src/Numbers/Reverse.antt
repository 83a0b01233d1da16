-- ===== src/Numbers/Reverse.antt =====
-- The loop of numtostr that reverses the digits.
use native.Mathlib.Nat.{add-zero}
use tempos.Base.{
  ℕ, zero, suc, ◌+◌, ◌-◌, ◌/◌, ◌≤◌, ◌≡◌, refl, ◌∙◌, Bool-cases, inl, inr, true, false, ◌&&◌, ◌||◌,
  ◌==◌, ==_self, ltb, leb, if◌then◌else◌, arith, update,
}
use tempos.Strings.{Bytes}
use tempos.Numbers.{reverse_loop}

-- the bytes at `ndest` once `i` of them and their counterparts are swapped, `pos` being the last one
abbrev swapped : Bytes → (ndest pos i a : ℕ) → ℕ
swapped m ndest pos i a =
    if leb ndest a && leb a (ndest + pos) && (ltb a (ndest + i) || ltb (ndest + pos) (a + i))
    then m (ndest + (ndest + pos - a))
    else m a

swapped-inside :
    (m : Bytes) (ndest pos i a : ℕ)
    → ndest + i ≤ a
    → a + i ≤ ndest + pos
    → swapped m ndest pos i a ≡ m a
swapped-inside m ndest pos i a from to = ground arith

-- one round
swap_step :
    (ndest pos i : ℕ) (m m0 : Bytes)
    → ((a : ℕ) → m a ≡ swapped m0 ndest pos i a)
    → i ≤ pos / 2
    → (a : ℕ)
    → update (update m (ndest + i) (m (ndest + (pos - i)))) (ndest + (pos - i)) (m (ndest + i)) a
      ≡ swapped m0 ndest pos (i + 1) a
swap_step ndest pos i m m0 now room a =
    let lo = ndest + i in
    let hi = ndest + (pos - i) in
    let at_lo : m lo ≡ m0 lo =
      now lo ∙ swapped-inside m0 ndest pos i lo (omega arith) (omega arith) in
    let at_hi : m hi ≡ m0 hi =
      now hi ∙ swapped-inside m0 ndest pos i hi (omega arith) (omega arith) in
    elim (Bool-cases (a == hi)) [
      | inl e ↦
          let here : a ≡ hi = ground arith in
          let other : ndest + (ndest + pos - hi) ≡ lo = omega arith in
          let done : (leb ndest hi
                && leb hi (ndest + pos)
                && (ltb hi (ndest + (i + 1)) || ltb (ndest + pos) (hi + (i + 1))))
              ≡ true =
            ground arith in
          rw here (rw (==_self hi) (rw done (rw (other, at_lo) refl)))
      | inr ne ↦ elim (Bool-cases (a == lo)) [
        | inl e ↦
            let here : a ≡ lo = ground arith in
            let other : ndest + (ndest + pos - lo) ≡ hi = omega arith in
            let apart : (lo == hi) ≡ false = rw here at ne in
            let done : (leb ndest lo
                  && leb lo (ndest + pos)
                  && (ltb lo (ndest + (i + 1)) || ltb (ndest + pos) (lo + (i + 1))))
                ≡ true =
              ground arith in
            rw here (rw (apart, ==_self lo) (rw done (rw (other, at_hi) refl)))
        | inr ne' ↦ ground (arith, now a)
      ]
    ]

reverse_loop-swapped :
    (rounds ndest pos i : ℕ) (m m0 : Bytes)
    → ((a : ℕ) → m a ≡ swapped m0 ndest pos i a)
    → i + rounds ≤ pos / 2 + 1
    → (a : ℕ) → reverse_loop rounds ndest pos i m a ≡ swapped m0 ndest pos (i + rounds) a
unfolding reverse_loop
reverse_loop-swapped zero ndest pos i m m0 now room a = rw (add-zero i) (now a)
reverse_loop-swapped (suc rounds) ndest pos i m m0 now room a =
    let m1 =
      update (update m (ndest + i) (m (ndest + (pos - i)))) (ndest + (pos - i)) (m (ndest + i)) in
    let e : i + 1 + rounds ≡ i + suc rounds = omega arith in
    rw e at (
      reverse_loop-swapped rounds ndest pos (i + 1) m1 m0
        (swap_step ndest pos i m m0 now (omega arith)) (omega arith) a)

-- `numtostr` turns the digits round: afterwards the first one stands last, and nothing else changes.
pub reverse_loop-reverse :
    (ndest pos : ℕ) (m : Bytes) (a : ℕ)
    → reverse_loop (pos / 2 + 1) ndest pos 0 m a
      ≡ (if leb ndest a && leb a (ndest + pos) then m (ndest + (ndest + pos - a)) else m a)
reverse_loop-reverse ndest pos m a =
    reverse_loop-swapped (pos / 2 + 1) ndest pos 0 m m (λ b. ground arith) (omega arith) a
    ∙ ground arith
