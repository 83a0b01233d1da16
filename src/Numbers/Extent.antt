-- ===== src/Numbers/Extent.antt =====
-- Where numtostr writes.
use native.Mathlib.Nat.{div-lt_self, div-le_self}
use tempos.Base.{
  ℕ, zero, suc, ◌+◌, ◌-◌, ◌/◌, ◌%◌, ◌<◌, ◌≤◌, ◌≡◌, refl, ◌∙◌, ◌≢◌, ◌⊎◌, Bool, Bool-cases, inl, inr,
  ◌==◌, arith, update, ok, Returns, returns, Returns-bind, Returns-mono,
}
use tempos.Strings.{Bytes}
use tempos.Numbers.{
  numtostr, Flags, dividend, digit, digits_loop, reverse_loop, sign_of, shift_width, shift,
  shift_loop, pad_loop, pad_char,
}
use tempos.Numbers.Reverse.{reverse_loop-reverse}

-- `m'` is `m` but for the addresses from `lo` to `hi`.
abbrev pub SameBut : (lo hi : ℕ) → Bytes → Bytes → Type 0
SameBut lo hi m m' = (a : ℕ) → (a < lo) ⊎ (hi < a) → m' a ≡ m a

digits_loop-SameBut :
    (k base v : ℕ) (m : Bytes) (pos : ℕ)
    → 1 < base
    → v < k
    → Returns
        (λ (end, m'). (pos < end) × (end ≤ pos + suc v) × SameBut pos (end - 1) m m')
        (digits_loop k base v m pos)
unfolding digits_loop
digits_loop-SameBut zero base v m pos big fuel = absurd (omega arith)
digits_loop-SameBut (suc k) base v m pos big fuel =
    let m1 = update m pos (digit base (v % base)) in
    elim (Bool-cases (v / base == 0)) [
      | inl done ↦ rw done (returns (omega arith, omega arith, λ a out. ground (arith, out)))
      | inr more ↦
          let e : v / base ≢ 0 = ground arith in
          let less : v / base < v = div-lt_self (omega (arith, div-le_self v base)) big in
          rw more (
            Returns-mono (digits_loop-SameBut k base (v / base) m1 (pos + 1) big (omega arith))
              λ (end, m') (some, few, same).
                (omega arith, omega arith, λ a out. ground (arith, same a, out)))
    ]

shift_loop-SameBut :
    (i ndest sh : ℕ) (m : Bytes) → SameBut ndest (ndest + i + sh) m (shift_loop i ndest sh m)
unfolding shift_loop
shift_loop-SameBut zero ndest sh m a out = ground (arith, out)
shift_loop-SameBut (suc i) ndest sh m a out =
    let m1 = update m (ndest + suc i + sh) (m (ndest + suc i)) in
    ground (arith, shift_loop-SameBut i ndest sh m1 a, out)

pad_loop-SameBut :
    (n i ndest fch : ℕ) (m : Bytes) → SameBut ndest (ndest + i + n) m (pad_loop n i ndest fch m)
unfolding pad_loop
pad_loop-SameBut zero i ndest fch m a out = refl
pad_loop-SameBut (suc n) i ndest fch m a out =
    let m1 = update m (ndest + i) fch in
    ground (arith, pad_loop-SameBut n (i + 1) ndest fch m1 a, out)

shift-SameBut :
    (flags : Flags) (ndest pos sh sch fch : ℕ) (m : Bytes)
    → SameBut ndest (ndest + pos + sh) m (shift flags ndest pos sh sch fch m)
unfolding shift
shift-SameBut flags ndest pos sh sch fch m a out =
    let m1 = shift_loop pos ndest sh m in
    ground (arith, out, shift_loop-SameBut pos ndest sh m a, pad_loop-SameBut sh 0 ndest fch m1 a)

later :
    (dest end a : ℕ)
    → (a < dest) ⊎ (dest + (end - dest - 1) < a)
    → dest < end
    → (a < dest) ⊎ (end - 1 < a)
later dest end a (inl below) some = inl below
later dest end a (inr above) some = inr (omega arith)

-- the reversed digits, shifted
turned-SameBut :
    (dest n : ℕ) (m m1 : Bytes) (flags : Flags) (prec : ℕ) (sign : ℕ × ℕ)
    → SameBut dest (dest + n) m m1
    → let width = shift_width prec (suc n) sign.0 in
      SameBut dest (dest + (suc n + width)) m (
        shift flags dest
          (suc n)
          width
          sign.1
          (pad_char flags prec)
          (reverse_loop (n / 2 + 1) dest n 0 m1))
turned-SameBut dest n m m1 flags prec sign same a out =
    let width = shift_width prec (suc n) sign.0 in
    let m2 = reverse_loop (n / 2 + 1) dest n 0 m1 in
    shift-SameBut flags dest (suc n) width sign.1 (pad_char flags prec) m2 a (ground (arith, out))
    ∙ reverse_loop-reverse dest n m1 a
    ∙ ground (arith, same a, out)

-- For every base from 2 on, all flags and every precision, `numtostr` of a number with an absolute value `w` returns; it writes
-- nowhere below `*dest` nor above the new `*dest`, which has moved by the number of digits, at least
-- one and at most `w + 1`, and the shift for sign and precision.
pub numtostr-SameBut :
    (k : ℕ) (m : Bytes) (dest : ℕ) (flags : Flags) (v base prec : ℕ) (sig : Bool) (w : ℕ)
    → 1 < base
    → dividend v sig ≡ ok w
    → w < k
    → Returns
        (λ (end, m').
          (n : ℕ) × (n ≤ w)
          × (end ≡ dest + (suc n + shift_width prec (suc n) (sign_of flags v sig).0))
          × SameBut dest end m m')
        (numtostr k m dest flags v base prec sig)
unfolding numtostr
numtostr-SameBut k m dest flags v base prec sig w big absolute fuel = rw absolute (
    Returns-bind (digits_loop-SameBut k base w m dest big fuel) λ (end, m1) (some, few, same).
      let n = end - dest - 1 in
      let pos : end - dest ≡ suc n = omega arith in
      let last : suc n - 1 ≡ n = omega arith in
      let outside : SameBut dest (dest + n) m m1 = λ a out. same a (later dest end a out some) in
      rw pos (
        rw last (
          returns (
            n,
            omega arith,
            refl,
            turned-SameBut dest n m m1 flags prec (sign_of flags v sig) outside,
          ))))
