-- ===== src/Numbers/Sign.antt =====
-- numtostr of negative numbers.
use tempos.Base.{ℕ, ◌-◌, ◌^◌, ◌<◌, ◌≡◌, refl, true, false, ◌||◌, arith}
use tempos.Strings.{Bytes}
use tempos.Numbers.{numtostr, Flags, dividend, sign_of}

dividend-negative : (v : ℕ) → 0 < v → v < 2 ^ 31 → dividend (2 ^ 32 - v) true ≡ dividend v true
unfolding dividend
dividend-negative v pos small = ground arith

-- Without the flags ` ` and `+`, `numtostr` writes the same for a negative number as for its absolute value, in every base and with every
-- precision: the sign is lost.
pub numtostr-negative :
    (k : ℕ) (m : Bytes) (dest : ℕ) (flags : Flags) (v base prec : ℕ)
    → (flags.space || flags.plus) ≡ false
    → 0 < v
    → v < 2 ^ 31
    → numtostr k m dest flags (2 ^ 32 - v) base prec true ≡ numtostr k m dest flags v base prec true
unfolding numtostr sign_of
numtostr-negative k m dest flags v base prec unsigned pos small =
    rw (dividend-negative v pos small, unsigned) refl
