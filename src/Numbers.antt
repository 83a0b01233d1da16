-- ===== src/Numbers.antt =====
-- Numbers as text: atoi of kernel/lib/stdlib.c and numtostr of kernel/lib/printf.c, over the memory of bytes of
-- Strings. An `int` is its bit pattern of 32 bits. A loop has `k` rounds where its end is not counted.
pub mod Digits
pub mod Reverse
pub mod Atoi
pub mod RoundTrip
pub mod Sign
pub mod Extent
mod Tests
use tempos.Base.{
  ℕ, zero, suc, ◌+◌, ◌-◌, ◌*◌, ◌/◌, ◌%◌, ◌^◌, Bool, true, false, ◌&&◌, ◌||◌, not, ◌==◌, ltb, leb,
  if◌then◌else◌, update, Res, ok, fault, out_of_fuel, ◌>>=◌,
}
use tempos.Strings.{Bytes}
use tempos.Chars.{isdigit}

-- while(*nstr++) { if(*nstr && !isdigit(*nstr)) return(0); } with the end of the text, or `false` for return(0)
pub check_loop : ℕ → Bytes → (nstr : ℕ) → Res (Bool × ℕ)
check_loop zero m nstr = out_of_fuel
check_loop (suc k) m nstr =
    let next = nstr + 1 in
    let rest = check_loop k m next in
    if m nstr == 0
    then ok (true, nstr)
    else if not (m next == 0) && not (isdigit (m next))
    then ok (false, next)
    else rest

-- while(nstr-- != start) { sum += (*nstr - '0') * mult; mult *= 10; } with `n` bytes from the start on
pub sum_loop : (n : ℕ) → Bytes → (start sum mult : ℕ) → ℕ
sum_loop zero m start sum mult = sum
sum_loop (suc n) m start sum mult =
    sum_loop n m start ((sum + (m (start + n) + 2 ^ 32 - b'0') % 2 ^ 32 * mult) % 2 ^ 32)
      (mult * 10 % 2 ^ 32)

pub atoi : ℕ → Bytes → (nptr : ℕ) → Res ℕ
atoi k m nptr = do
  let isneg = if m nptr == b'-' then 1 else 0
  (valid, end) ← check_loop k m (nptr + isneg)
  let sum = sum_loop (end - (nptr + isneg)) m (nptr + isneg) 0 1
  ok (if valid then (if isneg == 1 then (2 ^ 32 - sum) % 2 ^ 32 else sum) else 0)

-- the flags of a conversion: FLAG_ALT, FLAG_ZPAD, FLAG_FB, FLAG_SPACE and FLAG_PLUS
pub record Flags : Type 0 where
  pub alt : Bool
  pub zpad : Bool
  pub fb : Bool
  pub space : Bool
  pub plus : Bool

abbrev pub no_flags : Flags
no_flags = record { alt = false; zpad = false; fb = false; space = false; plus = false }

pub digit : (base rem : ℕ) → ℕ
digit base rem = if base == 16 && leb 10 rem then rem - 10 + b'A' else rem + b'0'

-- the loop that writes the digits of `div` from the lowest on; `pos` is the address of the next one
pub digits_loop : ℕ → (base div : ℕ) → Bytes → (pos : ℕ) → Res (ℕ × Bytes)
digits_loop zero base div m pos = out_of_fuel
digits_loop (suc k) base div m pos =
    let m1 = update m pos (digit base (div % base)) in
    let rest = digits_loop k base (div / base) m1 (pos + 1) in
    if div / base == 0 then ok (pos + 1, m1) else rest

-- for(i=0; i<=(pos / 2); i++), with the rounds that are left
pub reverse_loop : (rounds : ℕ) → (ndest pos i : ℕ) → Bytes → Bytes
reverse_loop zero ndest pos i m = m
reverse_loop (suc rounds) ndest pos i m =
    let temp = m (ndest + i) in
    let m1 = update m (ndest + i) (m (ndest + (pos - i))) in
    reverse_loop rounds ndest pos (i + 1) (update m1 (ndest + (pos - i)) temp)

abbrev pub is_negative : ℕ → Bool
is_negative value = leb (2 ^ 31) value

-- `sh` and `sch` of "Signal"
pub sign_of : Flags → (value : ℕ) → (sig : Bool) → ℕ × ℕ
sign_of flags value sig =
    if flags.space || flags.plus
    then if is_negative value
      then (1, if sig then b'-' else 0)
      else (1, if flags.plus then b'+' else b' ')
    else (0, 0)

-- for(i=pos; i>=0; i--) ndest[i + sh] = ndest[i];
pub shift_loop : (i : ℕ) → (ndest sh : ℕ) → Bytes → Bytes
shift_loop zero ndest sh m = update m (ndest + sh) (m ndest)
shift_loop (suc i) ndest sh m =
    shift_loop i ndest sh (update m (ndest + suc i + sh) (m (ndest + suc i)))

-- for(i=0; i<sh; i++) ndest[i] = fch;
pub pad_loop : (n i : ℕ) → (ndest fch : ℕ) → Bytes → Bytes
pad_loop zero i ndest fch m = m
pad_loop (suc n) i ndest fch m = pad_loop n (i + 1) ndest fch (update m (ndest + i) fch)

-- if(sh > 0) { ... }
pub shift : Flags → (ndest pos sh sch fch : ℕ) → Bytes → Bytes
shift flags ndest pos sh sch fch m =
    if sh == 0
    then m
    else let m1 = pad_loop sh 0 ndest fch (shift_loop pos ndest sh m) in
      if sch == 0 then m1 else update m1 (if flags.zpad then ndest else ndest + sh - 1) sch

-- how far the digits move: for the sign, and up to the precision
pub shift_width : (prec pos sh : ℕ) → ℕ
shift_width prec pos sh =
    if ltb 0 prec && not (is_negative prec)
    then (if ltb pos prec then sh + (prec - pos) else sh)
    else sh

abbrev pub pad_char : Flags → (prec : ℕ) → ℕ
pad_char flags prec =
    if ltb 0 prec && not (is_negative prec) then (if flags.zpad then b'0' else b' ') else b' '

-- the absolute value; the negation of the lowest number is undefined
unfoldable pub dividend : (value : ℕ) → (sig : Bool) → Res ℕ
dividend value sig =
    if sig && is_negative value
    then if value == 2 ^ 31 then fault else ok (2 ^ 32 - value)
    else ok value

-- the new `*dest` and the memory
pub numtostr :
    ℕ → Bytes → (dest : ℕ) → Flags → (value base prec : ℕ) → (sig : Bool) → Res (ℕ × Bytes)
numtostr k m dest flags value base prec sig = do
  div ← dividend value sig
  (end, m) ← digits_loop k base div m dest
  let pos = end - dest
  let m = reverse_loop ((pos - 1) / 2 + 1) dest (pos - 1) 0 m
  let (sh, sch) = sign_of flags value sig
  let width = shift_width prec pos sh
  ok (dest + (pos + width), shift flags dest pos width sch (pad_char flags prec) m)
