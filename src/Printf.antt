-- ===== src/Printf.antt =====
-- vsprintf of kernel/lib/printf.c. The format, the result and the texts of `%s` stand in one memory of bytes; the
-- arguments are words. A loop has `k` rounds.
pub mod Plain
pub mod Decimal
mod Tests
use tempos.Base.{
  ℕ, zero, suc, ◌+◌, ◌-◌, ◌%◌, ◌^◌, Bool, true, false, ◌&&◌, ◌||◌, ◌==◌, ltb, leb, if◌then◌else◌,
  update, List, [], ◌∷◌, Res, ok, fault, out_of_fuel, ◌>>=◌,
}
use tempos.Strings.{Bytes}
use tempos.Numbers.{Flags, no_flags, numtostr, atoi}

-- MAXDIG
abbrev maxdig : ℕ
maxdig = 20

-- one flag: SET_BIT
pub set_flag : Flags → (c : ℕ) → Flags
set_flag f c =
    if c == b'#'
    then record f { alt = true }
    else if c == b'0'
    then record f { zpad = true }
    else if c == b'-'
    then record f { fb = true }
    else if c == b' '
    then record f { space = true }
    else record f { plus = true }

abbrev pub is_flag : ℕ → Bool
is_flag c = c == b'#' || c == b'0' || c == b'-' || c == b' ' || c == b'+'

-- rflags
pub read_flags : ℕ → Bytes → (fmt : ℕ) → Flags → Res (ℕ × Flags)
read_flags zero m fmt flags = out_of_fuel
read_flags (suc k) m fmt flags =
    let rest = read_flags k m (fmt + 1) (set_flag flags (m fmt)) in
    if is_flag (m fmt) then rest else ok (fmt, flags)

-- num[i] = c, in the array of MAXDIG bytes
pub put_num : Bytes → (i c : ℕ) → Res Bytes
put_num num i c = if ltb i maxdig then ok (update num i c) else fault

-- while(*fmt && (*fmt >= '0' && *fmt <= '9')) num[p++] = *fmt++; num[p] = '\0';
pub read_num : ℕ → Bytes → (fmt : ℕ) → Bytes → (p : ℕ) → Res (ℕ × Bytes × ℕ)
read_num zero m fmt num p = out_of_fuel
read_num (suc k) m fmt num p =
    if leb b'0' (m fmt) && leb (m fmt) b'9'
    then (do num ← put_num num p (m fmt); read_num k m (fmt + 1) num (p + 1))
    else (do num ← put_num num p 0; ok (fmt, num, p))

-- "Field width" and "Precision": both end up in the one array
pub read_width : ℕ → Bytes → (fmt : ℕ) → Bytes → Res (ℕ × Bytes)
read_width k m fmt num = do
  (fmt, num, p) ← read_num k m fmt num 0
  if m fmt == b'.'
      then (do (fmt, num, _) ← read_num k m (fmt + 1) num p; ok (fmt, num))
      else ok (fmt, num)

-- while(*src) *nstr++ = *src++;
pub copy_text : ℕ → Bytes → (nstr src : ℕ) → Res (ℕ × Bytes)
copy_text zero m nstr src = out_of_fuel
copy_text (suc k) m nstr src =
    let rest = copy_text k (update m nstr (m src)) (nstr + 1) (src + 1) in
    if m src == 0 then ok (nstr, m) else rest

-- where a conversion ends: the format, the end of the result, the memory, and the arguments that are left
pub record Progress : Type 0 where
  pub fmt : ℕ
  pub nstr : ℕ
  pub memory : Bytes
  pub args : List ℕ

abbrev pub progress : ℕ → List ℕ → ℕ × Bytes → Progress
progress fmt args (nstr, m) = record { fmt = fmt; nstr = nstr; memory = m; args = args }

-- the radix and the kind of a conversion of numbers: 0 for another conversion
abbrev pub radix : ℕ → ℕ
radix c =
    if c == b'i' || c == b'd'
    then 10
    else if c == b'u'
    then 10
    else if c == b'o'
    then 8
    else if c == b'x'
    then 16
    else 0

-- "Modifier", with the next argument
pub convert_arg : ℕ → Bytes → (fmt nstr : ℕ) → Flags → Bytes → (arg : ℕ) → List ℕ → Res Progress
convert_arg k m fmt nstr flags num arg args =
    let c = m fmt in
    if c == b'c'
    then ok (progress (fmt + 1) args (nstr + 1, update m nstr (arg % 2 ^ 8)))
    else if c == b's'
    then (do out ← copy_text k m nstr arg; ok (progress (fmt + 1) args out))
    else (do
      prec ← atoi k num 0
      out ← numtostr k m nstr flags arg (radix c) prec (if c == b'u' then false else true)
      ok (progress (fmt + 1) args out))

abbrev pub is_modifier : ℕ → Bool
is_modifier c = c == b'c' || c == b's' || ltb 0 (radix c)

pub convert : ℕ → Bytes → (fmt nstr : ℕ) → Flags → Bytes → List ℕ → Res Progress
convert k m fmt nstr flags num [] =
    if is_modifier (m fmt) then fault else ok (progress fmt [] (nstr, m))
convert k m fmt nstr flags num (arg ∷ args) =
    if is_modifier (m fmt)
    then convert_arg k m fmt nstr flags num arg args
    else ok (progress fmt (arg ∷ args) (nstr, m))

-- the conversion at a `%`; the flags are not reset
pub conversion : ℕ → Flags → Bytes → Progress → Res (Flags × Bytes × Progress)
conversion k flags num s = do
  (fmt, flags) ← read_flags k s.memory (s.fmt + 1) flags
  (fmt, num) ← read_width k s.memory fmt num
  let fmt = if s.memory fmt == b'l' then fmt + 1 else fmt
  s ← convert k s.memory fmt s.nstr flags num s.args
  ok (flags, num, s)

-- while(*fmt)
pub format_loop : ℕ → Flags → Bytes → Progress → Res Progress
format_loop zero flags num s = out_of_fuel
format_loop (suc k) flags num s =
    let c = s.memory s.fmt in
    let plain =
      format_loop k flags num
        (record s { fmt = s.fmt + 1; nstr = s.nstr + 1; memory = update s.memory s.nstr c }) in
    if c == 0
    then ok s
    else if c == b'%'
    then (do (flags, num, s) ← conversion (suc k) flags num s; format_loop k flags num s)
    else plain

-- the result and the memory; `num` is the array, which is not initialised
pub vsprintf : ℕ → Bytes → (num : Bytes) → (str format : ℕ) → List ℕ → Res (ℕ × Bytes)
vsprintf k m num str format args = do
  s ← format_loop k no_flags num (record { fmt = format; nstr = str; memory = m; args = args })
  ok (s.nstr - str, update s.memory s.nstr 0)
