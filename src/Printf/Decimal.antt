-- ===== src/Printf/Decimal.antt =====
-- vsprintf with the format `%d`, and `%u`.
use tempos.Base.{
  ℕ, suc, ◌+◌, ◌^◌, ◌<◌, ◌≡◌, refl, ◌∙◌, ◌⊎◌, inl, inr, Bool, true, false, ◌&&◌, List, [], ◌∷◌,
  arith, ◌==◌, leb, update, ok, ◌>>=◌, Returns-ok, if◌then◌else◌,
}
use tempos.Strings.{Bytes}
use tempos.Strings.Scan.{IsString}
use tempos.Numbers.{no_flags, numtostr, atoi, is_negative}
use tempos.Numbers.RoundTrip.{numtostr-Text, atoi-Text}
use tempos.Numbers.Atoi.{atoi-empty}
use tempos.Printf.{
  Progress, vsprintf, format_loop, conversion, read_flags, read_width, read_num, put_num, convert,
  convert_arg, is_flag, is_modifier, radix, progress,
}

-- a conversion character that stands for a decimal number
record IsDecimal (c : ℕ) (sig : Bool) : Type 0 where
  no_flag : is_flag c ≡ false
  no_digit : (leb b'0' c && leb c b'9') ≡ false
  no_point : (c == b'.') ≡ false
  no_length : (c == b'l') ≡ false
  modifier : is_modifier c ≡ true
  no_char : (c == b'c') ≡ false
  no_text : (c == b's') ≡ false
  ten : radix c ≡ 10
  signed : (if c == b'u' then false else true) ≡ sig

module _ (k c : ℕ) (sig : Bool) (is : IsDecimal c sig) (num : Bytes) (s : Progress) (v : ℕ)
    (args : List ℕ) where
  conversion-decimal :
      (out : ℕ × Bytes)
      → s.args ≡ v ∷ args
      → s.memory (s.fmt + 1) ≡ c
      → numtostr (suc k) s.memory s.nstr no_flags v 10 0 sig ≡ ok out
      → conversion (suc k) no_flags num s
        ≡ ok (no_flags, update num 0 0, progress (s.fmt + 1 + 1) args out)
  unfolding conversion read_flags read_width read_num put_num convert convert_arg
  conversion-decimal out has_args at printed =
      rw (at, is.no_flag)
        (rw (at, is.no_digit)
          (rw (at, is.no_point)
            (rw (at, is.no_length)
              (rw (has_args) (
                rw (at, is.modifier)
                  (rw (is.no_char, is.no_text)
                    (rw (atoi-empty k (update num 0 0) 0 refl, is.ten, is.signed, printed)
                      refl)))))))

print_decimal :
    (k : ℕ) (m num : Bytes) (str format c v : ℕ) (sig : Bool) (args : List ℕ)
    → IsDecimal c sig
    → IsString m format (b'%' ∷ c ∷ [])
    → format + 2 < str
    → v < 2 ^ 32
    → suc v < k
    → (sig && is_negative v) ≡ false
    → (do (_, m1) ← vsprintf (suc (suc k)) m num str format (v ∷ args); atoi k m1 str) ≡ ok v
unfolding vsprintf format_loop
print_decimal k m num str format c v sig args is text below small fuel positive =
    let s : Progress = record { fmt = format; nstr = str; memory = m; args = v ∷ args } in
    let (out, printed, written) =
      Returns-ok (numtostr-Text (suc (suc k)) m str v sig (omega arith) positive) in
    let (n, at, few, digits, value, same) = written in
    let stop : out.1 (format + 1 + 1) ≡ 0 = same (format + 1 + 1) (inl (omega arith)) ∙ text.2.2 in
    rw (text.0) (
      rw (conversion-decimal (suc k) c sig is num s v args out refl text.2.0 printed)
        (rw stop (atoi-Text k m str v out written small fuel)))

d-IsDecimal : IsDecimal b'd' true
d-IsDecimal = record {
  no_flag = refl;
  no_digit = refl;
  no_point = refl;
  no_length = refl;
  modifier = refl;
  no_char = refl;
  no_text = refl;
  ten = refl;
  signed = refl;
}

u-IsDecimal : IsDecimal b'u' false
u-IsDecimal = record {
  no_flag = refl;
  no_digit = refl;
  no_point = refl;
  no_length = refl;
  modifier = refl;
  no_char = refl;
  no_text = refl;
  ten = refl;
  signed = refl;
}

-- `sprintf` with the format `%d` or `%u` and an argument, followed by `atoi` of the result, gives the argument, for every number that is
-- not negative in the conversion; the format stands below the result.
pub atoi-vsprintf :
    (k : ℕ) (m num : Bytes) (str format c v : ℕ) (args : List ℕ)
    → IsString m format (b'%' ∷ c ∷ [])
    → (c ≡ b'd') ⊎ (c ≡ b'u')
    → format + 2 < str
    → v < 2 ^ 32
    → suc v < k
    → ((c == b'd') && is_negative v) ≡ false
    → (do (_, m1) ← vsprintf (suc (suc k)) m num str format (v ∷ args); atoi k m1 str) ≡ ok v
atoi-vsprintf k m num str format c v args text which below small fuel positive = elim which [
  | inl d ↦
      print_decimal k m num str format c v true args (rw d d-IsDecimal) text below small fuel
        (ground arith)
  | inr u ↦
      print_decimal k m num str format c v false args (rw u u-IsDecimal) text below small fuel refl
]
