-- ===== src/Printf/Plain.antt =====
-- vsprintf of a format without conversions.
use native.Mathlib.Nat.{add-zero}
use tempos.Base.{
  ℕ, zero, suc, ◌+◌, ◌-◌, ◌<◌, ◌≡◌, refl, ◌∙◌, ◌≢◌, ◌⊎◌, inl, inr, List, [], ◌∷◌, length, arith,
  ==_of_ne, update, ok, Returns, returns,
}
use tempos.Strings.{Bytes}
use tempos.Strings.Scan.{IsString}
use tempos.Strings.Concat.{IsString-same}
use tempos.Numbers.{Flags, no_flags}
use tempos.Printf.{Progress, format_loop, vsprintf}

-- no byte is a `%`
abbrev pub Plain : List ℕ → Type 0
Plain [] = Unit {0}
Plain (b ∷ bs) = (b ≢ b'%') × Plain bs

abbrev copied : Bytes → (nstr : ℕ) → List ℕ → Bytes
copied m nstr [] = m
copied m nstr (b ∷ bs) = copied (update m nstr b) (nstr + 1) bs

-- A text of `n` bytes and its NUL at `a` and one at `b` do not overlap.
abbrev pub Apart : (a b n : ℕ) → Type 0
Apart a b n = (a + n < b) ⊎ (b + n < a)

Apart-step : (a b n : ℕ) → Apart a b (suc n) → Apart (a + 1) (b + 1) n
Apart-step a b n (inl below) = inl (omega arith)
Apart-step a b n (inr above) = inr (omega arith)

format_loop-Plain :
    (k : ℕ) (flags : Flags) (num : Bytes) (s : Progress) (bs : List ℕ)
    → IsString s.memory s.fmt bs
    → Plain bs
    → Apart s.nstr s.fmt (length bs)
    → length bs < k
    → format_loop k flags num s
      ≡ ok (record s {
        fmt = s.fmt + length bs;
        nstr = s.nstr + length bs;
        memory = copied s.memory s.nstr bs;
      })
unfolding format_loop
format_loop-Plain zero flags num s bs text plain apart fuel = absurd (omega arith)
format_loop-Plain (suc k) flags num s [] text plain apart fuel =
    rw (text, add-zero s.fmt, add-zero s.nstr) refl
format_loop-Plain (suc k) flags num s (b ∷ bs) text plain apart fuel =
    let m1 = update s.memory s.nstr b in
    let behind =
      IsString-same s.memory m1 (s.fmt + 1) bs text.2 (λ a from to. ground (arith, apart)) in
    let s1 : Progress = record s { fmt = s.fmt + 1; nstr = s.nstr + 1; memory = m1 } in
    let rest =
      format_loop-Plain k flags num s1 bs behind plain.1 (Apart-step s.nstr s.fmt (length bs) apart)
        (omega arith) in
    let f : s.fmt + suc (length bs) ≡ s.fmt + 1 + length bs = omega arith in
    let n : s.nstr + suc (length bs) ≡ s.nstr + 1 + length bs = omega arith in
    rw (text.0, ==_of_ne b 0 text.1, ==_of_ne b b'%' plain.0) (rw (f, n) rest)

copied-same : (m : Bytes) (nstr a : ℕ) (bs : List ℕ) → a < nstr → copied m nstr bs a ≡ m a
copied-same m nstr a [] below = refl
copied-same m nstr a (b ∷ bs) below =
    copied-same (update m nstr b) (nstr + 1) a bs (omega arith) ∙ ground arith

copied-IsString :
    (m0 m : Bytes) (nstr s : ℕ) (bs : List ℕ)
    → IsString m0 s bs
    → IsString (update (copied m nstr bs) (nstr + length bs) 0) nstr bs
copied-IsString m0 m nstr s [] text = ground arith
copied-IsString m0 m nstr s (b ∷ bs) text =
    let at : nstr + suc (length bs) ≡ nstr + 1 + length bs = omega arith in
    let first = copied-same (update m nstr b) (nstr + 1) nstr bs (omega arith) in
    let rest : IsString (update (copied (update m nstr b) (nstr + 1) bs) (nstr + suc (length bs)) 0)
        (nstr + 1) bs =
      rw at (copied-IsString m0 (update m nstr b) (nstr + 1) (s + 1) bs text.2) in
    (ground (arith, first), text.1, rest)

-- A format without `%` is copied with its NUL, and the answer is its length; the arguments are not used.
pub vsprintf-Plain :
    (k : ℕ) (m num : Bytes) (str format : ℕ) (args bs : List ℕ)
    → IsString m format bs
    → Plain bs
    → Apart str format (length bs)
    → length bs < k
    → Returns (λ (r, m'). (r ≡ length bs) × IsString m' str bs) (vsprintf k m num str format args)
unfolding vsprintf
vsprintf-Plain k m num str format args bs text plain apart fuel =
    let s : Progress = record { fmt = format; nstr = str; memory = m; args = args } in
    let count : str + length bs - str ≡ length bs = omega arith in
    rw (format_loop-Plain k no_flags num s bs text plain apart fuel)
      (rw count (returns (refl, copied-IsString m m str format bs text)))
