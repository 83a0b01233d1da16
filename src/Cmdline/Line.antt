-- ===== src/Cmdline/Line.antt =====
-- A line of arguments in memory.
use tempos.Base.{
  ℕ, ◌+◌, ◌<◌, ◌≤◌, ◌≡◌, ◌≢◌, refl, sym, ◌∙◌, true, ◌||◌, List, [], ◌∷◌, arith, length, ◌==◌,
}
use tempos.Strings.{Bytes}
use tempos.Strings.Scan.{IsString}

-- the memory has these bytes at `a`, none of them 0 or a blank
abbrev pub Letters : Bytes → (a : ℕ) → List ℕ → Type 0
Letters m a [] = Unit {0}
Letters m a (b ∷ bs) = (m a ≡ b) × (b ≢ 0) × (b ≢ 32) × Letters m (a + 1) bs

-- no byte is `=`
abbrev pub IsKey : List ℕ → Type 0
IsKey [] = Unit {0}
IsKey (b ∷ bs) = (b ≢ 61) × IsKey bs

-- letters elsewhere do not change
pub Letters-kept :
    (m m' : Bytes) (a : ℕ) (bs : List ℕ)
    → Letters m a bs
    → ((x : ℕ) → a ≤ x → x < a + length bs → m' x ≡ m x)
    → Letters m' a bs
Letters-kept m m' a [] l same = tt
Letters-kept m m' a (b ∷ bs) l same = (
  same a (omega arith) (omega arith) ∙ l.0,
  l.1,
  l.2,
  Letters-kept m m' (a + 1) bs l.3 λ x from to. same x (omega arith) (omega arith),
)

-- letters with a 0 behind them
pub Letters-IsString :
    (m : Bytes) (a : ℕ) (bs : List ℕ) → Letters m a bs → m (a + length bs) ≡ 0 → IsString m a bs
Letters-IsString m a [] l end = ground arith
Letters-IsString m a (b ∷ bs) l end =
    (l.0, l.1, Letters-IsString m (a + 1) bs l.3 (ground (arith, end)))

-- what stands behind an argument
abbrev pub sep : List (List ℕ × List ℕ) → ℕ
sep [] = 0
sep (a ∷ rest) = 32

-- From the offset `q` on stand these arguments, a key without `=`, then `=` and a value, with a blank between two of them and a 0 at the end.
abbrev pub HasArgs : Bytes → (str q : ℕ) → List (List ℕ × List ℕ) → Type 0
HasArgs m str q [] = Unit {0}
HasArgs m str q ((k, v) ∷ rest) =
    (0 < length k)
    × IsKey k
    × Letters m (str + q) k
    × (m (str + (q + length k)) ≡ 61)
    × Letters m (str + (q + length k + 1)) v
    × (m (str + (q + length k + 1 + length v)) ≡ sep rest)
    × HasArgs m str (q + length k + 1 + length v + 1) rest

pub HasArgs-kept :
    (m m' : Bytes) (str q : ℕ) (rest : List (List ℕ × List ℕ))
    → HasArgs m str q rest
    → ((x : ℕ) → str + q ≤ x → m' x ≡ m x)
    → HasArgs m' str q rest
HasArgs-kept m m' str q [] h same = tt
HasArgs-kept m m' str q ((k, v) ∷ rest) (some_key, key, lk, equals, lv, end, next) same = (
  some_key,
  key,
  Letters-kept m m' (str + q) k lk (λ x from to. same x from),
  same _ (omega arith) ∙ equals,
  Letters-kept m m' (str + (q + length k + 1)) v lv (λ x from to. same x (omega arith)),
  same _ (omega arith) ∙ end,
  HasArgs-kept m m' str (q + length k + 1 + length v + 1) rest next λ x from. same x (omega arith),
)

-- where the 0 behind the arguments stands
abbrev pub end_of : (q : ℕ) → List (List ℕ × List ℕ) → ℕ
end_of q [] = q
end_of q ((k, v) ∷ []) = q + length k + 1 + length v
end_of q ((k, v) ∷ a ∷ rest) = end_of (q + length k + 1 + length v + 1) (a ∷ rest)

pub end_of-le :
    (q : ℕ) (k v : List ℕ) (rest : List (List ℕ × List ℕ))
    → q + length k + 1 + length v ≤ end_of q ((k, v) ∷ rest)
end_of-le q k v [] = omega arith
end_of-le q k v ((k', v') ∷ rest) =
    omega (arith, end_of-le (q + length k + 1 + length v + 1) k' v' rest)

pub HasArgs-letter :
    (m : Bytes) (str q : ℕ) (a : List ℕ × List ℕ) (rest : List (List ℕ × List ℕ))
    → HasArgs m str q (a ∷ rest)
    → m (str + q) ≢ 32
HasArgs-letter m str q ([], v) rest h = absurd (omega (arith, h.0))
HasArgs-letter m str q (b ∷ k, v) rest h = λ blank. h.2.2 (sym h.2.0 ∙ blank)

pub sep-stops : (rest : List (List ℕ × List ℕ)) → (sep rest == 32 || (sep rest == 0)) ≡ true
sep-stops [] = refl
sep-stops (a ∷ rest) = refl

-- the arguments in a copy of the line
pub Letters-copied :
    (m m1 : Bytes) (from to i : ℕ) (bs : List ℕ)
    → Letters m (from + i) bs
    → ((j : ℕ) → j < i + length bs → m1 (to + j) ≡ m (from + j))
    → Letters m1 (to + i) bs
Letters-copied m m1 from to i [] l same = tt
Letters-copied m m1 from to i (b ∷ bs) l same =
    let next_from : from + (i + 1) ≡ from + i + 1 = omega arith in
    let next_to : to + i + 1 ≡ to + (i + 1) = omega arith in
    (
      same i (omega arith) ∙ l.0,
      l.1,
      l.2,
      rw next_to (
          Letters-copied m m1 from to (i + 1) bs (rw next_from l.3)
            λ j before. same j (omega arith)),
    )

pub HasArgs-copied :
    (m m1 : Bytes) (from to q : ℕ) (rest : List (List ℕ × List ℕ))
    → HasArgs m from q rest
    → ((j : ℕ) → j < end_of q rest → m1 (to + j) ≡ m (from + j))
    → m1 (to + end_of q rest) ≡ 0
    → HasArgs m1 to q rest
HasArgs-copied m m1 from to q [] h same zeroed = tt
HasArgs-copied m m1 from to q ((k, v) ∷ []) (some_key, key, lk, equals, lv, end, next) same zeroed =
    (
      some_key,
      key,
      Letters-copied m m1 from to q k lk (λ j before. same j (omega arith)),
      same _ (omega arith) ∙ equals,
      Letters-copied m m1 from to (q + length k + 1) v lv (λ j before. same j (omega arith)),
      zeroed,
      tt,
    )
HasArgs-copied m m1 from to q ((k, v) ∷ (k2, v2) ∷ rest) (some_key, key, lk, equals, lv, end, next)
      same zeroed =
    let long = end_of-le (q + length k + 1 + length v + 1) k2 v2 rest in
    (
      some_key,
      key,
      Letters-copied m m1 from to q k lk (λ j before. same j (omega arith)),
      same _ (omega arith) ∙ equals,
      Letters-copied m m1 from to (q + length k + 1) v lv (λ j before. same j (omega arith)),
      same _ (omega arith) ∙ end,
      HasArgs-copied m m1 from to (q + length k + 1 + length v + 1) ((k2, v2) ∷ rest) next same
          zeroed,
    )
