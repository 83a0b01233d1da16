-- ===== src/Cmdline/Rounds.antt =====
-- What the rounds of the parser do along a line of arguments.
use tempos.Base.{
  ℕ, zero, suc, ◌+◌, ◌-◌, ◌<◌, ◌≤◌, ◌≡◌, ◌≢◌, refl, ap, ◌∙◌, ◌⊎◌, inl, inr, true, false, ◌||◌, List,
  [], ◌∷◌, arith, length, ◌==◌, ==_of_ne, ltb, update, ok,
}
use tempos.Strings.{Bytes}
use tempos.Cmdline.{
  Parser, skip_blanks, skip_value, set_arg, take_value, end_arg, parse_round, parse_loop,
}
use tempos.Cmdline.Line.{Letters, IsKey, Letters-kept, HasArgs, end_of, end_of-le, sep-stops}

-- the search for the end of a value
pub skip_value-Letters :
    (k : ℕ) (m : Bytes) (str i : ℕ) (v : List ℕ)
    → Letters m (str + i) v
    → (m (str + i + length v) == 32 || (m (str + i + length v) == 0)) ≡ true
    → length v < k
    → skip_value k m str i ≡ ok (i + length v)
unfolding skip_value
skip_value-Letters zero m str i v l stop fuel = absurd (omega arith)
skip_value-Letters (suc k) m str i [] l stop fuel =
    let e : str + i + 0 ≡ str + i = omega arith in
    let here : (m (str + i) == 32 || (m (str + i) == 0)) ≡ true = ground (arith, stop) in
    rw here (ap ok (omega arith))
skip_value-Letters (suc k) m str i (b ∷ v) l stop fuel =
    let at : str + (i + 1) ≡ str + i + 1 = omega arith in
    let e : str + (i + 1) + length v ≡ str + i + length (b ∷ v) = omega arith in
    let rest = skip_value-Letters k m str (i + 1) v (rw at l.3) (rw e stop) (omega arith) in
    rw (l.0, ==_of_ne b 32 l.2, ==_of_ne b 0 l.1, rest) (ap ok (omega arith))

-- the letters of a key only move the index
pub parse_loop-key :
    (n k str len : ℕ) (s : Parser) (bs : List ℕ)
    → Letters s.mem (str + s.i) bs
    → IsKey bs
    → s.i + length bs ≤ len
    → length bs ≤ n
    → parse_loop n k str len s
      ≡ parse_loop (n - length bs) k str len (record s { i = s.i + length bs })
unfolding parse_loop parse_round
parse_loop-key n k str len s [] l key inside fuel =
    let e : n - 0 ≡ n = omega arith in let at : s.i + 0 ≡ s.i = omega arith in rw (e, at) refl
parse_loop-key zero k str len s (b ∷ bs) l key inside fuel = absurd (omega arith)
parse_loop-key (suc n) k str len s (b ∷ bs) l key inside fuel =
    let more : ltb s.i len ≡ true = ground arith in
    let at : str + (s.i + 1) ≡ str + s.i + 1 = omega arith in
    let e : s.i + length (b ∷ bs) ≡ s.i + 1 + length bs = omega arith in
    let left : suc n - length (b ∷ bs) ≡ n - length bs = omega arith in
    rw (e, left, more, l.0, ==_of_ne b 61 key.0, ==_of_ne b 32 l.2, ==_of_ne b 0 l.1)
      (parse_loop-key n k str len (record s { i = s.i + 1 }) bs (rw at l.3) key.1 (omega arith)
        (omega arith))

-- behind the value of an argument, which ends at `e`
abbrev pub after_value : (str e : ℕ) → Parser → Parser
after_value str e s = record s {
  mem = update (update s.mem (str + s.i) 0) (str + e) 0;
  args = update s.args s.p (record { key = s.key; value = str + (s.i + 1) });
  i = e;
  value = str + (s.i + 1);
}

pub take_value-Letters :
    (k str : ℕ) (s : Parser) (v : List ℕ)
    → s.mem (str + s.i) ≡ 61
    → Letters s.mem (str + (s.i + 1)) v
    → (s.mem (str + (s.i + 1 + length v)) == 32 || (s.mem (str + (s.i + 1 + length v)) == 0)) ≡ true
    → s.p < 50
    → length v < k
    → parse_round k str s ≡ ok (after_value str (s.i + 1 + length v) s)
unfolding parse_round take_value set_arg
take_value-Letters k str s v equals letters stop few fuel =
    let m1 : Bytes = update s.mem (str + s.i) 0 in
    let at : str + (s.i + 1) + length v ≡ str + (s.i + 1 + length v) = omega arith in
    let other : (str + (s.i + 1 + length v) == str + s.i) ≡ false = ground arith in
    let l1 : Letters m1 (str + (s.i + 1)) v =
      Letters-kept s.mem m1 (str + (s.i + 1)) v letters λ x from to. ground arith in
    let skip : skip_value k m1 str (s.i + 1) ≡ ok (s.i + 1 + length v) =
      skip_value-Letters k m1 str (s.i + 1) v l1 (rw (at, other) stop) fuel in
    let inside : ltb s.p 50 ≡ true = ground arith in rw (equals, skip, inside) refl

-- at the start of the next argument; the index is one further
abbrev pub after_arg : (str : ℕ) → Parser → Parser
after_arg str s = record s {
  mem = update s.mem (str + s.i) 0;
  args = update s.args s.p (record (s.args s.p) { value = s.value });
  i = s.i + 1 + 1;
  p = s.p + 1;
  key = str + (s.i + 1);
}

pub end_arg-letter :
    (k str : ℕ) (s : Parser)
    → s.mem (str + s.i) ≡ 0
    → s.mem (str + (s.i + 1)) ≢ 32
    → s.p < 50
    → parse_round (suc k) str s ≡ ok (after_arg str s)
unfolding parse_round end_arg set_arg skip_blanks
end_arg-letter k str s end letter few =
    let other : (str + (s.i + 1) == str + s.i) ≡ false = ground arith in
    let inside : ltb s.p 50 ≡ true = ground arith in
    rw (end, other, ==_of_ne _ 32 letter, inside) refl

-- one round, and none behind the end
pub parse_loop-step :
    (n k str len : ℕ) (s s' : Parser)
    → s.i < len
    → len ≤ s.i + n
    → parse_round k str s ≡ ok s'
    → (n' : ℕ) × (len ≤ s.i + 1 + n') × (parse_loop n k str len s ≡ parse_loop n' k str len s')
unfolding parse_loop
parse_loop-step zero k str len s s' more fuel round = absurd (omega arith)
parse_loop-step (suc n) k str len s s' more fuel round =
    let inside : ltb s.i len ≡ true = ground arith in (n, omega arith, rw (inside, round) refl)

pub parse_loop-done : (n k str len : ℕ) (s : Parser) → len ≤ s.i → parse_loop n k str len s ≡ ok s
unfolding parse_loop
parse_loop-done zero k str len s done = let out : ltb s.i len ≡ false = ground arith in rw out refl
parse_loop-done (suc n) k str len s done =
    let out : ltb s.i len ≡ false = ground arith in rw out refl

-- The index stands on the key or, behind a blank, on its second byte; the loop goes on to the `=`.
pub parse_loop-reach :
    (n k str len q : ℕ) (s : Parser) (bs : List ℕ)
    → (s.i ≡ q) ⊎ (s.i ≡ q + 1)
    → 0 < length bs
    → Letters s.mem (str + q) bs
    → IsKey bs
    → q + length bs ≤ len
    → len ≤ s.i + n
    → (n' : ℕ) × (len ≤ q + length bs + n')
      × (parse_loop n k str len s ≡ parse_loop n' k str len (record s { i = q + length bs }))
parse_loop-reach n k str len q s [] at some_key l key inside fuel = absurd (omega arith)
parse_loop-reach n k str len q s (b ∷ bs) (inl at) some_key l key inside fuel =
    let e : s.i + length (b ∷ bs) ≡ q + length (b ∷ bs) = omega arith in
    let letters : Letters s.mem (str + s.i) (b ∷ bs) = rw at l in
    (
      n - length (b ∷ bs),
      omega arith,
      parse_loop-key n k str len s (b ∷ bs) letters key (omega arith) (omega arith)
          ∙ ap (λ (i : ℕ). parse_loop (n - length (b ∷ bs)) k str len (record s { i = i })) e,
    )
parse_loop-reach n k str len q s (b ∷ bs) (inr at) some_key l key inside fuel =
    let e : s.i + length bs ≡ q + length (b ∷ bs) = omega arith in
    let place : str + s.i ≡ str + q + 1 = omega arith in
    let letters : Letters s.mem (str + s.i) bs = rw place l.3 in
    (
      n - length bs,
      omega arith,
      parse_loop-key n k str len s bs letters key.1 (omega arith) (omega arith)
          ∙ ap (λ (i : ℕ). parse_loop (n - length bs) k str len (record s { i = i })) e,
    )

abbrev pub next_of : (str q : ℕ) → (k v : List ℕ) → Parser → Parser
next_of str q k v s = after_value str (q + length k + 1 + length v) (record s { i = q + length k })

-- the loop goes on behind the value of the first argument
pub parse_loop-value :
    (n k str len q : ℕ) (s : Parser) (key v : List ℕ) (rest : List (List ℕ × List ℕ))
    → HasArgs s.mem str q ((key, v) ∷ rest)
    → len ≡ end_of q ((key, v) ∷ rest)
    → (s.i ≡ q) ⊎ (s.i ≡ q + 1)
    → len ≤ s.i + n
    → len < k
    → s.p < 50
    → (n' : ℕ) × (len ≤ q + length key + 1 + n')
      × (parse_loop n k str len s ≡ parse_loop n' k str len (next_of str q key v s))
parse_loop-value n k str len q s key v rest (some_key, is_key, lk, equals, lv, end, next) whole at
      fuel rounds few =
    let long = end_of-le q key v rest in
    let (n1, left, reached) =
      parse_loop-reach n k str len q s key at some_key lk is_key (omega arith) fuel in
    let s1 : Parser = record s { i = q + length key } in
    let stop : (s1.mem (str + (s1.i + 1 + length v)) == 32
          || (s1.mem (str + (s1.i + 1 + length v)) == 0))
        ≡ true =
      rw end (sep-stops rest) in
    let round = take_value-Letters k str s1 v equals lv stop few (omega arith) in
    let (n2, left2, stepped) =
      parse_loop-step n1 k str len s1 (next_of str q key v s) (omega arith) (omega arith) round in
    (n2, omega arith, reached ∙ stepped)

pub skip_blanks-letter :
    (k : ℕ) (m : Bytes) (str i : ℕ) → m (str + i) ≢ 32 → skip_blanks (suc k) m str i ≡ ok i
unfolding skip_blanks
skip_blanks-letter k m str i letter = rw (==_of_ne _ 32 letter) refl
