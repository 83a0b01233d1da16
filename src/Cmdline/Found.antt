-- ===== src/Cmdline/Found.antt =====
-- The table of arguments after the parser: the arguments of the line, one by one.
use tempos.Base.{
  ℕ, suc, ◌+◌, ◌<◌, ◌≤◌, ◌≡◌, ◌≢◌, refl, sym, ◌∙◌, ◌⊎◌, inl, inr, List, [], ◌∷◌, arith, length,
  Returns, returns, Returns-bind, Returns-mono,
}
use tempos.Strings.{Bytes}
use tempos.Strings.Scan.{IsString, strlen-length}
use tempos.Strings.Copy.{strcpy-copies}
use tempos.Cmdline.Parse.{IsString-copied}
use tempos.Cmdline.{Arg, Parser, parse_loop, parse_cmdline}
use tempos.Cmdline.Line.{
  Letters, Letters-kept, Letters-IsString, HasArgs, HasArgs-kept, end_of, end_of-le, HasArgs-letter,
  HasArgs-copied,
}
use tempos.Cmdline.Rounds.{
  after_arg, end_arg-letter, parse_loop-step, parse_loop-done, parse_loop-value, skip_blanks-letter,
  next_of,
}

-- the table has these arguments from `p` on
abbrev pub Found : List (List ℕ × List ℕ) → (p : ℕ) → Parser → Type 0
Found [] p s = Unit {0}
Found ((k, v) ∷ rest) p s =
    IsString s.mem (s.args p).key k × IsString s.mem (s.args p).value v × Found rest (p + 1) s

-- a key and a value whose ends were made 0
arg-Found :
    (m m1 : Bytes) (str q : ℕ) (k v : List ℕ)
    → Letters m (str + q) k
    → Letters m (str + (q + length k + 1)) v
    → ((x : ℕ) → x < str + (q + length k + 1 + length v) → x ≢ str + (q + length k) → m1 x ≡ m x)
    → m1 (str + (q + length k)) ≡ 0
    → m1 (str + (q + length k + 1 + length v)) ≡ 0
    → IsString m1 (str + q) k × IsString m1 (str + (q + length k + 1)) v
arg-Found m m1 str q k v lk lv same end_k end_v =
    let at_k : str + q + length k ≡ str + (q + length k) = omega arith in
    let at_v : str + (q + length k + 1) + length v ≡ str + (q + length k + 1 + length v) =
      omega arith in
    (
      Letters-IsString m1 (str + q) k
          (Letters-kept m m1 (str + q) k lk λ x from to. same x (omega arith) (omega arith))
          (rw at_k end_k),
      Letters-IsString m1 (str + (q + length k + 1)) v
          (Letters-kept m m1 (str + (q + length k + 1)) v lv
            λ x from to. same x (omega arith) (omega arith))
          (rw at_v end_v),
    )

-- what the loop makes of these arguments, from the argument `p` and the offset `q` on
abbrev Result : (str q : ℕ) → List (List ℕ × List ℕ) → (s s' : Parser) → Type 0
Result str q l s s' =
    Found l s.p s'
    × ((x : ℕ) → x < str + q → s'.mem x ≡ s.mem x)
    × ((j : ℕ) → j < s.p → s'.args j ≡ s.args j)
    × (s'.p + 1 ≡ s.p + length l)

-- the argument itself, where nothing up to its end changes later
last_arg-Found :
    (str q : ℕ) (k v : List ℕ) (s s' : Parser)
    → Letters s.mem (str + q) k
    → Letters s.mem (str + (q + length k + 1)) v
    → s.key ≡ str + q
    → ((x : ℕ) → x ≤ str + (q + length k + 1 + length v) → s'.mem x ≡ (next_of str q k v s).mem x)
    → s'.args s.p ≡ record { key = s.key; value = str + (q + length k + 1) }
    → IsString s'.mem (s'.args s.p).key k × IsString s'.mem (s'.args s.p).value v
last_arg-Found str q k v s s' lk lv at_key same arg =
    rw (arg, at_key)
      (arg-Found s.mem s'.mem str q k v lk lv (λ x to other. ground (arith, same x))
        (ground (arith, same (str + (q + length k))))
        (ground (arith, same (str + (q + length k + 1 + length v)))))

one_arg-Result :
    (str q : ℕ) (k v : List ℕ) (s : Parser)
    → HasArgs s.mem str q ((k, v) ∷ [])
    → s.key ≡ str + q
    → Result str q ((k, v) ∷ []) s (next_of str q k v s)
one_arg-Result str q k v s (some_key, key, lk, equals, lv, end, next) at_key =
    let (found_k, found_v) =
      last_arg-Found str q k v s (next_of str q k v s) lk lv at_key (λ x to. refl) (ground arith) in
    ((found_k, found_v, tt), (λ x before. ground arith), (λ j before. ground arith), omega arith)

-- the first argument before the others
more_args-Result :
    (str q : ℕ) (k v : List ℕ) (a : List ℕ × List ℕ) (rest : List (List ℕ × List ℕ)) (s s' : Parser)
    → Letters s.mem (str + q) k
    → Letters s.mem (str + (q + length k + 1)) v
    → s.key ≡ str + q
    → Result str
        (q + length k + 1 + length v + 1)
        (a ∷ rest)
        (after_arg str (next_of str q k v s))
        s'
    → Result str q ((k, v) ∷ a ∷ rest) s s'
more_args-Result str q k v a rest s s' lk lv at_key (found, below, before, count) =
    let (found_k, found_v) =
      last_arg-Found str q k v s s' lk lv at_key (λ x to. below x (omega arith) ∙ ground arith)
        (before s.p (omega arith) ∙ ground arith) in
    (
      (found_k, found_v, found),
      (λ x low. below x (omega arith) ∙ ground arith),
      (λ j low. before j (omega arith) ∙ ground arith),
      omega arith,
    )

-- From a state on the first of these arguments, with a round for every byte, the loop ends with all of them in the table.
parse_loop-Found :
    (n k str len q : ℕ) (s : Parser) (key v : List ℕ) (rest : List (List ℕ × List ℕ))
    → HasArgs s.mem str q ((key, v) ∷ rest)
    → len ≡ end_of q ((key, v) ∷ rest)
    → s.key ≡ str + q
    → (s.i ≡ q) ⊎ (s.i ≡ q + 1)
    → len ≤ s.i + n
    → len < suc k
    → s.p + length rest < 50
    → Returns (Result str q ((key, v) ∷ rest) s) (parse_loop n (suc k) str len s)
parse_loop-Found n k str len q s key v [] h whole at_key at fuel rounds few =
    let (n', left, stepped) =
      parse_loop-value n (suc k) str len q s key v [] h whole at fuel rounds (omega arith) in
    rw (stepped, parse_loop-done n' (suc k) str len (next_of str q key v s) (omega arith))
      (returns (one_arg-Result str q key v s h at_key))
parse_loop-Found n k str len q s key v ((key2, v2) ∷ rest) h whole at_key at fuel rounds few =
    let (some_key, is_key, lk, equals, lv, end, next) = h in
    let q2 = q + length key + 1 + length v + 1 in
    let long = end_of-le q2 key2 v2 rest in
    let s2 : Parser = next_of str q key v s in
    let s3 : Parser = after_arg str s2 in
    let letter : s2.mem (str + (s2.i + 1)) ≢ 32 =
      λ blank. HasArgs-letter s.mem str q2 (key2, v2) rest next (ground arith) in
    let (n1, left1, stepped1) =
      parse_loop-value n (suc k) str len q s key v ((key2, v2) ∷ rest) h whole at fuel rounds
        (omega arith) in
    let (n2, left2, stepped2) =
      parse_loop-step n1 (suc k) str len s2 s3 (omega arith) (omega arith)
        (end_arg-letter k str s2 (ground arith) letter (omega arith)) in
    let kept : HasArgs s3.mem str q2 ((key2, v2) ∷ rest) =
      HasArgs-kept s.mem s3.mem str q2 ((key2, v2) ∷ rest) next λ x from. ground arith in
    rw (stepped1, stepped2)
      (Returns-mono
        (parse_loop-Found n2 k str len q2 s3 key2 v2 rest kept whole refl (inr refl) (omega arith)
          rounds (omega arith))
        λ s' r. more_args-Result str q key v (key2, v2) rest s s' lk lv at_key r)

-- Where the line has at least one argument and at most 50, each a key of at least one byte without `=`, then `=` and a value, with one blank between two
-- arguments and none in them, and the copy goes to an array of zeros, the parser returns: the table has the keys and the values of the line, in
-- its order and each with a 0 behind it, and what is returned is one less than the number of arguments.
pub parse_cmdline-Found :
    (k str cmdline : ℕ) (args : ℕ → Arg) (m : Bytes) (bs key v : List ℕ)
    (rest : List (List ℕ × List ℕ))
    → IsString m cmdline bs
    → HasArgs m cmdline 0 ((key, v) ∷ rest)
    → length bs ≡ end_of 0 ((key, v) ∷ rest)
    → length rest < 50
    → length bs < suc k
    → m (str + length bs) ≡ 0
    → ((str ≤ cmdline) ⊎ (cmdline + length bs ≤ str))
    → Returns
        (λ (s : Parser). Found ((key, v) ∷ rest) 0 s × (s.p ≡ length rest))
        (parse_cmdline (suc k) str cmdline args m)
unfolding parse_cmdline
parse_cmdline-Found k str cmdline args m bs key v rest line h whole few fuel clear apart =
    let len = length bs in
    Returns-bind (strcpy-copies (suc k) m str cmdline bs line fuel apart)
      λ (r, m1) (copy, end, same).
        let end1 : m1 (str + len) ≡ 0 = ground arith in
        let h1 : HasArgs m1 str 0 ((key, v) ∷ rest) =
          HasArgs-copied m m1 cmdline str 0 ((key, v) ∷ rest) h (λ j before. copy j (omega arith))
            (rw (sym whole) end1) in
        let s0 : Parser = record {
          mem = m1;
          args = args;
          i = 0;
          p = 0;
          key = str + 0;
          value = str + 0;
        } in
        let letter = HasArgs-letter m1 str 0 (key, v) rest h1 in
        rw
          (
            strlen-length (suc k) m1 str bs (IsString-copied m m1 cmdline str bs line copy end1)
                fuel,
            skip_blanks-letter k m1 str 0 letter,
          )
          (Returns-mono
            (parse_loop-Found (suc k) k str len 0 s0 key v rest h1 whole refl (inl refl)
              (omega arith) fuel (omega arith))
            λ s (found, below, before, count). (found, omega arith))
