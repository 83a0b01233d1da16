-- ===== src/Cmdline/Tests.antt =====
-- The parser at a small line: "a=b c=d" at 100, its copy at 200.
use tempos.Base.{
  ℕ, zero, suc, ◌-◌, ◌≤◌, ◌≡◌, refl, inr, List, [], ◌∷◌, arith, ◌&&◌, leb, ltb, if◌then◌else◌, ◌==◌,
  ok, ◌>>=◌, Returns,
}
use tempos.Strings.{Bytes, strcpy, strlen, strcmp, memcpy, copy_loop, end_walk}
use tempos.Cmdline.{
  Arg, Parser, parse_cmdline, cmdline_get_value, parse_loop, parse_round, take_value, end_arg,
  skip_value, skip_blanks, set_arg, value_walk,
}
use tempos.Cmdline.Found.{Found, parse_cmdline-Found}
use tempos.Cmdline.Value.{lookup, IsAnswer, cmdline_get_value-lookup}
use tempos.Cmdline.Parse.{Within, parse_cmdline-Returns}

abbrev byte : List ℕ → ℕ → ℕ
byte [] n = 0
byte (b ∷ bs) zero = b
byte (b ∷ bs) (suc n) = byte bs n

abbrev line : List ℕ
line = 97 ∷ 61 ∷ 98 ∷ 32 ∷ 99 ∷ 61 ∷ 100 ∷ []

-- the line at 100, and the string "c" at 50
abbrev memory : Bytes
memory a =
    if leb 100 a && ltb a 107 then byte line (a - 100) else if leb 50 a && ltb a 51 then 99 else 0

abbrev no_args : ℕ → Arg
no_args i = record { key = 0; value = 0 }

parse_cmdline-Returns_example :
    Returns
      (λ (s : Parser). Within 200 7 memory s × (s.p ≤ 49))
      (parse_cmdline 9 200 100 no_args memory)
parse_cmdline-Returns_example =
    parse_cmdline-Returns 9 200 100 no_args memory line
      (
        refl,
        omega arith,
        (
          refl,
          omega arith,
          (
            refl,
            omega arith,
            (
              refl,
              omega arith,
              (refl, omega arith, (refl, omega arith, (refl, omega arith, refl))),
            ),
          ),
        ),
      )
      (omega arith) (omega arith) refl (inr (omega arith))

-- one less than the number of arguments is returned
two_arguments-one : (parse_cmdline 9 200 100 no_args memory >>= λ s. ok s.p) ≡ ok 1
unfolding parse_cmdline parse_loop parse_round take_value end_arg skip_value skip_blanks set_arg
    strcpy strlen memcpy copy_loop end_walk
two_arguments-one = refl

-- and the value of the second is found all the same, at 206
second_value-found :
    (parse_cmdline 9 200 100 no_args memory >>= λ s. cmdline_get_value 9 s 50) ≡ ok 206
unfolding parse_cmdline parse_loop parse_round take_value end_arg skip_value skip_blanks set_arg
    strcpy strlen memcpy copy_loop end_walk cmdline_get_value value_walk strcmp
second_value-found = refl

parse_cmdline-Found_example :
    Returns
      (λ (s : Parser). Found ((97 ∷ [], 98 ∷ []) ∷ (99 ∷ [], 100 ∷ []) ∷ []) 0 s × (s.p ≡ 1))
      (parse_cmdline 9 200 100 no_args memory)
parse_cmdline-Found_example =
    parse_cmdline-Found 8 200 100 no_args memory line (97 ∷ []) (98 ∷ []) ((99 ∷ [], 100 ∷ []) ∷ [])
      (
        refl,
        omega arith,
        (
          refl,
          omega arith,
          (
            refl,
            omega arith,
            (
              refl,
              omega arith,
              (refl, omega arith, (refl, omega arith, (refl, omega arith, refl))),
            ),
          ),
        ),
      )
      (
        omega arith,
        (omega arith, tt),
        (refl, omega arith, omega arith, tt),
        refl,
        (refl, omega arith, omega arith, tt),
        refl,
        (
          omega arith,
          (omega arith, tt),
          (refl, omega arith, omega arith, tt),
          refl,
          (refl, omega arith, omega arith, tt),
          refl,
          tt,
        ),
      )
      refl (omega arith) (omega arith) refl (inr (omega arith))

-- what the parser leaves for this line, and "c" at 50
abbrev table : Parser
table = record {
  mem = λ a.
      if a == 200
      then 97
      else if a == 202
      then 98
      else if a == 204
      then 99
      else if a == 206
      then 100
      else if a == 50
      then 99
      else 0;
  args =
      λ i. if i == 0 then record { key = 200; value = 202 } else record { key = 204; value = 206 };
  i = 7;
  p = 1;
  key = 204;
  value = 206;
}

cmdline_get_value-lookup_example :
    Returns
      (IsAnswer (lookup (99 ∷ []) ((97 ∷ [], 98 ∷ []) ∷ (99 ∷ [], 100 ∷ []) ∷ [])) table)
      (cmdline_get_value 9 table 50)
cmdline_get_value-lookup_example =
    cmdline_get_value-lookup 9 table 50 (99 ∷ []) ((97 ∷ [], 98 ∷ []) ∷ (99 ∷ [], 100 ∷ []) ∷ [])
      (
        (refl, omega arith, refl),
        (refl, omega arith, refl),
        ((refl, omega arith, refl), (refl, omega arith, refl), tt),
      )
      (omega arith, omega arith, (omega arith, omega arith, tt)) refl (omega arith)
      (λ x. ground arith) (refl, omega arith, refl)
