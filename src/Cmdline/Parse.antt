-- ===== src/Cmdline/Parse.antt =====
-- The parser ends and stays within its arrays.
use tempos.Base.{
  ℕ, zero, suc, ◌+◌, ◌*◌, ◌<◌, ◌≤◌, ◌≡◌, refl, ◌⊎◌, inl, inr, Bool-cases, true, false, ◌||◌, List,
  [], ◌∷◌, arith, length, ◌==◌, ltb, update, Returns, returns, Returns-bind, Returns-mono,
}
use tempos.Strings.{Bytes}
use tempos.Strings.Scan.{IsString, strlen-length}
use tempos.Strings.Copy.{strcpy-copies}
use tempos.Cmdline.{
  Arg, Parser, skip_blanks, skip_value, set_arg, take_value, end_arg, parse_round, parse_loop,
  parse_cmdline,
}

-- both loops stop at the 0 behind the line at the latest
skip_value-Returns :
    (k : ℕ) (m : Bytes) (str i len : ℕ)
    → m (str + len) ≡ 0
    → i ≤ len
    → len < i + k
    → Returns (λ j. (i ≤ j) × (j ≤ len)) (skip_value k m str i)
unfolding skip_value
skip_value-Returns zero m str i len end inside fuel = absurd (omega arith)
skip_value-Returns (suc k) m str i len end inside fuel =
    elim (Bool-cases (m (str + i) == 32 || (m (str + i) == 0))) [
      | inl stop ↦ rw stop (returns (omega arith, inside))
      | inr on ↦
          let before : i < len = elim (Bool-cases (i == len)) [
            | inl last ↦ absurd (ground arith)
            | inr other ↦ ground arith
          ] in
          rw on (
            Returns-mono (skip_value-Returns k m str (i + 1) len end (omega arith) (omega arith))
              λ j (a, b). (omega arith, b))
    ]

skip_blanks-Returns :
    (k : ℕ) (m : Bytes) (str i len : ℕ)
    → m (str + len) ≡ 0
    → i ≤ len
    → len < i + k
    → Returns (λ j. (i ≤ j) × (j ≤ len)) (skip_blanks k m str i)
unfolding skip_blanks
skip_blanks-Returns zero m str i len end inside fuel = absurd (omega arith)
skip_blanks-Returns (suc k) m str i len end inside fuel = elim (Bool-cases (m (str + i) == 32)) [
  | inl on ↦
      let before : i < len = elim (Bool-cases (i == len)) [
        | inl last ↦ absurd (ground arith)
        | inr other ↦ ground arith
      ] in
      rw on (
        Returns-mono (skip_blanks-Returns k m str (i + 1) len end (omega arith) (omega arith))
          λ j (a, b). (omega arith, b))
  | inr stop ↦ rw stop (returns (omega arith, inside))
]

-- In a round: every argument that was ended took two bytes, nothing outside of the copy of the line has changed, and the 0 behind it stands.
pub record Within (str len : ℕ) (m : Bytes) (s : Parser) : Type 0 where
  pub ended : 2 * s.p ≤ s.i
  pub place : s.i ≤ len + 1
  pub end : s.mem (str + len) ≡ 0
  pub outside : (a : ℕ) → (a < str) ⊎ (str + len < a) → s.mem a ≡ m a

set_arg-Returns :
    (p : ℕ) (a : Arg) (args : ℕ → Arg)
    → p < 50
    → Returns (λ t. t ≡ update args p a) (set_arg p a args)
unfolding set_arg
set_arg-Returns p a args few =
    let inside : ltb p 50 ≡ true = ground arith in rw inside (returns refl)

-- what a round does: it goes on
abbrev Advances : (str len : ℕ) → Bytes → Parser → Parser → Type 0
Advances str len m s s' = Within str len m s' × (s.i < s'.i)

take_value-Returns :
    (k str len : ℕ) (m : Bytes) (s : Parser)
    → len < k
    → len ≤ 98
    → Within str len m s
    → s.i < len
    → Returns (Advances str len m s) (take_value k str s)
unfolding take_value
take_value-Returns k str len m s fuel short w more =
    let ended = w.ended in
    let end = w.end in
    let m1 = update s.mem (str + s.i) 0 in
    Returns-bind
      (skip_value-Returns k m1 str (s.i + 1) len (ground arith) (omega arith) (omega arith))
      λ j (from, to). Returns-bind (set_arg-Returns s.p _ s.args (omega arith)) λ args same.
        returns (
          record {
            ended = omega arith;
            place = omega arith;
            end = ground arith;
            outside = λ a far. ground (arith, w.outside a far);
          },
          omega arith,
        )

end_arg-Returns :
    (k str len : ℕ) (m : Bytes) (s : Parser)
    → len < k
    → len ≤ 98
    → Within str len m s
    → s.i < len
    → Returns (Advances str len m s) (end_arg k str s)
unfolding end_arg
end_arg-Returns k str len m s fuel short w more =
    let ended = w.ended in
    let end = w.end in
    let m1 = update s.mem (str + s.i) 0 in
    Returns-bind
      (skip_blanks-Returns k m1 str (s.i + 1) len (ground arith) (omega arith) (omega arith))
      λ j (from, to). Returns-bind (set_arg-Returns s.p _ s.args (omega arith)) λ args same.
        returns (
          record {
            ended = omega arith;
            place = omega arith;
            end = ground arith;
            outside = λ a far. ground (arith, w.outside a far);
          },
          omega arith,
        )

parse_round-Returns :
    (k str len : ℕ) (m : Bytes) (s : Parser)
    → len < k
    → len ≤ 98
    → Within str len m s
    → s.i < len
    → Returns (Advances str len m s) (parse_round k str s)
unfolding parse_round
parse_round-Returns k str len m s fuel short w more = elim (Bool-cases (s.mem (str + s.i) == 61)) [
  | inl equals ↦ rw equals (take_value-Returns k str len m s fuel short w more)
  | inr other ↦ elim (Bool-cases (s.mem (str + s.i) == 32 || (s.mem (str + s.i) == 0))) [
    | inl blank ↦ rw (other, blank) (end_arg-Returns k str len m s fuel short w more)
    | inr letter ↦
        let ended = w.ended in
        rw (other, letter)
          (returns (
            record { ended = omega arith; place = omega arith; end = w.end; outside = w.outside },
            omega arith,
          ))
  ]
]

parse_loop-Returns :
    (n k str len : ℕ) (m : Bytes) (s : Parser)
    → len < k
    → len ≤ 98
    → len ≤ s.i + n
    → Within str len m s
    → Returns (Within str len m) (parse_loop n k str len s)
unfolding parse_loop
parse_loop-Returns zero k str len m s fuel short rounds w =
    let done : ltb s.i len ≡ false = ground arith in rw done (returns w)
parse_loop-Returns (suc n) k str len m s fuel short rounds w = elim (Bool-cases (ltb s.i len)) [
  | inl more ↦ rw more (
      Returns-bind (parse_round-Returns k str len m s fuel short w (ground arith))
        λ s' (w', next). parse_loop-Returns n k str len m s' fuel short (omega arith) w')
  | inr done ↦ rw done (returns w)
]

-- a string that was copied with the 0 behind it
pub IsString-copied :
    (m m' : Bytes) (src dest : ℕ) (bs : List ℕ)
    → IsString m src bs
    → ((i : ℕ) → i < length bs → m' (dest + i) ≡ m (src + i))
    → m' (dest + length bs) ≡ 0
    → IsString m' dest bs
IsString-copied m m' src dest [] i same end = ground arith
IsString-copied m m' src dest (b ∷ bs) i same end = (
  ground (arith, same 0 (omega arith)),
  i.1,
  IsString-copied m m' (src + 1) (dest + 1) bs i.2
      (λ j within. ground (arith, same (j + 1) (omega arith))) (ground (arith, end)),
)

-- For a line of at most 98 bytes whose copy goes to an array of zeros, with more rounds than bytes, the parser returns: it ended at most 49
-- arguments, every access to the table of arguments was within its 50 entries, the byte behind the copy is 0 and nothing outside of the copy has changed.
pub parse_cmdline-Returns :
    (k str cmdline : ℕ) (args : ℕ → Arg) (m : Bytes) (bs : List ℕ)
    → IsString m cmdline bs
    → length bs ≤ 98
    → length bs < k
    → m (str + length bs) ≡ 0
    → ((str ≤ cmdline) ⊎ (cmdline + length bs ≤ str))
    → Returns (λ s. Within str (length bs) m s × (s.p ≤ 49)) (parse_cmdline k str cmdline args m)
unfolding parse_cmdline
parse_cmdline-Returns k str cmdline args m bs line short fuel clear apart =
    let len = length bs in
    Returns-bind (strcpy-copies k m str cmdline bs line fuel apart) λ (r, m1) (copy, end, same).
      let end1 : m1 (str + len) ≡ 0 = ground arith in
      rw (strlen-length k m1 str bs (IsString-copied m m1 cmdline str bs line copy end1) fuel) (
        Returns-bind (skip_blanks-Returns k m1 str 0 len end1 (omega arith) (omega arith))
          λ i (from, to).
            let s0 : Parser = record {
              mem = m1;
              args = args;
              i = i;
              p = 0;
              key = str + i;
              value = str + i;
            } in
            let w0 : Within str len m s0 = record {
              ended = omega arith;
              place = omega arith;
              end = end1;
              outside =
                  λ a far. same a (elim far [ inl low ↦ inl low | inr high ↦ inr (omega arith) ]);
            } in
            Returns-mono (parse_loop-Returns k k str len m s0 fuel short (omega arith) w0)
              λ s w. let ended = w.ended in let place = w.place in (w, omega arith))
