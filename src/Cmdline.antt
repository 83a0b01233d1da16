-- ===== src/Cmdline.antt =====
-- kernel/kernel/cmdline.c: the parser of the line of arguments from the boot loader, over the memory of bytes. The copy of the line stands at
-- `str`; a loop has `k` rounds; an access to `cmdline_args` out of its bounds is a fault.
pub mod Line
pub mod Rounds
pub mod Found
pub mod Parse
pub mod Value
mod Tests
use tempos.Base.{
  ℕ, zero, suc, ◌+◌, Bool, true, false, ◌||◌, ◌==◌, ltb, if◌then◌else◌, update, Res, ok, fault,
  out_of_fuel, ◌>>=◌,
}
use tempos.Strings.{Bytes, strlen, strcpy, strcmp}

-- `cmdline_arg_t`
pub record Arg : Type 0 where
  pub key : ℕ
  pub value : ℕ

-- the variables of parse_cmdline, with `cmdline_args` and the memory
pub record Parser : Type 0 where
  pub mem : Bytes
  pub args : ℕ → Arg
  pub i : ℕ
  pub p : ℕ
  pub key : ℕ
  pub value : ℕ

-- while(cmdline_str[i] == ' ') i++;
pub skip_blanks : (k : ℕ) → Bytes → (str i : ℕ) → Res ℕ
skip_blanks zero m str i = out_of_fuel
skip_blanks (suc k) m str i =
    let rest = skip_blanks k m str (i + 1) in if m (str + i) == 32 then rest else ok i

-- while(cmdline_str[i] != ' ' && cmdline_str[i] != '\0') i++;
pub skip_value : (k : ℕ) → Bytes → (str i : ℕ) → Res ℕ
skip_value zero m str i = out_of_fuel
skip_value (suc k) m str i =
    let rest = skip_value k m str (i + 1) in
    if m (str + i) == 32 || (m (str + i) == 0) then ok i else rest

-- a write to `cmdline_args[p]`
pub set_arg : (p : ℕ) → Arg → (ℕ → Arg) → Res (ℕ → Arg)
set_arg p a args = if ltb p 50 then ok (update args p a) else fault

-- the body of `if (cmdline_str[i] == '=')`
pub take_value : (k str : ℕ) → Parser → Res Parser
unfolding skip_value set_arg
take_value k str s = do
  let m = update s.mem (str + s.i) 0
  let value = str + (s.i + 1)
  i ← skip_value k m str (s.i + 1)
  args ← set_arg s.p (record { key = s.key; value = value }) s.args
  ok (record s { mem = update m (str + i) 0; args = args; i = i; value = value })

-- the body of the other test, with the `i++` behind it
pub end_arg : (k str : ℕ) → Parser → Res Parser
unfolding skip_blanks set_arg
end_arg k str s = do
  let m = update s.mem (str + s.i) 0
  i ← skip_blanks k m str (s.i + 1)
  args ← set_arg s.p (record (s.args s.p) { value = s.value }) s.args
  ok (record s { mem = m; args = args; i = i + 1; p = s.p + 1; key = str + i })

-- a round of the loop
pub parse_round : (k str : ℕ) → Parser → Res Parser
unfolding take_value end_arg
parse_round k str s =
    let c = s.mem (str + s.i) in
    if c == 61
    then take_value k str s
    else (if c == 32 || (c == 0) then end_arg k str s else ok (record s { i = s.i + 1 }))

-- while(i < len)
pub parse_loop : (n k str len : ℕ) → Parser → Res Parser
parse_loop zero k str len s = if ltb s.i len then out_of_fuel else ok s
parse_loop (suc n) k str len s =
    let rest = parse_round k str s >>= λ s'. parse_loop n k str len s' in
    if ltb s.i len then rest else ok s

-- `p` of the result is what is returned, and `cmdline_argc`
pub parse_cmdline : (k str cmdline : ℕ) → (ℕ → Arg) → Bytes → Res Parser
unfolding parse_loop skip_blanks
parse_cmdline k str cmdline args m = do
  (_, m) ← strcpy k m str cmdline
  len ← strlen k m str
  i ← skip_blanks k m str 0
  parse_loop k k str len
      (record { mem = m; args = args; i = i; p = 0; key = str + i; value = str + i })

-- the loop of cmdline_get_value, `n` rounds from `i` on
pub value_walk : (n i k : ℕ) → Bytes → (ℕ → Arg) → (key : ℕ) → Res ℕ
value_walk zero i k m args key = ok 0
value_walk (suc n) i k m args key =
    let rest = value_walk n (i + 1) k m args key in
    let found = strcmp k m (args i).key key >>= λ d. if d == 0 then ok (args i).value else rest in
    if ltb i 50 then (if (args i).key == 0 then rest else found) else fault

pub cmdline_get_value : (k : ℕ) → Parser → (key : ℕ) → Res ℕ
unfolding value_walk
cmdline_get_value k s key = value_walk (s.p + 1) 0 k s.mem s.args key
