-- ===== src/Cmdline/Value.antt =====
-- The search for the value of a key in the table of arguments.
use tempos.Base.{
  ℕ, ◌+◌, ◌^◌, ◌<◌, ◌≤◌, ◌≡◌, ◌≢◌, inl, inr, refl, Bool, Bool-cases, true, false, ◌&&◌, Option,
  none, some, List, [], ◌∷◌, arith, length, ◌==◌, ==_of_ne, ltb, if◌then◌else◌, Returns, returns,
}
use tempos.Strings.{Bytes}
use tempos.Strings.Scan.{IsString}
use tempos.Strings.Compare.{first_diff, strcmp-first_diff}
use tempos.Cmdline.{Parser, value_walk, cmdline_get_value}
use tempos.Cmdline.Found.{Found}

abbrev pub same_bytes : List ℕ → List ℕ → Bool
same_bytes [] [] = true
same_bytes [] (c ∷ cs) = false
same_bytes (b ∷ bs) [] = false
same_bytes (b ∷ bs) (c ∷ cs) = (b == c) && same_bytes bs cs

-- the value of the first argument with this key
abbrev pub lookup : (key : List ℕ) → List (List ℕ × List ℕ) → Option (List ℕ)
lookup key [] = none
lookup key ((k, v) ∷ rest) = if same_bytes k key then some v else lookup key rest

-- the pointer to a value, or NULL
abbrev pub IsAnswer : Option (List ℕ) → Parser → ℕ → Type 0
IsAnswer none s r = r ≡ 0
IsAnswer (some v) s r = IsString s.mem r v

-- the keys from `i` on have an address and less than `k` bytes
abbrev pub HasKeys : (k i : ℕ) → List (List ℕ × List ℕ) → Parser → Type 0
HasKeys k i [] s = Unit {0}
HasKeys k i ((key, v) ∷ rest) s = ((s.args i).key ≢ 0) × (length key < k) × HasKeys k (i + 1) rest s

first_diff-same :
    (m : Bytes) (a b : ℕ) (bs cs : List ℕ)
    → ((x : ℕ) → m x < 2 ^ 8)
    → IsString m a bs
    → IsString m b cs
    → (first_diff bs cs == 0) ≡ same_bytes bs cs
first_diff-same m a b [] [] small i j = refl
first_diff-same m a b [] (c ∷ cs) small i j = ground (arith, small b, j.0, j.1)
first_diff-same m a b (x ∷ bs) [] small i j = ground (arith, small a, i.0, i.1)
first_diff-same m a b (x ∷ bs) (c ∷ cs) small i j =
    let rest = first_diff-same m (a + 1) (b + 1) bs cs small i.2 j.2 in
    elim (Bool-cases (x == c)) [
      | inl same ↦ rw (same, rest) refl
      | inr other ↦ rw other (ground (arith, small a, small b, i.0, j.0))
    ]

value_walk-lookup :
    (i k : ℕ) (s : Parser) (at : ℕ) (key : List ℕ) (l : List (List ℕ × List ℕ))
    → Found l i s
    → HasKeys k i l s
    → i + length l ≤ 50
    → ((x : ℕ) → s.mem x < 2 ^ 8)
    → IsString s.mem at key
    → Returns (IsAnswer (lookup key l) s) (value_walk (length l) i k s.mem s.args at)
unfolding value_walk
value_walk-lookup i k s at key [] found keys few small string = returns refl
value_walk-lookup i k s at key ((k1, v1) ∷ rest) (found_k, found_v, found) (not_null, short, keys)
      few small string =
    let inside : ltb i 50 ≡ true = ground arith in
    let compared = strcmp-first_diff k s.mem (s.args i).key at k1 key found_k string short in
    let same = first_diff-same s.mem (s.args i).key at k1 key small found_k string in
    rw (inside, ==_of_ne _ 0 not_null, compared, same)
      (elim (Bool-cases (same_bytes k1 key)) [
        | inl here ↦ rw here (returns found_v)
        | inr other ↦
            rw other
              (value_walk-lookup (i + 1) k s at key rest found keys (omega arith) small string)
      ])

-- Where the table has at most 50 arguments, each key at an address other than 0, and the number of arguments that the parser kept is one less, the search returns the
-- value of the first argument with the key that is asked for, or NULL where there is none.
pub cmdline_get_value-lookup :
    (k : ℕ) (s : Parser) (at : ℕ) (key : List ℕ) (l : List (List ℕ × List ℕ))
    → Found l 0 s
    → HasKeys k 0 l s
    → s.p + 1 ≡ length l
    → length l ≤ 50
    → ((x : ℕ) → s.mem x < 2 ^ 8)
    → IsString s.mem at key
    → Returns (IsAnswer (lookup key l) s) (cmdline_get_value k s at)
unfolding cmdline_get_value
cmdline_get_value-lookup k s at key l found keys count few small string =
    rw count (value_walk-lookup 0 k s at key l found keys (omega arith) small string)
