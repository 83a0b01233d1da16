-- ===== src/Strings/Tests.antt =====
-- The theorems on strings at "ab" and "bc".
use tempos.Base.{◌≡◌, [], ◌∷◌, arith, ok, update}
use tempos.Strings.{Bytes, strcmp}
use tempos.Strings.Scan.{IsString}
use tempos.Strings.Compare.{strcmp-first_diff}

-- "ab" at 10 and "bc" at 20
abbrev bytes : Bytes
bytes = update (update (update (update (λ a. 0) 10 97) 11 98) 20 98) 21 99

ab-IsString : IsString bytes 10 (97 ∷ 98 ∷ [])
ab-IsString = ground arith

bc-IsString : IsString bytes 20 (98 ∷ 99 ∷ [])
bc-IsString = ground arith

strcmp-first_diff_example : strcmp 3 bytes 10 20 ≡ ok 4294967295
strcmp-first_diff_example =
    strcmp-first_diff 3 bytes 10 20 (97 ∷ 98 ∷ []) (98 ∷ 99 ∷ []) ab-IsString bc-IsString
      (omega arith)
