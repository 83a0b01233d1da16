-- ===== src/Strings/Compare.antt =====
-- strcmp.
use tempos.Base.{
  ℕ, zero, suc, ◌+◌, ◌<◌, ◌≡◌, refl, List, [], ◌∷◌, arith, length, ◌==◌, if◌then◌else◌, ==_of_ne,
  ok,
}
use tempos.Strings.{Bytes, byte_diff, strcmp}
use tempos.Strings.Scan.{IsString}

-- the difference of the first bytes that differ, where the end counts as the byte 0
abbrev pub first_diff : List ℕ → List ℕ → ℕ
first_diff [] [] = 0
first_diff [] (c ∷ cs) = byte_diff 0 c
first_diff (b ∷ bs) [] = byte_diff b 0
first_diff (b ∷ bs) (c ∷ cs) = if b == c then first_diff bs cs else byte_diff b c

-- `strcmp` returns the difference of the first bytes in which the strings differ, as unsigned bytes, and 0
-- where they do not differ.
pub strcmp-first_diff :
    (k : ℕ) (m : Bytes) (s1 s2 : ℕ) (bs cs : List ℕ)
    → IsString m s1 bs
    → IsString m s2 cs
    → length bs < k
    → strcmp k m s1 s2 ≡ ok (first_diff bs cs)
unfolding strcmp
strcmp-first_diff zero m s1 s2 bs cs i j fuel = absurd (omega arith)
strcmp-first_diff (suc k) m s1 s2 [] [] i j fuel = rw (i, j) refl
strcmp-first_diff (suc k) m s1 s2 [] (c ∷ cs) i j fuel = rw (i, j.0) (ground (arith, j.1))
strcmp-first_diff (suc k) m s1 s2 (b ∷ bs) [] i j fuel = rw (i.0, j) (ground (arith, i.1))
strcmp-first_diff (suc k) m s1 s2 (b ∷ bs) (c ∷ cs) i j fuel =
    let rest = strcmp-first_diff k m (s1 + 1) (s2 + 1) bs cs i.2 j.2 (omega arith) in
    rw (i.0, j.0, rest, ==_of_ne b 0 i.1) (ground arith)
