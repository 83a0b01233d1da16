-- ===== src/Strings/Scan.antt =====
-- strlen, strspn and strcspn.
use tempos.Base.{
  ℕ, zero, suc, ◌+◌, ◌-◌, ◌<◌, ◌≡◌, refl, ◌≢◌, Bool, false, ◌||◌, List, [], ◌∷◌, arith, length,
  ◌==◌, if◌then◌else◌, ==_of_ne, ok,
}
use tempos.Strings.{Bytes, end_walk, strlen, member_walk, span_walk, strspn, cspan_walk, strcspn}

-- At `s` the memory has the string of these bytes, none of which is 0, and a 0 behind them.
abbrev pub IsString : Bytes → (s : ℕ) → List ℕ → Type 0
IsString m s [] = m s ≡ 0
IsString m s (b ∷ bs) = (m s ≡ b) × (b ≢ 0) × IsString m (s + 1) bs

pub end_walk-length :
    (k : ℕ) (m : Bytes) (s : ℕ) (bs : List ℕ)
    → IsString m s bs
    → length bs < k
    → end_walk k m s ≡ ok (s + length bs)
unfolding end_walk
end_walk-length zero m s bs i fuel = absurd (omega arith)
end_walk-length (suc k) m s [] i fuel = ground arith
end_walk-length (suc k) m s (b ∷ bs) i fuel =
    let rest = end_walk-length k m (s + 1) bs i.2 (omega arith) in ground (arith, rest)

-- `strlen` returns the number of bytes before the 0.
pub strlen-length :
    (k : ℕ) (m : Bytes) (s : ℕ) (bs : List ℕ)
    → IsString m s bs
    → length bs < k
    → strlen k m s ≡ ok (length bs)
unfolding strlen
strlen-length k m s bs i fuel =
    let e : s + length bs - s ≡ length bs = omega arith in
    rw (end_walk-length k m s bs i fuel, e) refl

abbrev pub among : ℕ → List ℕ → Bool
among c [] = false
among c (b ∷ bs) = c == b || among c bs

member_walk-among :
    (k : ℕ) (m : Bytes) (c p : ℕ) (bs : List ℕ)
    → IsString m p bs
    → length bs < k
    → c ≢ 0
    → member_walk k m c p ≡ ok (if among c bs then c else 0)
unfolding member_walk
member_walk-among zero m c p bs i fuel ne = absurd (omega arith)
member_walk-among (suc k) m c p [] i fuel ne = ground arith
member_walk-among (suc k) m c p (b ∷ bs) i fuel ne =
    let rest = member_walk-among k m c (p + 1) bs i.2 (omega arith) ne in ground (arith, rest)

-- the length of the longest beginning with bytes of `set` only
abbrev pub span : (set : List ℕ) → List ℕ → ℕ
span set [] = 0
span set (b ∷ bs) = if among b set then suc (span set bs) else 0

-- the length of the longest beginning without a byte of `set`
abbrev pub cspan : (set : List ℕ) → List ℕ → ℕ
cspan set [] = 0
cspan set (b ∷ bs) = if among b set then 0 else suc (cspan set bs)

span_walk-span :
    (k : ℕ) (m : Bytes) (s accept : ℕ) (bs set : List ℕ)
    → IsString m s bs
    → IsString m accept set
    → length bs + length set < k
    → span_walk k m s accept ≡ ok (s + span set bs)
unfolding span_walk
span_walk-span zero m s accept bs set i j fuel = absurd (omega arith)
span_walk-span (suc k) m s accept [] set i j fuel = ground arith
span_walk-span (suc k) m s accept (b ∷ bs) set i j fuel =
    let rest = span_walk-span k m (s + 1) accept bs set i.2 j (omega arith) in
    let found = member_walk-among k m b accept set j (omega arith) i.1 in
    rw (i.0, ==_of_ne b 0 i.1, found, rest) (ground arith)

-- `strspn` returns the length of the longest beginning of the string with bytes of `accept` only.
pub strspn-span :
    (k : ℕ) (m : Bytes) (s accept : ℕ) (bs set : List ℕ)
    → IsString m s bs
    → IsString m accept set
    → length bs + length set < k
    → strspn k m s accept ≡ ok (span set bs)
unfolding strspn
strspn-span k m s accept bs set i j fuel =
    let e : s + span set bs - s ≡ span set bs = omega arith in
    rw (span_walk-span k m s accept bs set i j fuel, e) refl

cspan_walk-cspan :
    (k : ℕ) (m : Bytes) (s reject n : ℕ) (bs set : List ℕ)
    → IsString m (s + n) bs
    → IsString m reject set
    → length bs + length set < k
    → cspan_walk k m s reject n ≡ ok (n + cspan set bs)
unfolding cspan_walk
cspan_walk-cspan zero m s reject n bs set i j fuel = absurd (omega arith)
cspan_walk-cspan (suc k) m s reject n [] set i j fuel = ground arith
cspan_walk-cspan (suc k) m s reject n (b ∷ bs) set i j fuel =
    let e : s + n + 1 ≡ s + (n + 1) = omega arith in
    let rest = cspan_walk-cspan k m s reject (n + 1) bs set (rw e at i.2) j (omega arith) in
    let found = member_walk-among k m b reject set j (omega arith) i.1 in
    rw (i.0, ==_of_ne b 0 i.1, found, rest) (ground arith)

-- `strcspn` returns the length of the longest beginning of the string without a byte of `reject`.
pub strcspn-cspan :
    (k : ℕ) (m : Bytes) (s reject : ℕ) (bs set : List ℕ)
    → IsString m s bs
    → IsString m reject set
    → length bs + length set < k
    → strcspn k m s reject ≡ ok (cspan set bs)
unfolding strcspn
strcspn-cspan k m s reject bs set i j fuel =
    let e : s ≡ s + 0 = omega arith in
    let i' : IsString m (s + 0) bs = rw e at i in
    let z : 0 + cspan set bs ≡ cspan set bs = omega arith in
    rw z at (cspan_walk-cspan k m s reject 0 bs set i' j fuel)
