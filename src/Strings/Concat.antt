-- ===== src/Strings/Concat.antt =====
-- strcat.
use tempos.Base.{
  ℕ, zero, suc, ◌+◌, ◌<◌, ◌≤◌, ◌≡◌, refl, ◌⊎◌, false, List, [], ◌∷◌, ◌++◌, arith, length, ==_of_ne,
  update, Returns, returns, Returns-bind, Returns-mono,
}
use tempos.Strings.{Bytes, append_walk, strcat}
use tempos.Strings.Scan.{IsString, end_walk-length}
use tempos.Strings.Copy.{within}

pub IsString-same :
    (m m' : Bytes) (s : ℕ) (bs : List ℕ)
    → IsString m s bs
    → ((a : ℕ) → s ≤ a → a ≤ s + length bs → m' a ≡ m a)
    → IsString m' s bs
IsString-same m m' s [] i same = ground (arith, same s)
IsString-same m m' s (b ∷ bs) i same = (
  ground (arith, same s, i.0),
  i.1,
  IsString-same m m' (s + 1) bs i.2 (λ a p q. same a (omega arith) (omega arith)),
)

-- the string at `d`, and what lies outside of it as before
abbrev Written : (m : Bytes) (d : ℕ) → List ℕ → Bytes → Type 0
Written m d bs m' = IsString m' d bs × ((a : ℕ) → within d (suc (length bs)) a ≡ false → m' a ≡ m a)

append_walk-Written :
    (k : ℕ) (m : Bytes) (pdest src : ℕ) (bs : List ℕ)
    → IsString m src bs
    → length bs < k
    → ((src + length bs < pdest) ⊎ (pdest + length bs < src))
    → Returns (Written m pdest bs) (append_walk k m pdest src)
unfolding append_walk
append_walk-Written zero m pdest src bs i fuel apart = absurd (omega arith)
append_walk-Written (suc k) m pdest src [] i fuel apart =
    rw i (returns (ground arith, λ a o. ground arith))
append_walk-Written (suc k) m pdest src (b ∷ bs) i fuel apart =
    let m1 : Bytes = update m pdest b in
    let i' = IsString-same m m1 (src + 1) bs i.2 (λ a p q. ground (arith, apart)) in
    let rest =
      append_walk-Written k m1 (pdest + 1) (src + 1) bs i' (omega arith) (ground (arith, apart)) in
    rw (i.0, ==_of_ne b 0 i.1)
      (Returns-mono rest
        (λ m' w. ((ground (arith, w.1 pdest), i.1, w.0), λ a o. ground (arith, w.1 a))))

IsString-append :
    (m : Bytes) (s : ℕ) (xs ys : List ℕ) (m0 : Bytes)
    → IsString m0 s xs
    → ((a : ℕ) → s ≤ a → a < s + length xs → m a ≡ m0 a)
    → IsString m (s + length xs) ys
    → IsString m s (xs ++ ys)
IsString-append m s [] ys m0 i same j = let e : s + 0 ≡ s = omega arith in rw e at j
IsString-append m s (x ∷ xs) ys m0 i same j =
    let e : s + suc (length xs) ≡ s + 1 + length xs = omega arith in
    (
      ground (arith, same s, i.0),
      i.1,
      IsString-append m (s + 1) xs ys m0 i.2 (λ a p q. same a (omega arith) (omega arith))
          (rw e at j),
    )

-- Where the source does not overlap with the result, `strcat` returns the destination and leaves there the
-- string of the destination followed by that of the source.
pub strcat-append :
    (k : ℕ) (m : Bytes) (dest src : ℕ) (xs ys : List ℕ)
    → IsString m dest xs
    → IsString m src ys
    → length xs + length ys < k
    → ((src + length ys < dest) ⊎ (dest + length xs + length ys < src))
    → Returns (λ (r, m'). (r ≡ dest) × IsString m' dest (xs ++ ys)) (strcat k m dest src)
unfolding strcat
strcat-append k m dest src xs ys i j fuel apart =
    let written =
      append_walk-Written k m (dest + length xs) src ys j (omega arith) (ground (arith, apart)) in
    rw (end_walk-length k m dest xs i (omega arith)) (
      Returns-bind written (λ m' w.
        returns (refl, IsString-append m' dest xs ys m i (λ a p q. w.1 a (ground arith)) w.0)))
