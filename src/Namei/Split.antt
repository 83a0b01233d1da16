-- ===== src/Namei/Split.antt =====
-- The components of a path, and the functions on its bytes.
use tempos.Base.{
  ℕ, suc, ◌+◌, ◌-◌, ◌≡◌, ◌≢◌, refl, ap, true, false, List, [], ◌∷◌, ◌++◌, arith, ◌==◌,
  if◌then◌else◌, length, length-append,
}
use mathlib.Core.List.{append_assoc}
use tempos.Namei.{char_at, slice}

-- a path has no zero before its end
abbrev pub NoZero : List ℕ → Type 0
NoZero [] = Unit {0}
NoZero (c ∷ cs) = (c ≢ 0) × NoZero cs

-- the pieces between the slashes; `acc` is the piece so far
abbrev pub split : (acc cs : List ℕ) → List (List ℕ)
split acc [] = acc ∷ []
split acc (c ∷ cs) = if c == 47 then acc ∷ split [] cs else split (acc ++ (c ∷ [])) cs

char_at-done : (xs ys : List ℕ) → char_at (xs ++ ys) (length xs) ≡ char_at ys 0
unfolding char_at
char_at-done [] ys = refl
char_at-done (x ∷ xs) ys = char_at-done xs ys

pub char_at-nil : char_at [] 0 ≡ 0
unfolding char_at
char_at-nil = refl

pub char_at-cons : (c : ℕ) (cs : List ℕ) → char_at (c ∷ cs) 0 ≡ c
unfolding char_at
char_at-cons c cs = refl

pub char_at-middle :
    (done acc rest : List ℕ)
    → char_at (done ++ (acc ++ rest)) (length done + length acc) ≡ char_at rest 0
char_at-middle done acc rest =
    rw (← append_assoc done acc rest, ← length-append done acc) (char_at-done (done ++ acc) rest)

pub length_back : (done acc : List ℕ) → length done + length acc - length done ≡ length acc
length_back done acc = omega arith

slice-front : (xs ys : List ℕ) → slice (xs ++ ys) 0 (length xs) ≡ xs
unfolding slice
slice-front [] ys = refl
slice-front (x ∷ xs) ys = ap (λ (t : List ℕ). x ∷ t) (slice-front xs ys)

slice-zero : (cs : List ℕ) (start : ℕ) → slice cs start 0 ≡ []
unfolding slice
slice-zero [] start = refl
slice-zero (c ∷ cs) start = refl

pub slice-middle :
    (done acc rest : List ℕ) → slice (done ++ (acc ++ rest)) (length done) (length acc) ≡ acc
unfolding slice
slice-middle [] acc rest = slice-front acc rest
slice-middle (x ∷ done) [] rest = slice-zero (x ∷ (done ++ rest)) (suc (length done))
slice-middle (x ∷ done) (a ∷ acc) rest = slice-middle done (a ∷ acc) rest

-- a byte that moves from the rest into the piece, and behind the loop
pub push : (acc : List ℕ) (c : ℕ) (rest : List ℕ) → acc ++ (c ∷ rest) ≡ (acc ++ (c ∷ [])) ++ rest
push [] c rest = refl
push (a ∷ acc) c rest = ap (λ (t : List ℕ). a ∷ t) (push acc c rest)

pub push_done :
    (done acc : List ℕ) (c : ℕ) (rest : List ℕ)
    → done ++ (acc ++ (c ∷ rest)) ≡ (done ++ (acc ++ (c ∷ []))) ++ rest
push_done [] acc c rest = push acc c rest
push_done (d ∷ done) acc c rest = ap (λ (t : List ℕ). d ∷ t) (push_done done acc c rest)

pub length_with :
    (done acc : List ℕ) (c : ℕ) → length (done ++ (acc ++ (c ∷ []))) ≡ length done + length acc + 1
length_with done acc c =
    omega (arith, length-append done (acc ++ (c ∷ [])), length-append acc (c ∷ []))

pub split-slash :
    (acc : List ℕ) (c : ℕ) (rest : List ℕ)
    → (c == 47) ≡ true
    → split acc (c ∷ rest) ≡ acc ∷ split [] rest
split-slash acc c rest slash = rw slash refl

pub split-other :
    (acc : List ℕ) (c : ℕ) (rest : List ℕ)
    → (c == 47) ≡ false
    → split acc (c ∷ rest) ≡ split (acc ++ (c ∷ [])) rest
split-other acc c rest other = rw other refl
