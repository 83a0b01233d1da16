-- ===== src/Ring/Links.antt =====
-- Chains of links, and what they do not depend on.
use tempos.Base.{ℕ, ◌≡◌, refl, ◌≢◌, Bool, true, false, ◌||◌, List, [], ◌∷◌, ◌++◌, arith, ◌==◌}

abbrev pub mem : ℕ → List ℕ → Bool
mem x [] = false
mem x (y ∷ ys) = x == y || mem x ys

abbrev pub Distinct : List ℕ → Type 0
Distinct [] = Unit {0}
Distinct (x ∷ xs) = (mem x xs ≡ false) × Distinct xs

-- From `a` the links lead through `ps` to `z`, and back.
abbrev pub Linked : (nxt prv : ℕ → ℕ) → ℕ → List ℕ → ℕ → Type 0
Linked nxt prv a [] z = (nxt a ≡ z) × (prv z ≡ a)
Linked nxt prv a (p ∷ ps) z = (nxt a ≡ p) × (prv p ≡ a) × Linked nxt prv p ps z

-- The nodes `ps` are in the circular list with the head `h`, in this order.
abbrev pub Ring : (nxt prv : ℕ → ℕ) → ℕ → List ℕ → Type 0
Ring nxt prv h ps = Linked nxt prv h ps h × Distinct (h ∷ ps)

pub mem-append : (x : ℕ) (xs ys : List ℕ) → mem x (xs ++ ys) ≡ (mem x xs || mem x ys)
mem-append x [] ys = refl
mem-append x (y ∷ xs) ys = ground (arith, mem-append x xs ys)

pub Linked-same :
    (nxt prv nxt' prv' : ℕ → ℕ) (a : ℕ) (ps : List ℕ) (z : ℕ)
    → Linked nxt prv a ps z
    → ((x : ℕ) → mem x (a ∷ ps) ≡ true → nxt' x ≡ nxt x)
    → ((x : ℕ) → mem x (z ∷ ps) ≡ true → prv' x ≡ prv x)
    → Linked nxt' prv' a ps z
Linked-same nxt prv nxt' prv' a [] z l n p = ground (arith, n a, p z)
Linked-same nxt prv nxt' prv' a (q ∷ ps) z l n p = (
  ground (arith, n a),
  ground (arith, p q),
  Linked-same nxt prv nxt' prv' q ps z l.2 (λ x m. n x (ground arith)) (λ x m. p x (ground arith)),
)

-- A chain through `p` is a chain up to `p` and one from it.
pub Linked-split :
    (nxt prv : ℕ → ℕ) (a : ℕ) (xs : List ℕ) (p : ℕ) (ys : List ℕ) (z : ℕ)
    → Linked nxt prv a (xs ++ (p ∷ ys)) z
    → Linked nxt prv a xs p × Linked nxt prv p ys z
Linked-split nxt prv a [] p ys z l = ((l.0, l.1), l.2)
Linked-split nxt prv a (x ∷ xs) p ys z l =
    let (front, back) = Linked-split nxt prv x xs p ys z l.2 in ((l.0, l.1, front), back)

pub Linked-join :
    (nxt prv : ℕ → ℕ) (a : ℕ) (xs : List ℕ) (p : ℕ) (ys : List ℕ) (z : ℕ)
    → Linked nxt prv a xs p
    → Linked nxt prv p ys z
    → Linked nxt prv a (xs ++ (p ∷ ys)) z
Linked-join nxt prv a [] p ys z front back = (front.0, front.1, back)
Linked-join nxt prv a (x ∷ xs) p ys z front back =
    (front.0, front.1, Linked-join nxt prv x xs p ys z front.2 back)

-- where the first link of a chain leads, and where the last one comes from
pub nxt-mem :
    (nxt prv : ℕ → ℕ) (a : ℕ) (ps : List ℕ) (z : ℕ)
    → Linked nxt prv a ps z
    → mem (nxt a) (z ∷ ps) ≡ true
nxt-mem nxt prv a [] z l = ground arith
nxt-mem nxt prv a (p ∷ ps) z l = ground arith

pub prv-mem :
    (nxt prv : ℕ → ℕ) (a : ℕ) (ps : List ℕ) (z : ℕ)
    → Linked nxt prv a ps z
    → mem (prv z) (a ∷ ps) ≡ true
prv-mem nxt prv a [] z l = ground arith
prv-mem nxt prv a (p ∷ ps) z l = ground (arith, prv-mem nxt prv p ps z l.2)

pub mem-ne : (x y : ℕ) (ps : List ℕ) → mem x ps ≡ true → mem y ps ≡ false → x ≢ y
mem-ne x y ps m o e = let o' : mem x ps ≡ false = rw e o in cc (m, o')
