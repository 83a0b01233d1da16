-- ===== src/Base/Outcome.antt =====
-- The outcome of C code: a value, an access that C leaves undefined, or a loop that used up the
-- rounds it was given.
use mathlib.Core.Path.{◌≡◌, refl}

pub data Res {ℓ} (A : Type ℓ) : Type ℓ where
  ok : A → Res A
  fault : Res A
  out_of_fuel : Res A

infixl 5 ◌>>=◌
abbrev pub ◌>>=◌ {ℓ κ} : {A : Type ℓ} {B : Type κ} → Res A → (A → Res B) → Res B
ok a >>= f = f a
fault >>= f = fault
out_of_fuel >>= f = out_of_fuel

-- The code returns, and what it returns has the property `P`.
pub data Returns {ℓ κ} {A : Type ℓ} (P : A → Type κ) : Res A → Type (ℓ ⊔ κ) where
  returns : {a : A} → P a → Returns P (ok a)

module _ {ℓ κ} {A : Type ℓ} {P : A → Type κ} where
  pub Returns-bind {μ ν} :
      {B : Type μ} {Q : B → Type ν} {r : Res A} {f : A → Res B}
      → Returns P r
      → ((a : A) → P a → Returns Q (f a))
      → Returns Q (r >>= f)
  Returns-bind (returns p) next = next _ p

  pub Returns-mono {ν} :
      {Q : A → Type ν} {r : Res A} → Returns P r → ((a : A) → P a → Q a) → Returns Q r
  Returns-mono (returns p) weaken = returns (weaken _ p)

  -- An outcome that is decided whatever is returned.
  pub Returns-then {μ} :
      {B : Type μ} {r : Res A} {f : A → Res B} (b : Res B)
      → Returns P r
      → ((a : A) → P a → f a ≡ b)
      → (r >>= f) ≡ b
  Returns-then b (returns p) next = next _ p

  pub Returns-ok : {r : Res A} → Returns P r → (a : A) × (r ≡ ok a) × P a
  Returns-ok (returns p) = (_, refl, p)
