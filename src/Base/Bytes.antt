-- ===== src/Base/Bytes.antt =====
-- Facts on bytes that are checked at every value, and updates of an array.
use Prim.Native.Nat.{ℕ, zero, suc, ◌<◌}
use mathlib.Core.Path.{◌≡◌}
use mathlib.Core.Bool.{Bool, true, false}
use native.Mathlib.Omega.{arith}
use tempos.Base.Tests.{◌==◌, if◌then◌else◌}

-- `p` is true at every number below the bound
unfoldable pub every : (ℕ → Bool) → ℕ → Bool
every p zero = true
every p (suc bound) = let below = every p bound in if p bound then below else false

pub every_sound :
    (p : ℕ → Bool) (bound : ℕ) → every p bound ≡ true → (x : ℕ) → x < bound → p x ≡ true
unfolding every
every_sound p zero checked x small = absurd (omega arith)
every_sound p (suc bound) checked x small =
    let below : every p bound ≡ true → x < bound → p x ≡ true = λ c l. every_sound p bound c x l in
    ground (arith, below)

-- `a[i] = v`
abbrev pub update {ℓ} : {A : Type ℓ} → (ℕ → A) → ℕ → A → ℕ → A
update a i v j = if j == i then v else a j
