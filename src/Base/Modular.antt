-- ===== src/Base/Modular.antt =====
-- Products modulo the range of a word.
use Prim.Native.Nat.{ℕ, ◌+◌, ◌*◌, ◌/◌, ◌%◌}
use mathlib.Core.Path.{◌≡◌, ap, sym, ◌∙◌}
use native.Mathlib.Nat.{
  mod-add-div, add-mul-mod_self_left, add-mul, mul_assoc, mul_comm, mod-add-mod, add-mod-mod,
}

-- a factor may be reduced
pub mul-mod : (a x m : ℕ) → (a % m) * x % m ≡ a * x % m
mul-mod a x m =
    let whole : (a % m + m * (a / m)) * x ≡ a % m * x + m * (a / m * x) =
      add-mul (a % m) (m * (a / m)) x ∙ ap (λ (t : ℕ). a % m * x + t) (mul_assoc m (a / m) x) in
    sym (
      ap (λ (t : ℕ). t * x % m) (sym (mod-add-div a m))
      ∙ ap (λ (t : ℕ). t % m) whole
      ∙ add-mul-mod_self_left (a % m * x) m (a / m * x))

-- a sum with a factor that was reduced
pub add-mul-mod : (a b t m : ℕ) → (a % m + b * (t % m)) % m ≡ (a + b * t) % m
add-mul-mod a b t m =
    let product : b * (t % m) % m ≡ b * t % m =
      ap (λ (u : ℕ). u % m) (mul_comm b (t % m))
      ∙ mul-mod t b m
      ∙ ap (λ (u : ℕ). u % m) (mul_comm t b) in
    mod-add-mod a m (b * (t % m))
    ∙ sym (add-mod-mod a (b * (t % m)) m)
    ∙ ap (λ (u : ℕ). (a + u) % m) product
    ∙ add-mod-mod a (b * t) m
