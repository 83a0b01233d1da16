-- ===== src/Locks.antt =====
-- kernel/lib/semaphore.c with kernel/arch/x86/kernel/atomic.c: a mutex as steps of processes. Each
-- instruction that touches the mutex is a step of its own; cli and sti bracket the load alone.
pub mod Count
mod Tests
use tempos.Base.{
  ℕ, ◌+◌, ◌-◌, ◌%◌, ◌^◌, ◌≢◌, Option, none, some, List, [], ◌∷◌, ◌++◌, ltb, if◌then◌else◌,
}

-- `mutex_init`: the C result and the value of the mutex; `none` is a NULL pointer
pub mutex_init : Option ℕ → ℕ × Option ℕ
mutex_init none = (2 ^ 32 - 1, none)
mutex_init (some mutex) = (0, some 1)

unfoldable pub mutex_is_locked : (mutex : ℕ) → ℕ
mutex_is_locked mutex = if ltb 0 mutex then 1 else 0

-- where a process stands: outside, at the load of `_spin_loop`, behind its jecxz, and behind mutex_spin_down
pub data Place : Type 0 where
  outside spinning loaded inside : Place

-- the instructions: from a value of the mutex and a place to the next
pub data Moves : ℕ → Place → ℕ → Place → Type 0 where
  mutex_spin_down : {v : ℕ} → Moves v outside v spinning
  spin_loop : Moves 0 spinning 0 spinning
  see : {v : ℕ} → v ≢ 0 → Moves v spinning v loaded
  decl : {v : ℕ} → Moves v loaded ((v + 2 ^ 32 - 1) % 2 ^ 32) inside
  mutex_up : {v : ℕ} → Moves v inside ((v + 1) % 2 ^ 32) outside

-- one process moves
pub data Step : ℕ × List Place → ℕ × List Place → Type 0 where
  step :
      {v v' : ℕ} {p p' : Place} (ps qs : List Place)
      → Moves v p v' p'
      → Step (v, ps ++ (p ∷ qs)) (v', ps ++ (p' ∷ qs))

pub data Steps : ℕ × List Place → ℕ × List Place → Type 0 where
  stop : {s : ℕ × List Place} → Steps s s
  then : {s t u : ℕ × List Place} → Steps s t → Step t u → Steps s u
