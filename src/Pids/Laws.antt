-- ===== src/Pids/Laws.antt =====
-- `get_new_pid` and `release_pid`: which numbers are free.
use tempos.Base.{
  ℕ, ◌+◌, ◌-◌, ◌%◌, ◌^◌, ◌<◌, ◌≤◌, ◌≡◌, ◌≢◌, refl, true, arith, ltb, Returns, returns,
}
use tempos.Pids.{Pids, max_num_process, get_new_pid, release_pid}

-- The number stands in the stack.
abbrev pub IsFree : Pids → ℕ → Type 0
IsFree s pid = (i : ℕ) × (i ≤ s.top) × (s.stack i ≡ pid)

-- at least one number is free, and none stands in the stack twice
pub record IsValid (s : Pids) : Type 0 where
  pub within : s.top < max_num_process
  pub distinct : (i j : ℕ) → i < j → j ≤ s.top → s.stack i ≢ s.stack j

-- Where at least two numbers are free, `get_new_pid` returns one that was free and is free no longer;
-- every other free number stays free, and the stack stays valid.
pub get_new_pid-IsFree :
    (s : Pids)
    → IsValid s
    → 0 < s.top
    → Returns
        (λ (pid, s').
          IsFree s pid
          × (IsFree s' pid → ⊥)
          × ((p : ℕ) → p ≢ pid → IsFree s p → IsFree s' p)
          × IsValid s')
        (get_new_pid s)
unfolding get_new_pid
get_new_pid-IsFree s v more =
    let room : ltb s.top max_num_process ≡ true = ground (arith, v.within) in
    let down : (s.top + 2 ^ 32 - 1) % 2 ^ 32 ≡ s.top - 1 = omega (arith, v.within) in
    rw (room, down)
      (returns (
        (s.top, omega arith, refl),
        (λ (i, a, e). v.distinct i s.top (omega arith) (omega arith) e),
        (λ p ne (i, a, e). (i, ground (arith, e), e)),
        record {
          within = omega (arith, v.within);
          distinct = λ i j a b. v.distinct i j a (omega arith);
        },
      ))

-- Where at least one number is free and the stack has room, `release_pid` of a number that is not
-- free makes it free, every free number stays free, and the stack stays valid; the next `get_new_pid`
-- returns that number and leaves the free numbers from before.
pub release_pid-IsFree :
    (pid : ℕ) (s : Pids)
    → IsValid s
    → s.top + 1 < max_num_process
    → (IsFree s pid → ⊥)
    → Returns
        (λ s'.
          IsFree s' pid
          × ((p : ℕ) → IsFree s p → IsFree s' p)
          × IsValid s'
          × Returns
              (λ (q, s'').
                (q ≡ pid) × (s''.top ≡ s.top) × ((i : ℕ) → i ≤ s.top → s''.stack i ≡ s.stack i))
              (get_new_pid s'))
        (release_pid pid s)
unfolding release_pid get_new_pid
release_pid-IsFree pid s v small held =
    let up : (s.top + 1) % 2 ^ 32 ≡ s.top + 1 = omega arith in
    let down : (s.top + 1 + 2 ^ 32 - 1) % 2 ^ 32 ≡ s.top = omega arith in
    let room : ltb (s.top + 1) max_num_process ≡ true = ground arith in
    let apart : (i : ℕ) → i ≤ s.top → s.stack i ≢ pid = λ i a e. held (i, a, e) in
    rw (up, room)
      (returns (
        (s.top + 1, omega arith, ground arith),
        (λ p (i, a, e). (i, omega arith, ground (arith, e))),
        record { within = small; distinct = λ i j a b. ground (arith, v.distinct i j a, apart i) },
        rw (room, down) (returns (ground arith, refl, ground arith)),
      ))
