-- ===== src/Locks/Tests.antt =====
-- Two processes that load the mutex before either of them takes it: both come inside.
use tempos.Base.{◌-◌, ◌^◌, ◌≡◌, [], ◌∷◌, arith}
use tempos.Locks.{
  outside, spinning, loaded, inside, mutex_spin_down, spin_loop, see, decl, step, Steps, stop, then,
}
use tempos.Locks.Count.{total, Steps-total, Spaced, start, moved, Exclusive, Spaced-Exclusive}

both_inside : Steps (1, outside ∷ outside ∷ []) (2 ^ 32 - 1, inside ∷ inside ∷ [])
both_inside =
    then
      (then
        (then
          (then
            (then (then stop (step [] (outside ∷ []) mutex_spin_down))
              (step (spinning ∷ []) [] mutex_spin_down))
            (step [] (spinning ∷ []) (see (omega arith))))
          (step (loaded ∷ []) [] (see (omega arith))))
        (step [] (loaded ∷ []) decl))
      (step (inside ∷ []) [] decl)

total_both : total (2 ^ 32 - 1, inside ∷ inside ∷ []) ≡ total (1, outside ∷ outside ∷ [])
total_both = Steps-total both_inside

-- the first process comes inside while the second waits at the load
one_inside : Spaced (1, outside ∷ spinning ∷ []) (0, inside ∷ spinning ∷ [])
one_inside =
    moved
      (moved
        (moved (moved start (step [] (spinning ∷ []) mutex_spin_down) (omega arith))
          (step [] (spinning ∷ []) (see (omega arith))) (omega arith))
        (step [] (spinning ∷ []) decl) (omega arith))
      (step (inside ∷ []) [] spin_loop) (omega arith)

Spaced-Exclusive_example : Exclusive (0, inside ∷ spinning ∷ [])
Spaced-Exclusive_example = Spaced-Exclusive (omega arith, omega arith) one_inside
