-- ===== src/Pids/Tests.antt =====
-- The theorems on process numbers at small stacks.
use tempos.Base.{ℕ, ◌+◌, ◌≢◌, arith, Returns}
use tempos.Pids.{Pids, get_new_pid}
use tempos.Pids.Laws.{IsFree, IsValid, get_new_pid-IsFree}

-- 10, 11 and 12 are free
abbrev pids : Pids
pids = record { stack = λ i. i + 10; top = 2 }

pids-IsValid : IsValid pids
pids-IsValid = record { within = omega arith; distinct = λ i j a b. omega arith }

get_new_pid-IsFree_example :
    Returns
      (λ (pid, s').
        IsFree pids pid
        × (IsFree s' pid → ⊥)
        × ((p : ℕ) → p ≢ pid → IsFree pids p → IsFree s' p)
        × IsValid s')
      (get_new_pid pids)
get_new_pid-IsFree_example = get_new_pid-IsFree pids pids-IsValid (omega arith)
