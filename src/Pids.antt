-- ===== src/Pids.antt =====
-- The stack of process numbers: `init_pids`, `get_new_pid` and `release_pid` of kernel/kernel/fork.c.
pub mod Init
pub mod Laws
mod Tests
use tempos.Base.{
  ℕ, zero, suc, ◌+◌, ◌-◌, ◌%◌, ◌^◌, ◌||◌, ltb, ◌==◌, if◌then◌else◌, update, Res, ok, fault, ◌>>=◌,
}

-- MAX_NUM_PROCESS
abbrev pub max_num_process : ℕ
max_num_process = 32000

abbrev pub kernel_pid : ℕ
kernel_pid = 0

abbrev pub init_pid : ℕ
init_pid = 1

-- `pid_stack` and `pid_st_top`, a `uint32_t`
pub record Pids : Type 0 where
  pub stack : ℕ → ℕ
  pub top : ℕ

-- An index out of the array is a fault.
pub get_new_pid : Pids → Res (ℕ × Pids)
get_new_pid s =
    if ltb s.top max_num_process
    then ok (s.stack s.top, record s { top = (s.top + 2 ^ 32 - 1) % 2 ^ 32 })
    else fault

pub release_pid : ℕ → Pids → Res Pids
release_pid pid s =
    let top = (s.top + 1) % 2 ^ 32 in
    if ltb top max_num_process
    then ok (record { stack = update s.stack top pid; top = top })
    else fault

-- the loop of `init_pids` with `n` rounds left
pub init_loop : (n i p : ℕ) → (ℕ → ℕ) → ℕ → ℕ
init_loop zero i p stack = stack
init_loop (suc n) i p stack =
    let p' = if p == kernel_pid || p == init_pid then p + 1 else p in
    init_loop n (i + 1) (p' + 1) (update stack i p')

pub init_pids : (ℕ → ℕ) → Pids
init_pids stack = record { stack = init_loop max_num_process 0 0 stack; top = max_num_process - 1 }

-- `n` calls of `get_new_pid`: the last number that was handed out
pub get_pids : (n : ℕ) → Pids → Res (ℕ × Pids)
unfolding get_new_pid
get_pids zero s = get_new_pid s
get_pids (suc n) s = do (_, s') ← get_new_pid s; get_pids n s'
