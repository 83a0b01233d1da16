-- ===== src/Pids/Init.antt =====
-- What `init_pids` leaves in the stack, and the numbers that are handed out from it.
use tempos.Base.{
  ℕ, zero, suc, ◌+◌, ◌-◌, ◌%◌, ◌^◌, ◌<◌, ◌≤◌, ◌≡◌, ◌∙◌, ◌&&◌, arith, true, ltb, leb, if◌then◌else◌,
  update, ok,
}
use tempos.Pids.{Pids, max_num_process, init_pid, init_loop, init_pids, get_pids}

init_loop-get :
    (n i : ℕ) (stack : ℕ → ℕ) (b : ℕ)
    → 0 < i
    → init_loop n i (i + 1) stack b ≡ (if leb i b && ltb b (i + n) then b + 1 else stack b)
unfolding init_loop
init_loop-get zero i stack b pos = ground arith
init_loop-get (suc n) i stack b pos =
    ground (arith, init_loop-get n (i + 1) (update stack i (i + 1)) b)

init_loop-first :
    (n : ℕ) (stack : ℕ → ℕ) (b : ℕ)
    → init_loop (suc n) 0 0 stack b ≡ (if ltb b (n + 1) then b + 1 else stack b)
unfolding init_loop
init_loop-first n stack b = ground (arith, init_loop-get n 1 (update stack 0 1) b)

-- `init_pids` fills the stack with 1, 2, …, 32000, from the bottom: the number of init is among them.
pub init_pids-stack :
    (stack : ℕ → ℕ) (b : ℕ) → b < max_num_process → (init_pids stack).stack b ≡ b + init_pid
unfolding init_pids
init_pids-stack stack b h = ground (arith, init_loop-first 31999 stack b)

-- the numbers from a stack that is filled so
get_pids-from :
    (n top : ℕ) (stack : ℕ → ℕ)
    → ((b : ℕ) → b < max_num_process → stack b ≡ b + init_pid)
    → n ≤ top
    → top < max_num_process
    → get_pids n (record { stack = stack; top = top })
      ≡ ok (top - n + init_pid, record { stack = stack; top = (top - n + 2 ^ 32 - 1) % 2 ^ 32 })
unfolding get_pids
get_pids-from zero top stack filled le small = ground (arith, filled top)
get_pids-from (suc n) top stack filled le small =
    let down : (top + 2 ^ 32 - 1) % 2 ^ 32 ≡ top - 1 = omega arith in
    let more : ltb top max_num_process ≡ true = ground arith in
    let fewer : top - 1 - n ≡ top - suc n = omega arith in
    rw (more, down) (get_pids-from n (top - 1) stack filled (omega arith) (omega arith) ∙ rw fewer)

-- After `init_pids` the calls of `get_new_pid`, counted from 0, return 32000, 31999, … in turn: call
-- `n` returns 32000 - n for every `n` below 32000, and with that the last of them returns the number
-- of init.
pub get_pids-init_pids :
    (stack : ℕ → ℕ) (n : ℕ)
    → n < max_num_process
    → (s : Pids) × (get_pids n (init_pids stack) ≡ ok (max_num_process - n, s))
unfolding init_pids
get_pids-init_pids stack n h =
    let e : 31999 - n + init_pid ≡ max_num_process - n = omega arith in
    (
      record { stack = (init_pids stack).stack; top = (31999 - n + 2 ^ 32 - 1) % 2 ^ 32 },
      rw (← e) (
          get_pids-from n 31999 (init_pids stack).stack (init_pids-stack stack) (omega arith)
            (omega arith)),
    )
