-- ===== src/Tasks/Time.antt =====
-- Times of 32 bits, and do_schedule.
use tempos.Base.{ℕ, ◌+◌, ◌%◌, ◌^◌, ◌≤◌, ◌<◌, ◌≡◌, refl, true, ◌↔◌, arith, ok, leb, if◌then◌else◌}
use tempos.Tasks.{System, time_after, do_schedule, schedule, scheduler_quantum}

-- For two times that lie `d` ticks apart on the clock of 32 bits, `time_after` holds exactly when `d` is not
-- zero and at most half of the clock's range, also where the clock has wrapped around between them.
pub time_after_iff :
    (t d : ℕ)
    → t < 2 ^ 32
    → d < 2 ^ 32
    → (time_after ((t + d) % 2 ^ 32) t ≡ true) ↔ ((0 < d) × (d ≤ 2 ^ 31))
unfolding time_after
time_after_iff t d ht hd = ground arith

-- `c` is the end of the quantum that was set at the time `t`, and `j` is `d` ticks after `t`.
quantum_end :
    (t d c j : ℕ)
    → d ≤ 2 ^ 31
    → c ≡ (t + scheduler_quantum) % 2 ^ 32
    → j ≡ (t + d) % 2 ^ 32
    → time_after j c ≡ leb 3 d
unfolding time_after
quantum_end t d c j hd ec ej = ground arith

-- When the end of the quantum was set at the time `t`, `do_schedule` changes nothing up to the second tick
-- after it, and from the third tick on it sets the next end and calls schedule; the clock may wrap around between.
pub do_schedule-quantum :
    (k : ℕ) (s : System) (t d : ℕ)
    → d ≤ 2 ^ 31
    → s.sched_cnt ≡ (t + scheduler_quantum) % 2 ^ 32
    → s.jiffies ≡ (t + d) % 2 ^ 32
    → do_schedule k s ≡ (
        if leb 3 d
        then schedule k (record s { sched_cnt = (s.jiffies + scheduler_quantum) % 2 ^ 32 })
        else ok s)
unfolding do_schedule
do_schedule-quantum k s t d hd ec ej = rw (quantum_end t d s.sched_cnt s.jiffies hd ec ej) refl
