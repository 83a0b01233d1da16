-- ===== src/Tasks/Stuck.antt =====
-- schedule where the next task of the list cannot run.
use tempos.Base.{
  ℕ, zero, suc, ◌≡◌, refl, Bool, true, false, ◌||◌, List, [], ◌∷◌, arith, ◌==◌, ==_of_ne, ok,
  out_of_fuel,
}
use tempos.CircularList.{Ptr}
use tempos.CircularList.Rings.{Circular, not_null}
use tempos.Tasks.{System, task_running, task_ready_to_run, schedule, schedule_loop}

abbrev pub runnable : ℕ → Bool
runnable v = v == task_running || v == task_ready_to_run

-- When the next task of the list is stopped or has ended, `schedule` returns and changes nothing: the
-- current task keeps the processor whatever its own state is, and whichever tasks behind the next one are ready.
pub schedule-next_blocked :
    (s : System) (y : Ptr) (ys : List Ptr) (k : ℕ)
    → Circular s.nodes s.cur_task (y ∷ ys)
    → s.is_task (s.nodes.element y) ≡ true
    → runnable (s.state (s.nodes.element y)) ≡ false
    → schedule (suc k) s ≡ ok s
unfolding schedule schedule_loop
schedule-next_blocked s y ys k c task blocked =
    let head_live = c.all_live s.cur_task (ground arith) in
    let y_live = c.all_live y (ground arith) in
    rw (not_null s.nodes s.cur_task c.null_dead head_live, head_live, c.ring.0.0)
      (rw (not_null s.nodes y c.null_dead y_live, y_live)
        (rw (task) (rw blocked (rw (==_of_ne y s.cur_task (ground arith)) refl))))

spin :
    (s : System) (k : ℕ)
    → Circular s.nodes s.cur_task []
    → s.is_task (s.nodes.element s.cur_task) ≡ true
    → runnable (s.state (s.nodes.element s.cur_task)) ≡ false
    → schedule_loop k s s.cur_task s.cur_task ≡ out_of_fuel
unfolding schedule_loop
spin s zero c task blocked = refl
spin s (suc k) c task blocked =
    let live = c.all_live s.cur_task (ground arith) in
    let again = spin s k c task blocked in
    ground (arith, not_null s.nodes s.cur_task c.null_dead live, c.ring.0.0)

-- The only task of the list, once it is stopped or has ended, makes `schedule` go round for ever: no number of rounds is
-- enough while nothing else changes the state of the task.
pub schedule-alone :
    (s : System) (k : ℕ)
    → Circular s.nodes s.cur_task []
    → s.is_task (s.nodes.element s.cur_task) ≡ true
    → runnable (s.state (s.nodes.element s.cur_task)) ≡ false
    → schedule k s ≡ out_of_fuel
unfolding schedule
schedule-alone s k c task blocked =
    rw (not_null s.nodes s.cur_task c.null_dead (c.all_live s.cur_task (ground arith)))
      (spin s k c task blocked)
