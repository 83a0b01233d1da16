-- ===== src/Tasks/RoundRobin.antt =====
-- schedule and switch_to where every task of the list can run.
use mathlib.Core.List.{append_assoc}
use tempos.Base.{
  ℕ, zero, suc, ◌+◌, ◌≡◌, refl, true, false, List, [], ◌∷◌, ◌++◌, arith, ◌==◌, update, length,
  ==_of_ne, Res, ok, ◌>>=◌, Returns, returns, Returns-mono,
}
use tempos.Ring.Links.{mem, mem-append}
use tempos.CircularList.{Ptr, null}
use tempos.CircularList.Rings.{Circular, not_null}
use tempos.CircularList.Remove.{rotate-Circular}
use tempos.Tasks.{System, task_running, task_ready_to_run, switch_to, schedule, schedule_loop}

-- The list of tasks from the current one on: `l` runs, the tasks of `ps` are ready, and no task
-- stands in the list twice.
pub record RoundRobin (s : System) (l : Ptr) (ps : List Ptr) : Type 0 where
  pub ring : Circular s.nodes l ps
  pub current : s.cur_task ≡ l
  pub is_task : (p : Ptr) → mem p (l ∷ ps) ≡ true → s.is_task (s.nodes.element p) ≡ true
  pub null_no_task : s.is_task null ≡ false
  pub runs : s.state (s.nodes.element l) ≡ task_running
  pub ready : (p : Ptr) → mem p ps ≡ true → s.state (s.nodes.element p) ≡ task_ready_to_run
  pub once :
      (p q : Ptr)
      → mem p (l ∷ ps) ≡ true
      → mem q (l ∷ ps) ≡ true
      → s.nodes.element p ≡ s.nodes.element q
      → p ≡ q

-- the system after the switch from the running task at `l` to the one at `y`
abbrev pub switched : System → (l y : Ptr) → System
switched s l y = record s {
  cur_task = y;
  state =
      update (update s.state (s.nodes.element l) task_ready_to_run) (s.nodes.element y)
        task_running;
}

module _ (s : System) (l y : Ptr) (ys : List Ptr) (r : RoundRobin s l (y ∷ ys)) where
  pub task_of : (p : Ptr) → mem p (l ∷ y ∷ ys) ≡ true → (s.nodes.element p == null) ≡ false
  task_of p m =
      ==_of_ne (s.nodes.element p) null λ e.
        let d : s.is_task (s.nodes.element p) ≡ false = rw e r.null_no_task in cc (r.is_task p m)

  pub schedule-switched : (k : ℕ) → schedule (suc k) s ≡ ok (switched s l y)
  unfolding schedule schedule_loop switch_to
  schedule-switched k =
      let l_live = r.ring.all_live l (ground arith) in
      let y_live = r.ring.all_live y (ground arith) in
      let l_task = r.is_task l (ground arith) in
      let y_task = r.is_task y (ground arith) in
      rw (r.current, not_null s.nodes l r.ring.null_dead l_live, l_live, r.ring.ring.0.0)
        (rw (not_null s.nodes y r.ring.null_dead y_live, y_live)
          (rw (y_task, r.ready y (ground arith))
            (rw (task_of l (ground arith), task_of y (ground arith), l_task, r.runs)
              (rw y_task refl))))

  switched-RoundRobin : RoundRobin (switched s l y) y (ys ++ (l ∷ []))
  switched-RoundRobin =
      let in_order : (p : Ptr) → mem p (ys ++ (l ∷ [])) ≡ true → mem p (l ∷ ys) ≡ true =
        λ p m. ground (arith, mem-append p ys (l ∷ [])) in
      record {
        ring = rotate-Circular s.nodes l y ys r.ring;
        current = refl;
        is_task = λ p m. r.is_task p (ground (arith, in_order p));
        null_no_task = r.null_no_task;
        runs = ground arith;
        ready = λ p m.
            ground (arith, in_order p, r.ready p, r.once p y, r.ring.ring.1.1.0, r.ring.ring.1.0);
        once =
            λ p q mp mq e. r.once p q (ground (arith, in_order p)) (ground (arith, in_order q)) e;
      }

-- `n` calls of schedule
pub schedules : ℕ → ℕ → System → Res System
schedules zero k s = ok s
schedules (suc n) k s = do s ← schedule k s; schedules n k s

-- the turn, and what the switches leave alone
pub schedules-kept :
    (s : System) (l y : Ptr) (xs ys : List Ptr) (k : ℕ)
    → RoundRobin s l (xs ++ (y ∷ ys))
    → Returns
        (λ t.
          RoundRobin t y (ys ++ (l ∷ xs))
          × (t.nodes ≡ s.nodes)
          × (t.heap ≡ s.heap)
          × (t.wait_queues ≡ s.wait_queues))
        (schedules (length xs + 1) (suc k) s)
unfolding schedules
schedules-kept s l y [] ys k r =
    rw (schedule-switched s l y ys r k) (returns (switched-RoundRobin s l y ys r, refl, refl, refl))
schedules-kept s l y (x ∷ xs) ys k r =
    let next = switched-RoundRobin s l x (xs ++ (y ∷ ys)) r in
    let next' : RoundRobin (switched s l x) x (xs ++ (y ∷ (ys ++ (l ∷ [])))) =
      rw (append_assoc xs (y ∷ ys) (l ∷ [])) at next in
    let rest = schedules-kept (switched s l x) x y xs (ys ++ (l ∷ [])) k next' in
    let turns : suc (length xs) + 1 ≡ suc (length xs + 1) = omega arith in
    rw (turns, schedule-switched s l x (xs ++ (y ∷ ys)) r k)
      (rw (append_assoc ys (l ∷ []) (x ∷ xs)) at rest)

-- Round robin: where one task of the list runs and the others are ready, the task that stands `n + 1`
-- places behind the current one has the processor after `n + 1` calls of `schedule`; it alone is in
-- the state RUNNING, the others are ready again, and the list goes on behind it in the old order.
pub schedules-turn :
    (s : System) (l y : Ptr) (xs ys : List Ptr) (k : ℕ)
    → RoundRobin s l (xs ++ (y ∷ ys))
    → Returns
        (λ t. (t.cur_task ≡ y) × RoundRobin t y (ys ++ (l ∷ xs)))
        (schedules (length xs + 1) (suc k) s)
schedules-turn s l y xs ys k r =
    Returns-mono (schedules-kept s l y xs ys k r) λ t kept. (kept.0.current, kept.0)
