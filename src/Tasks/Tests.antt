-- ===== src/Tasks/Tests.antt =====
-- The theorems on the tasks at three tasks.
use tempos.Base.{
  ℕ, ◌+◌, ◌-◌, ◌^◌, ◌≡◌, refl, ◌&&◌, none, some, List, [], ◌∷◌, leb, arith, update, Res, ok, ◌>>=◌,
  Returns,
}
use tempos.CircularList.{Memory, Ptr}
use tempos.LinkedList.{Heap, write, node}
use tempos.LinkedList.Cells.{Cell}
use tempos.Tasks.{
  System, sleep_on, sleep_on_resumed, wakeup, task_ready_to_run, task_running, task_stopped,
}
use tempos.Tasks.RoundRobin.{RoundRobin, schedules, schedules-turn}
use tempos.Tasks.Wait.{IsQueue}
use tempos.Tasks.Cycle.{sleep_on-wakeup}

-- the nodes 1, 2 and 3 with the tasks 11, 12 and 13; the node 64 of the wait queue 3 holds the task 13, and the
-- node 72 of the queue of alarms the alarm 90
abbrev nodes : Memory
nodes = record {
  element = λ p. p + 10;
  prev = update (update (update (λ p. 0) 1 3) 2 1) 3 2;
  next = update (update (update (λ p. 0) 1 2) 2 3) 3 1;
  live = λ p. leb 1 p && leb p 3;
}

abbrev heap : Heap
heap = write (write (λ _. none) 64 (some (node 13 0))) 72 (some (node 90 0))

abbrev system : System
system = record {
  nodes = nodes;
  tasks = 1;
  cur_task = 1;
  is_task = λ t. leb 11 t && leb t 13;
  state = update (λ _. task_ready_to_run) 11 task_running;
  return_code = λ _. 0;
  heap = heap;
  wait_queues = update (λ _. 0) 3 64;
  jiffies = 2 ^ 32 - 1;
  sched_cnt = 1;
  alarm_queue = 72;
  expires = λ _. 5;
}

system-RoundRobin : RoundRobin system 1 (2 ∷ 3 ∷ [])
system-RoundRobin = record {
  ring = record { ring = ground arith; all_live = λ p m. ground arith; null_dead = refl };
  current = refl;
  is_task = λ p m. ground arith;
  null_no_task = refl;
  runs = refl;
  ready = λ p m. ground arith;
  once = λ p q mp mq e. omega arith;
}

schedules-turn_example :
    Returns (λ t. (t.cur_task ≡ 3) × RoundRobin t 3 (1 ∷ 2 ∷ [])) (schedules 2 1 system)
schedules-turn_example = schedules-turn system 1 3 (2 ∷ []) [] 0 system-RoundRobin

-- the second task sleeps
abbrev blocked : System
blocked = record system { state = update (λ _. task_ready_to_run) 12 task_stopped }

abbrev alone : System
alone = record system {
  nodes = record nodes { next = λ _. 1; prev = λ _. 1 };
  state = λ _. task_stopped;
}

abbrev sleepers : List Cell
sleepers = (64, 13) ∷ []

sleepers-IsQueue : IsQueue system 64 sleepers
unfolding write
sleepers-IsQueue = record {
  held = ground arith;
  queue_first = refl;
  tasks = λ x i. ground arith;
  no_task = λ p i. ground arith;
}

sleep_on-wakeup_example :
    Returns
      (λ w.
        RoundRobin w 1 (2 ∷ 3 ∷ [])
        × ((b : ℕ) → w.wait_queues b ≡ system.wait_queues b)
        × ((p : Ptr) → w.heap p ≡ system.heap p))
      (do
        t ← sleep_on 3 80 system 3
        u ← wakeup 3 t 3
        v ← schedules 2 3 u
        sleep_on_resumed 3 v 3 11)
unfolding write
sleep_on-wakeup_example =
    sleep_on-wakeup system 1 2 (3 ∷ []) system-RoundRobin 2 80 3 sleepers (omega arith)
      sleepers-IsQueue refl refl (omega arith) (omega arith) refl refl

abbrev alarms : List Cell
alarms = (72, 90) ∷ []

-- a handler that does nothing
abbrev no_op : Ptr → System → Res System
no_op x t = ok t

abbrev late : System
late = record system { jiffies = 5 }
