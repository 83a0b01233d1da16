-- ===== src/Tasks.antt =====
-- The scheduler (kernel/kernel/sched.c, switch_to of kernel/arch/x86/kernel/task.c), the wait queues
-- (kernel/kernel/wait.c), the timer (kernel/kernel/timer.c) and the end of kernel threads
-- (kernel/kernel/thread.c). The nodes of the list of tasks are in `nodes`, those of the wait queues and of the
-- queue of alarms in `heap`. A task and an alarm are addresses, and their fields functions of the address.
-- Where the code gives the processor to another task, a function ends; what runs when
-- the task gets it back is a function of its own. A walk has `k` rounds.
pub mod RoundRobin
pub mod Stuck
pub mod Time
pub mod Wait
pub mod Alarms
pub mod Cycle
mod Tests
use tempos.Base.{
  ℕ, zero, suc, ◌+◌, ◌-◌, ◌/◌, ◌%◌, ◌^◌, Bool, true, false, ◌||◌, ◌==◌, ltb, leb, if◌then◌else◌,
  update, Res, ok, fault, out_of_fuel, ◌>>=◌,
}
use tempos.CircularList
use tempos.CircularList.{Memory, Ptr, null}
use tempos.LinkedList.{Heap, load, llist_add, llist_remove, llist_remove_nth}

abbrev pub task_ready_to_run : ℕ
task_ready_to_run = 0

abbrev pub task_running : ℕ
task_running = 1

abbrev pub task_stopped : ℕ
task_stopped = 2

abbrev pub task_zombie : ℕ
task_zombie = 3

-- CONFIG_SYSTEM_HZ
abbrev hz : ℕ
hz = 250

abbrev pub scheduler_quantum : ℕ
scheduler_quantum = hz / 100

abbrev pub wait_address_size : ℕ
wait_address_size = 256

abbrev pub wait_kernel_thread : ℕ
wait_kernel_thread = 50

pub record System : Type 0 where
  pub nodes : Memory
  pub tasks : Ptr
  pub cur_task : Ptr
  -- the allocated tasks, and their fields
  pub is_task : Ptr → Bool
  pub state : Ptr → ℕ
  pub return_code : Ptr → ℕ
  pub heap : Heap
  pub wait_queues : ℕ → Ptr
  pub jiffies : ℕ
  pub sched_cnt : ℕ
  pub alarm_queue : Ptr
  pub expires : Ptr → ℕ

-- GET_TASK
pub get_task : System → Ptr → Res Ptr
get_task s a = if a == null then ok null else CircularList.read s.nodes s.nodes.element a

-- task->state, read and written
pub get_state : System → Ptr → Res ℕ
get_state s task = if s.is_task task then ok (s.state task) else fault

pub set_state : System → Ptr → ℕ → Res System
set_state s task v =
    if s.is_task task then ok (record s { state = update s.state task v }) else fault

-- up to the jump into the other task
pub switch_to : System → Ptr → Res System
unfolding get_task get_state set_state
switch_to s tsk = do
  task ← get_task s tsk
  current_task ← get_task s s.cur_task
  if current_task == null || task == null then ok s else do
    v ← get_state s current_task
    s ← if v == task_running then set_state s current_task task_ready_to_run else ok s
    set_state (record s { cur_task = tsk }) task task_running

pub schedule_loop : ℕ → System → (head tmp : Ptr) → Res System
unfolding get_task get_state
schedule_loop zero s head tmp = out_of_fuel
schedule_loop (suc k) s head tmp = do
  tmp ← CircularList.read s.nodes s.nodes.next tmp
  c_task ← get_task s tmp
  v ← get_state s c_task
  if v == task_running || v == task_ready_to_run
      then switch_to s tmp
      else if tmp == head
      then schedule_loop k s head tmp
      else ok s

pub schedule : ℕ → System → Res System
schedule k s = if s.cur_task == null then ok s else schedule_loop k s s.cur_task s.cur_task

-- (int32_t)b - (int32_t)a < 0, with the wrap-around of 32 bits
pub time_after : (a b : ℕ) → Bool
time_after a b = leb (2 ^ 31) ((b + 2 ^ 32 - a) % 2 ^ 32)

pub do_schedule : ℕ → System → Res System
do_schedule k s =
    if time_after s.jiffies s.sched_cnt
    then schedule k (record s { sched_cnt = (s.jiffies + scheduler_quantum) % 2 ^ 32 })
    else ok s

-- A negative address has a bit pattern above the last one, too.
abbrev pub is_wait_address : ℕ → Bool
is_wait_address a = ltb a wait_address_size

-- `llist_add(&wait_queues[a], task)`; `fresh` is what kmalloc returns
pub enqueue : ℕ → (fresh : Ptr) → System → (sleep_addr task : ℕ) → Res System
enqueue k fresh s a task = do
  (_, queue, heap) ← llist_add k fresh s.heap (s.wait_queues a) task
  ok (record s { wait_queues = update s.wait_queues a queue; heap = heap })

-- sleep_on up to the call of schedule, that call included
pub sleep_on : ℕ → (fresh : Ptr) → System → (sleep_addr : ℕ) → Res System
unfolding get_task set_state enqueue
sleep_on k fresh s a = do
  current_task ← get_task s s.cur_task
  if is_wait_address a
      then (do
        s ← set_state s current_task task_stopped
        s ← enqueue k fresh s a current_task
        schedule k s)
      else ok s

-- "Process resumes execution from here when it wakes up"
pub sleep_on_resumed : ℕ → System → (sleep_addr current_task : ℕ) → Res System
sleep_on_resumed k s a current_task = do
  (_, queue, heap) ← llist_remove k s.heap (s.wait_queues a) current_task
  ok (record s { wait_queues = update s.wait_queues a queue; heap = heap })

-- the loop of wakeup; `queue` is its local variable, and a search in it has `m` rounds
pub wakeup_loop : (m k : ℕ) → System → (queue tmp : Ptr) → Res System
unfolding set_state
wakeup_loop m zero s queue tmp = out_of_fuel
wakeup_loop m (suc k) s queue tmp = if tmp == null then ok s else do
  n ← load s.heap tmp
  s ← set_state s n.element task_ready_to_run
  (_, queue, heap) ← llist_remove m s.heap queue tmp
  n ← load heap tmp
  wakeup_loop m k (record s { heap = heap }) queue n.next

pub wakeup : ℕ → System → (sleep_addr : ℕ) → Res System
wakeup k s a =
    if is_wait_address a then wakeup_loop k k s (s.wait_queues a) (s.wait_queues a) else ok s

pub kernel_thread_exit : ℕ → System → (return_code : ℕ) → Res System
unfolding get_task set_state
kernel_thread_exit k s code = do
  current_task ← get_task s s.cur_task
  s ← set_state s current_task task_zombie
  s ←
      wakeup k (record s { return_code = update s.return_code current_task code })
        wait_kernel_thread
  schedule k s

-- kernel_thread_wait for a thread that has ended, with its answer
pub kernel_thread_reap : ℕ → System → (th : Ptr) → Res (ℕ × System)
kernel_thread_reap k s th = do
  (_, tasks, nodes) ← CircularList.c_llist_remove k s.nodes s.tasks th
  ok (
    s.return_code th,
    record s { tasks = tasks; nodes = nodes; is_task = update s.is_task th false },
  )

-- The handlers of alarms are not the timer's: `call` runs that of an alarm.
module _ (call : Ptr → System → Res System) where
  -- an alarm of the queue: its handler runs when it is expired, and its node leaves the queue
  pub run_alarm : System → (alarm pos : ℕ) → Res System
  run_alarm s alarm pos =
      if time_after s.jiffies (s.expires alarm)
      then (do
        (_, queue, heap) ← llist_remove_nth s.heap s.alarm_queue pos
        call alarm (record s { alarm_queue = queue; heap = heap }))
      else ok s

  pub alarms_loop : ℕ → System → (tmp pos : ℕ) → Res System
  alarms_loop zero s tmp pos = out_of_fuel
  alarms_loop (suc k) s tmp pos = if tmp == null then ok s else do
    n ← load s.heap tmp
    s ← run_alarm s n.element pos
    n ← load s.heap tmp
    alarms_loop k s n.next ((pos + 1) % 2 ^ 32)

  pub timer_handler : ℕ → System → Res System
  timer_handler k s = do
    let s = record s { jiffies = (s.jiffies + 1) % 2 ^ 32 }
    s ← alarms_loop k s s.alarm_queue 0
    do_schedule k s

-- kmalloc gives the alarm and then the node of the list.
pub new_alarm : ℕ → (alarm fresh : Ptr) → System → (expires : ℕ) → Res (ℕ × System)
new_alarm k alarm fresh s expires =
    if ltb expires s.jiffies then ok (0, s) else if alarm == null then ok (0, s) else do
      (_, queue, heap) ← llist_add k fresh s.heap s.alarm_queue alarm
      ok (
        1,
        record s { expires = update s.expires alarm expires; alarm_queue = queue; heap = heap },
      )
