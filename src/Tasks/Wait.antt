-- ===== src/Tasks/Wait.antt =====
-- wakeup.
use tempos.Base.{
  ℕ, zero, suc, ◌<◌, ◌≡◌, refl, Bool-cases, inl, inr, true, false, List, [], ◌∷◌, arith, update,
  length, if◌then◌else◌, ok, Returns, returns,
}
use tempos.LinkedList.{Ptr}
use tempos.LinkedList.Cells.{Cell, has, first, Holds, not_null, load-ok}
use tempos.LinkedList.Remove.{contains, llist_remove-absent}
use tempos.Tasks.{
  System, wakeup, wakeup_loop, is_wait_address, task_ready_to_run, wait_address_size,
}

-- A wait queue: its nodes hold tasks, and a task is not a node of the queue.
pub record IsQueue (s : System) (queue : Ptr) (cs : List Cell) : Type 0 where
  pub held : Holds s.heap cs
  pub queue_first : queue ≡ first cs
  pub tasks : (x : Ptr) → contains cs x ≡ true → s.is_task x ≡ true
  pub no_task : (p : Ptr) → has p cs ≡ true → s.is_task p ≡ false

-- the states once each task of the queue has been made ready
abbrev marked : (Ptr → ℕ) → List Cell → Ptr → ℕ
marked state [] = state
marked state ((p, x) ∷ cs) = marked (update state x task_ready_to_run) cs

marked_lem :
    (state : Ptr → ℕ) (cs : List Cell) (x : Ptr)
    → marked state cs x ≡ (if contains cs x then task_ready_to_run else state x)
marked_lem state [] x = refl
marked_lem state ((p, y) ∷ cs) x =
    ground (arith, marked_lem (update state y task_ready_to_run) cs x)

module _ (m : ℕ) (cs : List Cell) (fuel : length cs < m) where
  wakeup_loop-marked :
      (k : ℕ) (s : System) (ds : List Cell)
      → Holds s.heap cs
      → Holds s.heap ds
      → length ds < k
      → ((x : Ptr) → contains ds x ≡ true → s.is_task x ≡ true)
      → ((p : Ptr) → has p ds ≡ true → contains cs p ≡ false)
      → wakeup_loop m k s (first cs) (first ds) ≡ ok (record s { state = marked s.state ds })
  unfolding wakeup_loop
  wakeup_loop-marked zero s ds hc hd rounds tasks apart = absurd (omega arith)
  wakeup_loop-marked (suc k) s [] hc hd rounds tasks apart = refl
  wakeup_loop-marked (suc k) s ((p, x) ∷ ds) hc hd rounds tasks apart =
      let s1 : System = record s { state = update s.state x task_ready_to_run } in
      rw (not_null hd.0, load-ok s.heap hd.0 hd.1, tasks x (ground arith))
        (rw (llist_remove-absent m s.heap cs p hc fuel (apart p (ground arith))) (
          rw (load-ok s.heap hd.0 hd.1) (
            wakeup_loop-marked k s1 ds hc hd.3 (omega arith) (λ y i. tasks y (ground arith))
              (λ q i. apart q (ground arith)))))

not_queued :
    (s : System) (queue p : Ptr) (cs : List Cell)
    → IsQueue s queue cs
    → has p cs ≡ true
    → contains cs p ≡ false
not_queued s queue p cs q node = elim (Bool-cases (contains cs p)) [
  | inl held ↦ let task = q.tasks p held in let none = q.no_task p node in cc
  | inr free ↦ free
]

-- `wakeup` makes every task of the queue ready and leaves the states of the other tasks as they are. It
-- leaves the queue itself and all else as it is, too: its call of `llist_remove` never finds a node.
pub wakeup-ready :
    (k : ℕ) (s : System) (a : ℕ) (cs : List Cell)
    → a < wait_address_size
    → IsQueue s (s.wait_queues a) cs
    → length cs < k
    → Returns
        (λ t.
          (t ≡ record s { state = t.state })
          × ((x : Ptr) → t.state x ≡ (if contains cs x then task_ready_to_run else s.state x)))
        (wakeup k s a)
unfolding wakeup
wakeup-ready k s a cs small q fuel =
    let within : is_wait_address a ≡ true = ground arith in
    rw (within, q.queue_first)
      (rw
        (wakeup_loop-marked k cs fuel k s cs q.held q.held fuel q.tasks
          (λ p node. not_queued s (s.wait_queues a) p cs q node))
        (returns (refl, marked_lem s.state cs)))
