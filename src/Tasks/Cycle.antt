-- ===== src/Tasks/Cycle.antt =====
-- sleep_on, and a task that sleeps, is woken up and resumes.
use mathlib.Core.Path.{subst}
use tempos.Base.{
  ◌+◌, sym, if◌then◌else◌, ℕ, suc, ◌<◌, ◌≡◌, refl, ap, ◌∙◌, ◌||◌, ◌≢◌, true, false, none, List, [],
  ◌∷◌, ◌++◌, arith, ◌==◌, ==_of_ne, ==_self, update, length, length-append, ok, ◌>>=◌, Returns,
  returns, Returns-bind, Returns-mono, Res, fault, out_of_fuel, Bool-cases, inl, inr,
}
use tempos.Ring.Links.{mem, mem-append}
use tempos.CircularList.Remove.{rotate-Circular}
use tempos.CircularList.Rings.{not_null}
use tempos.LinkedList.{Ptr, null, Heap}
use tempos.LinkedList.Cells.{has, has-append, Cell, first, Holds, has_of_none}
use tempos.LinkedList.Add.{llist_add-append}
use tempos.LinkedList.Remove.{contains, drop_element, llist_remove-drop}
use tempos.Tasks.{
  System, sleep_on, sleep_on_resumed, wakeup, enqueue, schedule, schedule_loop, switch_to,
  is_wait_address, wait_address_size, task_stopped, task_running, task_ready_to_run,
}
use tempos.Tasks.RoundRobin.{RoundRobin, task_of, schedules, schedules-kept}
use tempos.Tasks.Wait.{IsQueue, wakeup-ready}

contains-append :
    (x : Ptr) (cs ds : List Cell) → contains (cs ++ ds) x ≡ (contains cs x || contains ds x)
contains-append x [] ds = refl
contains-append x ((p, e) ∷ cs) ds = ground (arith, contains-append x cs ds)

drop_element-back :
    (f x : Ptr) (cs : List Cell) → contains cs x ≡ false → drop_element (cs ++ ((f, x) ∷ [])) x ≡ cs
drop_element-back f x [] absent = ground arith
drop_element-back f x ((p, e) ∷ cs) absent = ground (arith, drop_element-back f x cs)

-- what the call of llist_add in sleep_on leaves behind
abbrev Enqueued : System → ℕ → List Cell → Cell → System → Type 0
Enqueued s a cs c t =
    (t ≡ record s { heap = t.heap; wait_queues = t.wait_queues })
    × Holds t.heap (cs ++ (c ∷ []))
    × ((p : Ptr) → has p (c ∷ cs) ≡ false → t.heap p ≡ s.heap p)
    × (t.wait_queues ≡ update s.wait_queues a (first (cs ++ (c ∷ []))))

enqueue-Enqueued :
    (k : ℕ) (fresh : Ptr) (s : System) (a x : ℕ) (cs : List Cell)
    → Holds s.heap cs
    → s.wait_queues a ≡ first cs
    → length cs < k
    → fresh ≢ null
    → s.heap fresh ≡ none
    → Returns (Enqueued s a cs (fresh, x)) (enqueue k fresh s a x)
unfolding enqueue
enqueue-Enqueued k fresh s a x cs held at fuel nf free = rw at (
    Returns-bind (llist_add-append k s.heap cs fresh x held fuel nf free)
      λ (r, list, g) added. returns (refl, added.2, added.3, rw added.1 refl))

-- the switch from the task at `l`, which stopped itself, to the next one
abbrev given_up : System → (y : Ptr) → System
given_up s y = record s { cur_task = y; state = update s.state (s.nodes.element y) task_running }

-- what resumes of sleep_on changes the wait queues and the heap only
resumed-RoundRobin :
    (v : System) (a list : ℕ) (g : Heap) {l : Ptr} {ps : List Ptr}
    → RoundRobin v l ps
    → RoundRobin (record v { wait_queues = update v.wait_queues a list; heap = g }) l ps
resumed-RoundRobin v a list g r = record {
  ring = r.ring;
  current = r.current;
  is_task = r.is_task;
  null_no_task = r.null_no_task;
  runs = r.runs;
  ready = r.ready;
  once = r.once;
}

Returns-assoc {ℓ κ μ ν} :
    {A : Type ℓ} {B : Type κ} {C : Type μ} {Q : C → Type ν} (r : Res A) (f : A → Res B)
    (g : B → Res C)
    → Returns Q ((r >>= f) >>= g)
    → Returns Q (r >>= λ a. f a >>= g)
Returns-assoc (ok a) f g q = q
Returns-assoc fault f g q = q
Returns-assoc out_of_fuel f g q = q

module _ (s : System) (l y : Ptr) (ys : List Ptr) (r : RoundRobin s l (y ∷ ys)) where
  -- the system at the call of schedule
  abbrev asleep : Heap → (ℕ → Ptr) → System
  asleep heap queues = record s {
    cur_task = l;
    state = update s.state (s.nodes.element l) task_stopped;
    heap = heap;
    wait_queues = queues;
  }

  tasks_differ : (s.nodes.element y == s.nodes.element l) ≡ false
  tasks_differ =
      ==_of_ne (s.nodes.element y) (s.nodes.element l)
        λ e. ground (arith, r.once y l (ground arith) (ground arith) e)

  schedule-given_up :
      (k : ℕ) (heap : Heap) (queues : ℕ → Ptr)
      → schedule (suc k) (asleep heap queues) ≡ ok (given_up (asleep heap queues) y)
  unfolding schedule schedule_loop switch_to
  schedule-given_up k heap queues =
      let l_live = r.ring.all_live l (ground arith) in
      let y_live = r.ring.all_live y (ground arith) in
      let l_task = r.is_task l (ground arith) in
      let y_task = r.is_task y (ground arith) in
      rw (not_null s.nodes l r.ring.null_dead l_live, l_live, r.ring.ring.0.0)
        (rw (not_null s.nodes y r.ring.null_dead y_live, y_live)
          (rw (y_task, tasks_differ)
            (rw (r.ready y (ground arith)) (
              rw (task_of s l y ys r l (ground arith), task_of s l y ys r y (ground arith), l_task)
                (rw (==_self (s.nodes.element l)) (rw y_task refl))))))

  -- Where one task runs and the others of the list are ready, `sleep_on` with an address of the table and a node from
  -- kmalloc stops the calling task, puts it at the end of that queue and of no other, and gives the
  -- processor to the next task.
  pub sleep_on-Asleep :
      (k : ℕ) (fresh a : ℕ) (cs : List Cell)
      → a < wait_address_size
      → IsQueue s (s.wait_queues a) cs
      → length cs < suc k
      → fresh ≢ null
      → s.heap fresh ≡ none
      → Returns
          (λ t.
            (t ≡ given_up (asleep t.heap t.wait_queues) y)
            × Holds t.heap (cs ++ ((fresh, s.nodes.element l) ∷ []))
            × ((p : Ptr) → has p ((fresh, s.nodes.element l) ∷ cs) ≡ false → t.heap p ≡ s.heap p)
            × (t.wait_queues
                ≡ update s.wait_queues a (first (cs ++ ((fresh, s.nodes.element l) ∷ [])))))
          (sleep_on (suc k) fresh s a)
  unfolding sleep_on
  sleep_on-Asleep k fresh a cs small q fuel nf free =
      let within : is_wait_address a ≡ true = ground arith in
      let l_live = r.ring.all_live l (ground arith) in
      let x = s.nodes.element l in
      rw (r.current, not_null s.nodes l r.ring.null_dead l_live, l_live)
        (rw (within, r.is_task l (ground arith))
          (Returns-bind
            (enqueue-Enqueued (suc k) fresh (asleep s.heap s.wait_queues) a x cs q.held
              q.queue_first fuel nf free)
            λ t (e, held, same, queues).
              rw (e, schedule-given_up k t.heap t.wait_queues)
                (returns (refl, held, same, queues))))

  -- a queue with the task that went to sleep at its end
  asleep-IsQueue :
      (t : System) (a fresh : ℕ) (cs : List Cell)
      → IsQueue s (s.wait_queues a) cs
      → s.is_task fresh ≡ false
      → t.is_task ≡ s.is_task
      → Holds t.heap (cs ++ ((fresh, s.nodes.element l) ∷ []))
      → t.wait_queues a ≡ first (cs ++ ((fresh, s.nodes.element l) ∷ []))
      → IsQueue t (t.wait_queues a) (cs ++ ((fresh, s.nodes.element l) ∷ []))
  asleep-IsQueue t a fresh cs q new same held at = record {
    held = held;
    queue_first = at;
    tasks = λ x i. rw same (
        ground
          (arith, contains-append x cs ((fresh, s.nodes.element l) ∷ []), q.tasks x, r.is_task l));
    no_task = λ p i.
        rw same (ground (arith, has-append p cs ((fresh, s.nodes.element l) ∷ []), q.no_task p));
  }

  -- after the wakeup by the task at `y` the tasks take turns again
  awake-RoundRobin :
      (cs : List Cell) (u : System)
      → u ≡ record s { cur_task = y; state = u.state; heap = u.heap; wait_queues = u.wait_queues }
      → contains cs (s.nodes.element y) ≡ false
      → ((x : Ptr)
          → u.state x ≡ (
              if contains cs x || (x == s.nodes.element l)
              then task_ready_to_run
              else (given_up (asleep u.heap u.wait_queues) y).state x))
      → RoundRobin u y (ys ++ (l ∷ []))
  awake-RoundRobin cs u same apart states =
      let in_order : (p : Ptr) → mem p (ys ++ (l ∷ [])) ≡ true → mem p (l ∷ ys) ≡ true =
        λ p m. ground (arith, mem-append p ys (l ∷ [])) in
      let state_y : u.state (s.nodes.element y) ≡ task_running =
        ground (arith, states (s.nodes.element y), tasks_differ) in
      let state_p : (p : Ptr)
          → mem p (ys ++ (l ∷ [])) ≡ true
          → u.state (s.nodes.element p) ≡ task_ready_to_run =
        λ p m. ground (
          arith,
          states (s.nodes.element p),
          in_order p,
          r.ready p,
          r.once p y,
          r.once p l,
          r.ring.ring.1.1.0,
          r.ring.ring.1.0,
        ) in
      let turns : RoundRobin
          (record s { cur_task = y; state = u.state; heap = u.heap; wait_queues = u.wait_queues }) y
          (ys ++ (l ∷ [])) =
        record {
          ring = rotate-Circular s.nodes l y ys r.ring;
          current = refl;
          is_task = λ p m. r.is_task p (ground (arith, in_order p));
          null_no_task = r.null_no_task;
          runs = state_y;
          ready = state_p;
          once =
              λ p q mp mq e. r.once p q (ground (arith, in_order p)) (ground (arith, in_order q)) e;
        } in
      subst (λ (v : System). RoundRobin v y (ys ++ (l ∷ []))) (sym same) turns

  -- what `wakeup` leaves of the system with the sleeper at the end of the queue
  abbrev Awake : (fresh a : ℕ) → List Cell → System → Type 0
  Awake fresh a cs u =
      RoundRobin u y (ys ++ (l ∷ []))
      × Holds u.heap (cs ++ ((fresh, s.nodes.element l) ∷ []))
      × ((p : Ptr) → has p ((fresh, s.nodes.element l) ∷ cs) ≡ false → u.heap p ≡ s.heap p)
      × (u.wait_queues ≡ update s.wait_queues a (first (cs ++ ((fresh, s.nodes.element l) ∷ []))))

  sleep_on-Awake :
      (k : ℕ) (fresh a : ℕ) (cs : List Cell)
      → a < wait_address_size
      → IsQueue s (s.wait_queues a) cs
      → contains cs (s.nodes.element y) ≡ false
      → length cs < k
      → fresh ≢ null
      → s.heap fresh ≡ none
      → s.is_task fresh ≡ false
      → Returns (Awake fresh a cs) (do t ← sleep_on (suc k) fresh s a; wakeup (suc k) t a)
  sleep_on-Awake k fresh a cs small q apart fuel nf free new =
      let x = s.nodes.element l in
      let cs1 = cs ++ ((fresh, x) ∷ []) in
      let fuel1 : length cs1 < suc k = omega (arith, length-append {0} cs ((fresh, x) ∷ [])) in
      Returns-bind (sleep_on-Asleep k fresh a cs small q (omega arith) nf free)
        λ t (e, held, same, queues).
          let at : t.wait_queues a ≡ first cs1 = rw queues (rw (==_self a) refl) in
          let tasks : t.is_task ≡ s.is_task = ap (λ (u : System). u.is_task) e in
          Returns-mono
            (wakeup-ready (suc k) t a cs1 small (asleep-IsQueue t a fresh cs q new tasks held at)
              fuel1)
            λ u (same_u, ready).
              let kept : u.heap ≡ t.heap = ap (λ (v : System). v.heap) same_u in
              let still : u.wait_queues ≡ t.wait_queues =
                ap (λ (v : System). v.wait_queues) same_u in
              let whole : u ≡ record s {
                cur_task = y;
                state = u.state;
                heap = u.heap;
                wait_queues = u.wait_queues;
              } =
                same_u
                ∙ ap (λ (v : System). record v { state = u.state }) e
                ∙ ap
                    (λ (h : Heap). record s {
                      cur_task = y;
                      state = u.state;
                      heap = h;
                      wait_queues = t.wait_queues;
                    })
                    (sym kept)
                ∙ ap
                    (λ (qs : ℕ → Ptr). record s {
                      cur_task = y;
                      state = u.state;
                      heap = u.heap;
                      wait_queues = qs;
                    })
                    (sym still) in
              let states : (z : Ptr)
                  → u.state z ≡ (
                      if contains cs z || (z == x)
                      then task_ready_to_run
                      else (given_up (asleep u.heap u.wait_queues) y).state z) =
                λ z. ground (
                  arith,
                  ready z,
                  contains-append z cs ((fresh, x) ∷ []),
                  ap (λ (v : System). v.state z) e,
                ) in
              (
                awake-RoundRobin cs u whole apart states,
                rw kept held,
                (λ p out. rw kept (same p out)),
                still ∙ queues,
              )

  -- the chain is in both heaps, so they agree on its nodes
  Holds-agree :
      (h g : Heap) (cs : List Cell)
      → Holds h cs
      → Holds g cs
      → (p : Ptr) → has p cs ≡ true
      → g p ≡ h p
  Holds-agree h g [] a b p i = absurd (ground arith)
  Holds-agree h g ((q, e) ∷ cs) a b p i = elim (Bool-cases (p == q)) [
    | inl here ↦ let at : p ≡ q = ground arith in rw at (b.1 ∙ sym a.1)
    | inr later ↦ Holds-agree h g cs a.3 b.3 p (ground arith)
  ]

  -- Where one task runs, the others are ready and the next one is not in the queue of the address, the running task calls `sleep_on`, the
  -- next one calls `wakeup` with the same address, and `schedule` is called until the first one has the processor again and resumes: then the tasks
  -- take turns as before, it runs and the others are ready, and all wait queues and the heap with their nodes are what they were.
  pub sleep_on-wakeup :
      (k : ℕ) (fresh a : ℕ) (cs : List Cell)
      → a < wait_address_size
      → IsQueue s (s.wait_queues a) cs
      → contains cs (s.nodes.element l) ≡ false
      → contains cs (s.nodes.element y) ≡ false
      → length cs < k
      → fresh ≢ null
      → s.heap fresh ≡ none
      → s.is_task fresh ≡ false
      → Returns
          (λ w.
            RoundRobin w l (y ∷ ys)
            × ((b : ℕ) → w.wait_queues b ≡ s.wait_queues b)
            × ((p : Ptr) → w.heap p ≡ s.heap p))
          (do
            t ← sleep_on (suc k) fresh s a
            u ← wakeup (suc k) t a
            v ← schedules (length ys + 1) (suc k) u
            sleep_on_resumed (suc k) v a (s.nodes.element l))
  unfolding sleep_on_resumed
  sleep_on-wakeup k fresh a cs small q absent apart fuel nf free new =
      let x = s.nodes.element l in
      let cs1 = cs ++ ((fresh, x) ∷ []) in
      let unused : has fresh cs ≡ false = has_of_none s.heap fresh cs q.held free in
      let fuel1 : length cs1 < suc k = omega (arith, length-append {0} cs ((fresh, x) ∷ [])) in
      let resume : System → Res System = λ v. sleep_on_resumed (suc k) v a x in
      let later : System → Res System = λ u. schedules (length ys + 1) (suc k) u >>= resume in
      Returns-assoc (sleep_on (suc k) fresh s a) (λ t. wakeup (suc k) t a) later
        (Returns-bind (sleep_on-Awake k fresh a cs small q apart fuel nf free new)
          λ u (turns, held, outside, queues).
            Returns-bind (schedules-kept u y l ys [] k turns) λ v (turn, nodes, heap, still).
              let at : v.wait_queues a ≡ first cs1 = rw (still, queues) (rw (==_self a) refl) in
              let held_v : Holds v.heap cs1 = rw heap held in
              let drop = llist_remove-drop (suc k) v.heap cs1 x held_v fuel1 in
              let drop' = rw (drop_element-back fresh x cs absent) at drop in
              rw at (
                Returns-bind drop' λ (res, list, g) (_, first', keeps).
                  let gone : g fresh ≡ none =
                    keeps.2 fresh (ground (arith, has-append fresh cs ((fresh, x) ∷ []))) unused in
                  returns (
                    resumed-RoundRobin v a list g turn,
                    (λ b.
                        ground (arith, ap (λ (f : ℕ → Ptr). f b) (still ∙ queues), q.queue_first)),
                    λ p. elim (Bool-cases (has p cs)) [
                      | inl inside ↦ Holds-agree s.heap g cs q.held keeps.0 p inside
                      | inr other ↦ elim (Bool-cases (p == fresh)) [
                        | inl last ↦
                            let at_p : p ≡ fresh = ground arith in rw at_p (gone ∙ sym free)
                        | inr elsewhere ↦
                            let out : has p cs1 ≡ false =
                              ground (arith, has-append p cs ((fresh, x) ∷ [])) in
                            keeps.1 p out ∙ ap (λ (h : Heap). h p) heap ∙ outside p (ground arith)
                      ]
                    ],
                  )))
