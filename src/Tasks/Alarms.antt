-- ===== src/Tasks/Alarms.antt =====
-- The handler of the timer's interrupt, and new_alarm.
use tempos.Base.{
  ℕ, zero, suc, ◌+◌, ◌%◌, ◌^◌, ◌<◌, ◌≤◌, ◌≡◌, refl, ◌≢◌, true, false, none, List, [], ◌∷◌, ◌++◌,
  ◌⊎◌, inl, inr, Bool-cases, arith, length, ltb, update, Res, ok, Returns, returns, Returns-bind,
}
use tempos.LinkedList.{Ptr, Heap, null, llist_add}
use tempos.LinkedList.Cells.{Cell, first, Holds, not_null, load-ok}
use tempos.LinkedList.Add.{Added, llist_add-append}
use tempos.LinkedList.Remove.{contains}
use tempos.Tasks.{System, time_after, run_alarm, alarms_loop, timer_handler, do_schedule, new_alarm}

-- no alarm of the queue is expired
abbrev pub NoneDue : System → List Cell → Type 0
NoneDue s cs = (x : Ptr) → contains cs x ≡ true → time_after s.jiffies (s.expires x) ≡ false

-- the system one tick later
abbrev pub ticked : System → System
ticked s = record s { jiffies = (s.jiffies + 1) % 2 ^ 32 }

module _ (call : Ptr → System → Res System) where
  alarms_loop-quiet :
      (k : ℕ) (s : System) (tmp : Ptr) (cs : List Cell) (pos : ℕ)
      → tmp ≡ first cs
      → Holds s.heap cs
      → length cs < k
      → NoneDue s cs
      → alarms_loop call k s tmp pos ≡ ok s
  unfolding alarms_loop run_alarm
  alarms_loop-quiet zero s tmp cs pos e held fuel quiet = absurd (omega arith)
  alarms_loop-quiet (suc k) s tmp [] pos e held fuel quiet = rw e refl
  alarms_loop-quiet (suc k) s tmp ((p, x) ∷ cs) pos e held fuel quiet =
      rw (e, not_null held.0, load-ok s.heap held.0 held.1)
        (rw (quiet x (ground arith)) (
          rw (load-ok s.heap held.0 held.1) (
            alarms_loop-quiet k s (first cs) cs ((pos + 1) % 2 ^ 32) refl held.3 (omega arith)
              (λ y i. quiet y (ground arith)))))

  -- A tick at which no alarm of the queue expires counts one tick, with the wrap-around of the clock, and calls
  -- `do_schedule`; it does nothing else.
  pub timer_handler-quiet :
      (k : ℕ) (s : System) (cs : List Cell)
      → s.alarm_queue ≡ first cs
      → Holds s.heap cs
      → length cs < k
      → NoneDue (ticked s) cs
      → timer_handler call k s ≡ do_schedule k (ticked s)
  unfolding timer_handler
  timer_handler-quiet k s cs at held fuel quiet =
      rw (alarms_loop-quiet k (ticked s) s.alarm_queue cs 0 at held fuel quiet) refl

llist_add-Added :
    (k : ℕ) (h : Heap) (list : Ptr) (cs : List Cell) (fresh x : Ptr)
    → list ≡ first cs
    → Holds h cs
    → length cs < k
    → fresh ≢ null
    → h fresh ≡ none
    → Returns (Added h cs (fresh, x)) (llist_add k fresh h list x)
llist_add-Added k h list cs fresh x at held fuel nf free =
    rw at (llist_add-append k h cs fresh x held fuel nf free)

-- what `new_alarm` leaves behind: the alarm at the end of the queue with its time, and nothing else new
abbrev pub Scheduled : System → List Cell → Cell → ℕ → ℕ × System → Type 0
Scheduled s cs (fresh, alarm) time (r, t) =
    (r ≡ 1)
    × (t ≡ record s { expires = t.expires; alarm_queue = t.alarm_queue; heap = t.heap })
    × (t.alarm_queue ≡ first (cs ++ ((fresh, alarm) ∷ [])))
    × Holds t.heap (cs ++ ((fresh, alarm) ∷ []))
    × (t.expires ≡ update s.expires alarm time)

-- `new_alarm` refuses a time that is below the clock and returns 0 with nothing changed; else, given memory
-- for the alarm and for a node, it puts the alarm at the end of the queue with its time and returns 1.
pub new_alarm-Scheduled :
    (k : ℕ) (alarm fresh : Ptr) (s : System) (cs : List Cell) (time : ℕ)
    → s.alarm_queue ≡ first cs
    → Holds s.heap cs
    → length cs < k
    → alarm ≢ null
    → fresh ≢ null
    → s.heap fresh ≡ none
    → Returns
        (λ (r, t).
          ((time < s.jiffies) × (r ≡ 0) × (t ≡ s))
          ⊎ ((s.jiffies ≤ time) × Scheduled s cs (fresh, alarm) time (r, t)))
        (new_alarm k alarm fresh s time)
unfolding new_alarm
new_alarm-Scheduled k alarm fresh s cs time at held fuel na nf free =
    elim (Bool-cases (ltb time s.jiffies)) [
      | inl past ↦ rw past (returns (inl (ground arith, refl, refl)))
      | inr ahead ↦
          rw (ahead, not_null na)
            (Returns-bind
              (llist_add-Added k s.heap s.alarm_queue cs fresh alarm at held fuel nf free)
              λ (r, l, g) added. returns (inr (ground arith, (refl, refl, added.1, added.2, refl))))
    ]
