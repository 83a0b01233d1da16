-- ===== src/Irq/Dispatch.antt =====
-- init_IRQ and do_irq.
use tempos.Base.{
  ℕ, zero, suc, ◌+◌, ◌<◌, ◌≡◌, refl, true, List, [], ◌∷◌, ◌++◌, arith, length, ==_of_ne, ltb,
  if◌then◌else◌, ok,
}
use tempos.LinkedList.{null}
use tempos.LinkedList.Cells.{Cell, first, Holds, load-ok, not_null}
use tempos.Irq.{
  Irqs, Action, call, eoi, eoi_slave, eoi_master, n_irq, init_loop, init_irq, call_each, do_irq,
}
use tempos.Irq.Request.{Numbered, IsQueue}

-- the calls of the handlers of a queue in order, with the numbers from `i` on
abbrev pub calls : Irqs → (i : ℕ) → List Cell → List Action
calls s i [] = []
calls s i ((p, e) ∷ cs) = call (s.code e) i ∷ calls s (i + 1) cs

call_each-calls :
    (k : ℕ) (s : Irqs) (i : ℕ) (cs : List Cell)
    → Holds s.heap cs
    → Numbered s.id i cs
    → length cs < k
    → call_each k s (first cs) ≡ ok (calls s i cs)
unfolding call_each
call_each-calls zero s i cs held ids fuel = absurd (omega arith)
call_each-calls (suc k) s i [] held ids fuel = refl
call_each-calls (suc k) s i ((p, e) ∷ cs) held ids fuel =
    rw (not_null held.0, load-ok s.heap held.0 held.1)
      (rw (call_each-calls k s (i + 1) cs held.3 ids.2 (omega arith))
        (rw (==_of_ne e null ids.0, ids.1) refl))

-- An interrupt calls every handler of its line once, in the order of the queue and with the ids 1, 2, 3 and so on; then the end of the
-- interrupt goes to the slave controller, for the lines above 7, and to the master in any case.
pub do_irq-calls :
    (k : ℕ) (s : Irqs) (irq : ℕ) (cs : List Cell)
    → irq < n_irq
    → IsQueue s irq cs
    → length cs < k
    → do_irq k s irq
      ≡ ok (calls s 1 cs ++ (if ltb 7 irq then eoi_slave ∷ eoi_master ∷ [] else eoi_master ∷ []))
unfolding do_irq eoi
do_irq-calls k s irq cs line q fuel =
    let valid : ltb irq n_irq ≡ true = ground arith in
    rw (valid, q.start) (rw (call_each-calls k s 1 cs q.held q.ids fuel) refl)

init_loop-empty :
    (n : ℕ) (s : Irqs) (irq : ℕ)
    → irq < n
    → ((init_loop n s).queue irq ≡ null) × ((init_loop n s).shared irq ≡ true)
unfolding init_loop
init_loop-empty zero s irq below = absurd (omega arith)
init_loop-empty (suc n) s irq below = ground (arith, init_loop-empty n s irq)

-- After `init_IRQ` every line has an empty queue that may be shared.
pub init_irq-IsQueue :
    (s : Irqs) (irq : ℕ)
    → irq < n_irq
    → IsQueue (init_irq s) irq [] × ((init_irq s).shared irq ≡ true)
unfolding init_irq
init_irq-IsQueue s irq line =
    let (empty, shared) = init_loop-empty n_irq s irq line in
    (record { held = tt; start = empty; ids = tt }, shared)
