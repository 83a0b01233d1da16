-- ===== src/Irq/Tests.antt =====
-- The theorems on interrupt handlers at a line with one handler.
use tempos.Base.{
  ℕ, ◌<◌, ◌==◌, Bool-cases, inr, List, ◌≡◌, refl, inl, true, none, some, [], ◌∷◌, arith, update, ok,
  Returns,
}
use tempos.LinkedList.Cells.{Cell}
use tempos.LinkedList.{Heap, node, write}
use tempos.Irq.{Irqs, call, eoi_slave, eoi_master, request_irq, do_irq}
use tempos.Irq.Request.{IsQueue, Installed, request_irq-Installed}
use tempos.Irq.Dispatch.{do_irq-calls}

abbrev heap : Heap
heap = write (λ _. none) 64 (some (node 90 0))

-- the handler 90 with the code 500 at the line 14
abbrev irqs : Irqs
irqs = record {
  queue = update (λ _. 0) 14 64;
  shared = λ _. true;
  heap = heap;
  id = λ _. 1;
  code = λ _. 500;
}

irqs-IsQueue : IsQueue irqs 14 ((64, 90) ∷ [])
unfolding write
irqs-IsQueue = record { held = ground arith; start = refl; ids = ground arith }

-- the line 3 has the handler 95, the others none
abbrev two_lines : Irqs
two_lines = record irqs {
  queue = update (update (λ _. 0) 14 64) 3 80;
  heap = write heap 80 (some (node 95 0));
}

abbrev queues : ℕ → List Cell
queues = update (update (λ _. []) 14 ((64, 90) ∷ [])) 3 ((80, 95) ∷ [])

queues-IsQueue : (j : ℕ) → j < 16 → IsQueue two_lines j (queues j)
unfolding write
queues-IsQueue j line = elim (Bool-cases (j == 3)) [
  | inl third ↦
      let at : j ≡ 3 = ground arith in
      rw at (record { held = ground arith; start = refl; ids = ground arith })
  | inr other ↦ elim (Bool-cases (j == 14)) [
    | inl disk ↦
        let at : j ≡ 14 = ground arith in
        rw at (record { held = ground arith; start = refl; ids = ground arith })
    | inr none_there ↦ rw (other, none_there) (record { held = tt; start = ground arith; ids = tt })
  ]
]

request_irq-Installed_example :
    Returns (Installed two_lines 14 600 91 72 queues) (request_irq 2 91 72 two_lines 14 600 true)
unfolding write
request_irq-Installed_example =
    request_irq-Installed 2 two_lines 14 600 91 72 true queues (omega arith) (inl (refl, refl))
      queues-IsQueue (λ j other p node. ground arith) (λ j. ground arith) (omega arith)
      (omega arith) refl (omega arith) (omega arith)

do_irq-calls_example : do_irq 2 irqs 14 ≡ ok (call 500 1 ∷ eoi_slave ∷ eoi_master ∷ [])
do_irq-calls_example =
    do_irq-calls 2 irqs 14 ((64, 90) ∷ []) (omega arith) irqs-IsQueue (omega arith)
