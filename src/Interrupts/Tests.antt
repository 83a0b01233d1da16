-- ===== src/Interrupts/Tests.antt =====
-- The theorem on the table of interrupts at the gate of the interrupt 14.
use tempos.Base.{ℕ, ◌+◌, ◌≡◌, arith}
use tempos.Interrupts.{Gate, Routines, kernel_gate, setup_idt}
use tempos.Interrupts.Gates.{setup_idt-gate}

abbrev routines : Routines
routines = record {
  nullisr = 1000;
  exception = λ n. 2000 + n;
  irq = λ n. 3000 + n;
  sys_enter = 4000;
}

abbrev blank : ℕ → Gate
blank pos = kernel_gate 7 7

setup_idt-gate_example : setup_idt routines blank 46 ≡ kernel_gate 3014 1
setup_idt-gate_example = setup_idt-gate routines blank 46 (omega arith)
