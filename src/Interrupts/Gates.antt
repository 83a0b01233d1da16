-- ===== src/Interrupts/Gates.antt =====
-- setup_IDT against the table that it is meant to make.
use tempos.Base.{
  ℕ, zero, suc, ◌+◌, ◌-◌, ◌<◌, ◌≤◌, ◌≡◌, refl, sym, ◌⊎◌, ap, ◌∙◌, Bool-cases, inl, inr, true, false,
  arith, ◌==◌, ltb, if◌then◌else◌, update,
}
use tempos.Interrupts.{
  Gate, Routines, set_offset, kernel_gate, fill_gates, set_offsets, reserved_gate, syscall_gate,
  setup_idt,
}

fill_gates-inside :
    (n first offset present : ℕ) (t : ℕ → Gate) (pos : ℕ)
    → first ≤ pos
    → pos < first + n
    → fill_gates n first offset present t pos ≡ kernel_gate offset present
unfolding fill_gates
fill_gates-inside zero first offset present t pos from to = absurd (omega arith)
fill_gates-inside (suc n) first offset present t pos from to =
    elim (Bool-cases (pos == first + n)) [
      | inl here ↦ rw here refl
      | inr other ↦ rw other (fill_gates-inside n first offset present t pos from (ground arith))
    ]

fill_gates-outside :
    (n first offset present : ℕ) (t : ℕ → Gate) (pos : ℕ)
    → (pos < first) ⊎ (first + n ≤ pos)
    → fill_gates n first offset present t pos ≡ t pos
unfolding fill_gates
fill_gates-outside zero first offset present t pos out = refl
fill_gates-outside (suc n) first offset present t pos (inl low) =
    let other : (pos == first + n) ≡ false = ground arith in
    rw other (fill_gates-outside n first offset present t pos (inl low))
fill_gates-outside (suc n) first offset present t pos (inr high) =
    let other : (pos == first + n) ≡ false = ground arith in
    let above : first + n ≤ pos = omega arith in
    rw other (fill_gates-outside n first offset present t pos (inr above))

set_offsets-outside :
    (n first : ℕ) (routine : ℕ → ℕ) (t : ℕ → Gate) (pos : ℕ)
    → (pos < first) ⊎ (first + n ≤ pos)
    → set_offsets n first routine t pos ≡ t pos
unfolding set_offsets
set_offsets-outside zero first routine t pos out = refl
set_offsets-outside (suc n) first routine t pos (inl low) =
    let other : (pos == first + n) ≡ false = ground arith in
    rw other (set_offsets-outside n first routine t pos (inl low))
set_offsets-outside (suc n) first routine t pos (inr high) =
    let other : (pos == first + n) ≡ false = ground arith in
    let above : first + n ≤ pos = omega arith in
    rw other (set_offsets-outside n first routine t pos (inr above))

set_offsets-inside :
    (n first : ℕ) (routine : ℕ → ℕ) (t : ℕ → Gate) (pos : ℕ)
    → first ≤ pos
    → pos < first + n
    → set_offsets n first routine t pos ≡ set_offset (routine pos) (t pos)
unfolding set_offsets
set_offsets-inside zero first routine t pos from to = absurd (omega arith)
set_offsets-inside (suc n) first routine t pos from to = elim (Bool-cases (pos == first + n)) [
  | inl here ↦
      let at : first + n ≡ pos = ground arith in
      let behind : first + n ≤ pos = omega arith in
      rw (here, at)
        (ap (set_offset (routine pos)) (set_offsets-outside n first routine t pos (inr behind)))
  | inr other ↦ rw other (set_offsets-inside n first routine t pos from (ground arith))
]

-- The gates of the table: exceptions but 15, the sixteen interrupts, and the system calls, which alone are open to
-- user mode; the others are not present.
abbrev pub gate : Routines → (pos : ℕ) → Gate
gate r pos =
    if pos == 15
    then kernel_gate 0 0
    else if ltb pos 20
    then kernel_gate (r.exception pos) 1
    else if ltb pos 32
    then kernel_gate 0 0
    else if ltb pos 48
    then kernel_gate (r.irq (pos - 32)) 1
    else if pos == 133
    then syscall_gate r.sys_enter (kernel_gate 0 0)
    else kernel_gate r.nullisr 0

-- the table after the exceptions, and before the gate of the system calls
abbrev exceptions : Routines → (ℕ → Gate) → ℕ → Gate
exceptions r t =
    set_offsets 4 16 r.exception (set_offsets 15 0 r.exception (fill_gates 20 0 r.nullisr 1 t))

abbrev reserved : Routines → (ℕ → Gate) → ℕ → Gate
reserved r t = update (exceptions r t) 15 (reserved_gate (exceptions r t 15))

abbrev interrupts : Routines → (ℕ → Gate) → ℕ → Gate
interrupts r t =
    set_offsets 16 32 (λ pos. r.irq (pos - 32))
      (fill_gates 16 32 r.nullisr 1 (fill_gates 12 20 0 0 (reserved r t)))

module _ (r : Routines) (t : ℕ → Gate) (pos : ℕ) where
  first_gate : pos < 20 → fill_gates 20 0 r.nullisr 1 t pos ≡ kernel_gate r.nullisr 1
  first_gate low = fill_gates-inside 20 0 r.nullisr 1 t pos (omega arith) (omega arith)

  exceptions-low : pos < 15 → exceptions r t pos ≡ kernel_gate (r.exception pos) 1
  exceptions-low low =
      set_offsets-outside 4 16 r.exception _ pos (inl (omega arith))
      ∙ set_offsets-inside 15 0 r.exception _ pos (omega arith) (omega arith)
      ∙ ap (set_offset (r.exception pos)) (first_gate (omega arith))

  exceptions-high : 16 ≤ pos → pos < 20 → exceptions r t pos ≡ kernel_gate (r.exception pos) 1
  exceptions-high from to =
      set_offsets-inside 4 16 r.exception _ pos (omega arith) (omega arith)
      ∙ ap (set_offset (r.exception pos)) (
          set_offsets-outside 15 0 r.exception _ pos (inr (omega arith)) ∙ first_gate (omega arith))

  exceptions-15 : pos ≡ 15 → exceptions r t pos ≡ kernel_gate r.nullisr 1
  exceptions-15 at =
      set_offsets-outside 4 16 r.exception _ pos (inl (omega arith))
      ∙ set_offsets-outside 15 0 r.exception _ pos (inr (omega arith))
      ∙ first_gate (omega arith)

  interrupts-low : pos < 20 → interrupts r t pos ≡ reserved r t pos
  interrupts-low low =
      set_offsets-outside 16 32 _ _ pos (inl (omega arith))
      ∙ fill_gates-outside 16 32 r.nullisr 1 _ pos (inl (omega arith))
      ∙ fill_gates-outside 12 20 0 0 (reserved r t) pos (inl (omega arith))

  interrupts-unused : 20 ≤ pos → pos < 32 → interrupts r t pos ≡ kernel_gate 0 0
  interrupts-unused from to =
      set_offsets-outside 16 32 _ _ pos (inl (omega arith))
      ∙ fill_gates-outside 16 32 r.nullisr 1 _ pos (inl (omega arith))
      ∙ fill_gates-inside 12 20 0 0 (reserved r t) pos from (omega arith)

  interrupts-irq : 32 ≤ pos → pos < 48 → interrupts r t pos ≡ kernel_gate (r.irq (pos - 32)) 1
  interrupts-irq from to =
      set_offsets-inside 16 32 (λ pos. r.irq (pos - 32)) _ pos from (omega arith)
      ∙ ap (set_offset (r.irq (pos - 32)))
          (fill_gates-inside 16 32 r.nullisr 1 _ pos from (omega arith))

  -- the gates below 20, of which 15 is apart
  reserved-gate :
      pos < 20
      → reserved r t pos ≡ (if pos == 15 then kernel_gate 0 0 else kernel_gate (r.exception pos) 1)
  reserved-gate low = elim (Bool-cases (pos == 15)) [
    | inl here ↦
        let at : pos ≡ 15 = ground arith in
        rw here (ap reserved_gate (ap (exceptions r t) (sym at) ∙ exceptions-15 at))
    | inr other ↦ rw other (elim (Bool-cases (ltb pos 15)) [
      | inl below ↦ exceptions-low (ground arith)
      | inr above ↦ exceptions-high (ground arith) low
    ])
  ]

  interrupts-gate : pos < 48 → interrupts r t pos ≡ gate r pos
  interrupts-gate low = elim (Bool-cases (ltb pos 20)) [
    | inl a ↦
        let below : pos < 20 = ground arith in
        interrupts-low below ∙ reserved-gate below ∙ rw a refl
    | inr b ↦ elim (Bool-cases (ltb pos 32)) [
      | inl c ↦
          let not15 : (pos == 15) ≡ false = ground arith in
          interrupts-unused (ground arith) (ground arith) ∙ rw (not15, b, c) refl
      | inr d ↦
          let not15 : (pos == 15) ≡ false = ground arith in
          let irq : ltb pos 48 ≡ true = ground arith in
          interrupts-irq (ground arith) low ∙ rw (not15, b, d, irq) refl
    ]
  ]

-- the table before the gate of the system calls
abbrev plain : Routines → (ℕ → Gate) → ℕ → Gate
plain r t = fill_gates 208 48 r.nullisr 0 (interrupts r t)

setup_idt-plain :
    (r : Routines) (t : ℕ → Gate) (pos : ℕ)
    → (pos == 133) ≡ false
    → setup_idt r t pos ≡ plain r t pos
unfolding setup_idt
setup_idt-plain r t pos other = rw other refl

setup_idt-syscall :
    (r : Routines) (t : ℕ → Gate) (pos : ℕ)
    → (pos == 133) ≡ true
    → setup_idt r t pos ≡ syscall_gate r.sys_enter (kernel_gate 0 0)
unfolding setup_idt
setup_idt-syscall r t pos here = rw here (
    ap (syscall_gate r.sys_enter)
      (fill_gates-inside 208 48 r.nullisr 0 (interrupts r t) 133 (omega arith) (omega arith)))

gate-high :
    (r : Routines) (pos : ℕ)
    → 48 ≤ pos
    → gate r pos
      ≡ (if pos == 133 then syscall_gate r.sys_enter (kernel_gate 0 0) else kernel_gate r.nullisr 0)
gate-high r pos high =
    let not15 : (pos == 15) ≡ false = ground arith in
    let not20 : ltb pos 20 ≡ false = ground arith in
    let not32 : ltb pos 32 ≡ false = ground arith in
    let not48 : ltb pos 48 ≡ false = ground arith in rw (not15, not20, not32, not48) refl

-- Whatever stood in the table, `setup_idt` makes each of its 256 gates the one that it is meant to be.
pub setup_idt-gate :
    (r : Routines) (t : ℕ → Gate) (pos : ℕ) → pos < 256 → setup_idt r t pos ≡ gate r pos
setup_idt-gate r t pos valid = elim (Bool-cases (ltb pos 48)) [
  | inl low ↦
      let not133 : (pos == 133) ≡ false = ground arith in
      let below : pos < 48 = ground arith in
      setup_idt-plain r t pos not133
      ∙ fill_gates-outside 208 48 r.nullisr 0 (interrupts r t) pos (inl below)
      ∙ interrupts-gate r t pos below
  | inr high ↦
      let above : 48 ≤ pos = ground arith in
      elim (Bool-cases (pos == 133)) [
        | inl here ↦ setup_idt-syscall r t pos here ∙ sym (gate-high r pos above ∙ rw here refl)
        | inr other ↦
            setup_idt-plain r t pos other
            ∙ fill_gates-inside 208 48 r.nullisr 0 (interrupts r t) pos above (omega arith)
            ∙ sym (gate-high r pos above ∙ rw other refl)
      ]
]
