-- ===== src/Interrupts.antt =====
-- The tables of interrupts at the start: setup_IDT of kernel/arch/x86/idt.c, and init_PIC and the masks of
-- kernel/arch/x86/kernel/i8259A.c. The addresses of the service routines, which are assembly, are arguments.
pub mod Gates
pub mod Pic
mod Tests
use tempos.Base.{
  ℕ, zero, suc, ◌+◌, ◌-◌, ◌*◌, ◌/◌, ◌%◌, ◌^◌, Bool, true, false, ◌&&◌, ◌||◌, List, [], ◌∷◌, ◌==◌,
  ltb, leb, if◌then◌else◌, update,
}

-- `struct _idt_tpint_desc`
pub record Gate : Type 0 where
  pub offset_low : ℕ
  pub seg_selector : ℕ
  pub notused : ℕ
  pub reserved3 : ℕ
  pub type : ℕ
  pub gate_size : ℕ
  pub reserved1 : ℕ
  pub dpl : ℕ
  pub present : ℕ
  pub offset_high : ℕ

-- the addresses of the routines: `exception` and `irq` by their numbers
pub record Routines : Type 0 where
  pub nullisr : ℕ
  pub exception : ℕ → ℕ
  pub irq : ℕ → ℕ
  pub sys_enter : ℕ

-- IDT_SET_OFFSET
abbrev pub set_offset : (offset : ℕ) → Gate → Gate
set_offset offset g = record g {
  offset_low = offset % 2 ^ 16;
  offset_high = offset / 2 ^ 16 % 2 ^ 16;
}

-- the body of the loops that fill the table
abbrev pub kernel_gate : (offset present : ℕ) → Gate
kernel_gate offset present = record {
  offset_low = offset % 2 ^ 16;
  seg_selector = 0x08;
  notused = 0;
  reserved3 = 0;
  type = 6;
  gate_size = 1;
  reserved1 = 0;
  dpl = 0;
  present = present;
  offset_high = offset / 2 ^ 16 % 2 ^ 16;
}

-- such a loop over the first `n` gates from `first` on
pub fill_gates : (n first offset present : ℕ) → (ℕ → Gate) → ℕ → Gate
fill_gates zero first offset present t = t
fill_gates (suc n) first offset present t =
    update (fill_gates n first offset present t) (first + n) (kernel_gate offset present)

-- IDT_SET_OFFSET for `n` gates from `first` on
pub set_offsets : (n first : ℕ) → (routine : ℕ → ℕ) → (ℕ → Gate) → ℕ → Gate
set_offsets zero first routine t = t
set_offsets (suc n) first routine t =
    let before = set_offsets n first routine t in
    update before (first + n) (set_offset (routine (first + n)) (before (first + n)))

-- the gate 15, which Intel reserves
abbrev pub reserved_gate : Gate → Gate
reserved_gate g = record (set_offset 0 g) { notused = 0; reserved3 = 0; reserved1 = 0; present = 0 }

-- the gate of the system calls
abbrev pub syscall_gate : (offset : ℕ) → Gate → Gate
syscall_gate offset g = record (set_offset offset g) {
  seg_selector = 0x08;
  dpl = 3;
  type = 6;
  gate_size = 1;
  present = 1;
}

pub setup_idt : Routines → (ℕ → Gate) → ℕ → Gate
setup_idt r t =
    let t1 = fill_gates 20 0 r.nullisr 1 t in
    let t2 = set_offsets 4 16 r.exception (set_offsets 15 0 r.exception t1) in
    let t3 = update t2 15 (reserved_gate (t2 15)) in
    let t4 = fill_gates 12 20 0 0 t3 in
    let t5 = fill_gates 16 32 r.nullisr 1 t4 in
    let t6 = set_offsets 16 32 (λ pos. r.irq (pos - 32)) t5 in
    let t7 = fill_gates 208 48 r.nullisr 0 t6 in update t7 133 (syscall_gate r.sys_enter (t7 133))

-- what is written to the ports of the controllers
pub record Out : Type 0 where
  pub value : ℕ
  pub port : ℕ

abbrev pub outb : (value port : ℕ) → Out
outb value port = record { value = value; port = port }

-- init_PIC; pic_delay only takes time
pub init_pic : List Out
init_pic =
    outb 0xFB 0x21
    ∷ outb 0xFF 0xA1
    ∷ outb 0x11 0x20
    ∷ outb 0x11 0xA0
    ∷ outb 0x20 0x21
    ∷ outb 0x28 0xA1
    ∷ outb 0x04 0x21
    ∷ outb 0x02 0xA1
    ∷ outb 0x03 0x21
    ∷ outb 0x03 0x21
    ∷ []

-- `inb` is what is read of each port
pub get_picmask : (inb : ℕ → ℕ) → (pic : ℕ) → ℕ
get_picmask inb pic = if pic == 0x21 || (pic == 0xA1) then inb pic else 0

pub set_picmask : (mask pic : ℕ) → List Out
set_picmask mask pic = if pic == 0x21 || (pic == 0xA1) then outb mask pic ∷ [] else []
