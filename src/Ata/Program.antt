-- ===== src/Ata/Program.antt =====
-- The address that a transfer is started with, as the controller reads it.
use tempos.Base.{
  ℕ, zero, suc, ◌+◌, ◌*◌, ◌%◌, ◌^◌, ◌<◌, ◌≡◌, refl, ◌∙◌, List, [], ◌∷◌, ◌++◌, arith, ◌==◌,
  if◌then◌else◌,
}
use tempos.Ata.Ports.{
  Input, Action, outb, outw, pio_port, send_cmd, set_device, lba_byte, start_transfer,
  address_writes,
}

-- a register that keeps what was written before its value too
pub record Latch : Type 0 where
  pub now : ℕ
  pub before : ℕ

-- what the writes leave in the register at a port
abbrev pub latch : (port : ℕ) → List Action → Latch → Latch
latch port [] r = r
latch port (outb v p ∷ sent) r =
    latch port sent (if p == port then record { now = v; before = r.now } else r)
latch port (outw v p ∷ sent) r = latch port sent r
latch port (Action.wake e ∷ sent) r = latch port sent r

-- the address in 48 bits: the registers give the bytes 0 to 2, what they had before the bytes 3 to 5
abbrev pub latched_addr : (bus : ℕ) → List Action → Latch → ℕ
latched_addr bus sent r =
    let r1 = latch (pio_port bus 3) sent r in
    let r2 = latch (pio_port bus 4) sent r in
    let r3 = latch (pio_port bus 5) sent r in
    r1.now
    + 2 ^ 8 * r2.now
    + 2 ^ 16 * r3.now
    + 2 ^ 24 * r1.before
    + 2 ^ 32 * r2.before
    + 2 ^ 40 * r3.before

latch-append :
    (port : ℕ) (xs ys : List Action) (r : Latch)
    → latch port (xs ++ ys) r ≡ latch port ys (latch port xs r)
latch-append port [] ys r = refl
latch-append port (outb v p ∷ xs) ys r = latch-append port xs ys _
latch-append port (outw v p ∷ xs) ys r = latch-append port xs ys r
latch-append port (Action.wake e ∷ xs) ys r = latch-append port xs ys r

address_writes-bytes :
    (input : Input) (bus newaddr command i : ℕ) (r : Latch)
    → bus < 2
    → i < 3
    → latch (pio_port bus (3 + i)) (address_writes input bus newaddr command) r
      ≡ record { now = lba_byte newaddr i; before = lba_byte newaddr (3 + i) }
unfolding address_writes send_cmd pio_port
address_writes-bytes input zero newaddr command zero r valid low = refl
address_writes-bytes input zero newaddr command (suc zero) r valid low = refl
address_writes-bytes input zero newaddr command (suc (suc zero)) r valid low = refl
address_writes-bytes input (suc zero) newaddr command zero r valid low = refl
address_writes-bytes input (suc zero) newaddr command (suc zero) r valid low = refl
address_writes-bytes input (suc zero) newaddr command (suc (suc zero)) r valid low = refl
address_writes-bytes input bus newaddr command (suc (suc (suc i))) r valid low =
    absurd (omega arith)
address_writes-bytes input (suc (suc bus)) newaddr command i r valid low = absurd (omega arith)

register-bytes :
    (input : Input) (bus dev newaddr command i : ℕ) (r : Latch)
    → bus < 2
    → i < 3
    → latch (pio_port bus (3 + i)) (start_transfer input bus dev newaddr command) r
      ≡ record { now = lba_byte newaddr i; before = lba_byte newaddr (3 + i) }
unfolding start_transfer
register-bytes input bus dev newaddr command i r valid low =
    latch-append (pio_port bus (3 + i)) (set_device bus dev)
      (address_writes input bus newaddr command) r
    ∙ address_writes-bytes input bus newaddr command i _ valid low

-- Whatever the registers held, a transfer that is started on one of the two buses leaves its address there, in 48 bits.
pub start_transfer-addr :
    (input : Input) (bus dev newaddr command : ℕ) (r : Latch)
    → bus < 2
    → latched_addr bus (start_transfer input bus dev newaddr command) r ≡ newaddr % 2 ^ 48
unfolding lba_byte
start_transfer-addr input bus dev newaddr command r valid =
    rw
      (
        register-bytes input bus dev newaddr command 0 r valid (omega arith),
        register-bytes input bus dev newaddr command 1 r valid (omega arith),
        register-bytes input bus dev newaddr command 2 r valid (omega arith),
      )
      (omega arith)
