-- ===== src/Ata/Ports.antt =====
-- What ata_generic.c sends to the ports of a controller for one sector, and what it reads from them.
use tempos.Base.{
  ℕ, zero, suc, ◌+◌, ◌-◌, ◌*◌, ◌/◌, ◌%◌, ◌^◌, Bool, ◌||◌, not, Option, none, some, List, [], ◌∷◌,
  ◌++◌, ◌==◌, ltb, if◌then◌else◌, update, Res, ok, fault, ◌>>=◌,
}
use tempos.Partitions.{Partition, translate_part_address}

abbrev pub sector_size : ℕ
sector_size = 512

-- what inb reads of each port, and the words that the data port gives for a sector
pub record Input : Type 0 where
  pub inb : ℕ → ℕ
  pub inw : ℕ → ℕ

pub data Action : Type 0 where
  outb : (value port : ℕ) → Action
  outw : (value port : ℕ) → Action
  wake : (event : ℕ) → Action

abbrev pub minus_one : ℕ
minus_one = 2 ^ 32 - 1

-- pio_ports[bus][reg]
unfoldable pub pio_port : (bus reg : ℕ) → ℕ
pio_port bus reg =
    if bus == 0
    then (if reg == 8 then 0x3F6 else 0x1F0 + reg)
    else if reg == 8
    then 0x376
    else 0x170 + reg

unfoldable pub send_cmd : (bus command : ℕ) → List Action
unfolding pio_port
send_cmd bus command =
    if bus == 0
    then outb command (pio_port 0 7) ∷ []
    else if bus == 1
    then outb command (pio_port 1 7) ∷ []
    else []

unfoldable pub set_device : (bus device : ℕ) → List Action
unfolding pio_port
set_device bus device =
    if bus == 0 || (bus == 1)
    then (if device == 0
        then outb 0x40 (pio_port bus 6) ∷ []
        else if device == 1
        then outb 0x50 (pio_port bus 6) ∷ []
        else [])
    else []

-- LBA_BYTE
unfoldable pub lba_byte : (addr n : ℕ) → ℕ
lba_byte addr n = addr / 2 ^ (n * 8) % 256

-- (dc & 0xF0) | 0x40
unfoldable pub keep_mode : (dc : ℕ) → ℕ
keep_mode dc = dc / 128 % 2 * 128 + 64 + dc / 16 % 4 * 16

-- the count and the address in two parts, the mode, and the command
unfoldable pub address_writes : Input → (bus newaddr command : ℕ) → List Action
unfolding pio_port send_cmd lba_byte keep_mode
address_writes input bus newaddr command =
    outb 0x00 (pio_port bus 2)
    ∷ outb (lba_byte newaddr 3) (pio_port bus 3)
    ∷ outb (lba_byte newaddr 4) (pio_port bus 4)
    ∷ outb (lba_byte newaddr 5) (pio_port bus 5)
    ∷ outb 0x01 (pio_port bus 2)
    ∷ outb (lba_byte newaddr 0) (pio_port bus 3)
    ∷ outb (lba_byte newaddr 1) (pio_port bus 4)
    ∷ outb (lba_byte newaddr 2) (pio_port bus 5)
    ∷ outb (keep_mode (input.inb (pio_port bus 6))) (pio_port bus 6)
    ∷ send_cmd bus command

-- from set_device to the command
unfoldable pub start_transfer : Input → (bus dev newaddr command : ℕ) → List Action
unfolding set_device address_writes
start_transfer input bus dev newaddr command =
    set_device bus dev ++ address_writes input bus newaddr command

-- the target in a partition of the drive `dev` of the primary bus
unfoldable pub part_target :
    (ℕ → Option (List Partition)) → (dev device addr : ℕ) → Res (Option (ℕ × ℕ × ℕ))
part_target ptable dev device addr = elim (ptable dev) [
  | none ↦ fault
  | some parts ↦ ok (elim (translate_part_address parts device addr) [
    | none ↦ none
    | some newaddr ↦ some (0, dev, newaddr)
  ])
]

-- the bus, the drive and the address for a read; `none` for -1. Numbers of devices are not negative.
unfoldable pub read_target :
    (ℕ → Option (List Partition)) → (major device addr : ℕ) → Res (Option (ℕ × ℕ × ℕ))
unfolding part_target
read_target ptable major device addr =
    if major == 3
    then (if ltb device 64
        then (if device == 0 then ok (some (0, 0, addr)) else part_target ptable 0 device addr)
        else if device == 64
        then ok (some (0, 1, addr))
        else part_target ptable 1 device addr)
    else if major == 2
    then (if ltb device 64 then ok (some (1, 2, addr)) else ok (some (1, 3, addr)))
    else ok none

-- the C result and what is sent
unfoldable pub read_hd_sector :
    Input → (ℕ → Option (List Partition)) → (major device addr : ℕ) → Res (ℕ × List Action)
unfolding read_target start_transfer
read_hd_sector input ptable major device addr = do
  target ← read_target ptable major device addr
  ok (elim target [
    | none ↦ (minus_one, [])
    | some (bus, dev, newaddr) ↦ (0, start_transfer input bus dev newaddr 0x24)
  ])

-- the bus and the drive of a device with no partition
unfoldable pub write_target : (major device : ℕ) → Option (ℕ × ℕ)
write_target major device =
    if major == 3 || (major == 2)
    then (let bus = if major == 3 then 0 else 1 in
        if device == 0 then some (bus, 0) else if device == 64 then some (bus, 1) else none)
    else none

-- (sector[i + 1] << 8) | sector[i] in 16 bits; a `char` from 128 on is negative, which sets the high bits
unfoldable pub bword : (low high : ℕ) → ℕ
bword low high = if ltb low 128 then high * 256 + low else 0xFF00 + low

-- the words of the first `n` rounds of the loop in write_hd_sector
unfoldable pub send_words : (n : ℕ) → (port : ℕ) → (sector : ℕ → ℕ) → List Action
unfolding bword
send_words zero port sector = []
send_words (suc n) port sector =
    send_words n port sector ++ (outw (bword (sector (2 * n)) (sector (2 * n + 1))) port ∷ [])

-- the test of the status; the mask stands inside the argument of the second inb
unfoldable pub transfer_error : Input → (bus : ℕ) → Bool
unfolding pio_port
transfer_error input bus =
    not (input.inb (pio_port bus 8) / 32 % 2 == 0)
    || not (input.inb (pio_port bus 1 / 4 % 2 * 4) == 0)

unfoldable pub write_hd_sector :
    Input → (major device addr : ℕ) → (sector : ℕ → ℕ) → ℕ × List Action
unfolding write_target start_transfer transfer_error send_words send_cmd pio_port
write_hd_sector input major device addr sector = elim (write_target major device) [
  | none ↦ (minus_one, [])
  | some (bus, dev) ↦
      let started = start_transfer input bus dev addr 0x34 in
      if transfer_error input bus then (minus_one, started) else (
        0,
        started ++ (send_words (sector_size / 2) (pio_port bus 0) sector ++ send_cmd bus 0xEA),
      )
]

-- the first `n` rounds of the loop that reads a sector into a buffer
unfoldable pub read_words : (n : ℕ) → (inw : ℕ → ℕ) → (buf : ℕ → ℕ) → ℕ → ℕ
read_words zero inw buf = buf
read_words (suc n) inw buf =
    update (update (read_words n inw buf) (2 * n + 1) (inw n / 256 % 256)) (2 * n) (inw n % 256)
