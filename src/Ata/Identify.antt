-- ===== src/Ata/Identify.antt =====
-- The search for disks at the start of ata_generic.c. `inw` gives the words of a device's answer to the command IDENTIFY.
use tempos.Base.{
  ℕ, zero, suc, ◌+◌, ◌-◌, ◌*◌, ◌/◌, ◌%◌, ◌^◌, ◌<◌, ◌≤◌, ◌≡◌, ◌≢◌, ==_of_ne, refl, ◌∙◌, ◌⊎◌, inl,
  inr, Bool-cases, ◌&&◌, ◌||◌, not, List, [], ◌++◌, arith, ◌==◌, ltb, if◌then◌else◌, update,
}
use tempos.LinkedList.{null}
use tempos.Ata.{Ata}
use tempos.Ata.Ports.{Input, Action, pio_port, send_cmd, set_device}
use tempos.Ata.Queue.{Holding}

-- `struct _ata_dev_info`
pub record DevInfo : Type 0 where
  pub flags : ℕ
  pub sectors : ℕ
  pub type : ℕ
  pub serial : ℕ → ℕ
  pub firmware_rev : ℕ → ℕ
  pub model : ℕ → ℕ
  pub mult_secs : ℕ
  pub max_secs : ℕ → ℕ
  pub capabilities : ℕ → ℕ
  pub mult_sec : ℕ
  pub mword_dma : ℕ
  pub major_ver : ℕ
  pub minor_ver : ℕ
  pub cmds_supported : ℕ → ℕ
  pub ultra_dma : ℕ
  pub max_lba48 : ℕ → ℕ

-- a loop of `n` reads whose words are not used; `pos` counts the words that were read
pub skip : (n pos : ℕ) → ℕ
skip zero pos = pos
skip (suc n) pos = skip n (pos + 1)

-- `n` words into the bytes of a text, the high byte first
pub read_text : (n : ℕ) → (inw : ℕ → ℕ) → (pos : ℕ) → (ℕ → ℕ) → ℕ → ℕ
read_text zero inw pos text = text
read_text (suc n) inw pos text =
    update (update (read_text n inw pos text) (2 * n) (inw (pos + n) / 256 % 256)) (2 * n + 1)
      (inw (pos + n) % 256)

-- `n` words into an array
pub read_array : (n : ℕ) → (inw : ℕ → ℕ) → (pos : ℕ) → (ℕ → ℕ) → ℕ → ℕ
read_array zero inw pos a = a
read_array (suc n) inw pos a = update (read_array n inw pos a) n (inw (pos + n))

-- what is stored, and how many words were read
pub get_dev_info : (inw : ℕ → ℕ) → DevInfo → DevInfo × ℕ
unfolding skip read_text read_array
get_dev_info inw d =
    let at_serial = skip 9 1 in
    let at_firmware = skip 3 (at_serial + 10) in
    let at_model = at_firmware + 4 in
    let at_mult_secs = at_model + 20 in
    let at_capabilities = skip 1 (at_mult_secs + 1) in
    let at_mult_sec = skip 8 (at_capabilities + 2) in
    let at_max_secs = at_mult_sec + 1 in
    let at_mword_dma = skip 1 (at_max_secs + 2) in
    let at_major_ver = skip 16 (at_mword_dma + 1) in
    let at_cmds = at_major_ver + 2 in
    let at_ultra_dma = at_cmds + 6 in
    let at_lba48 = skip 11 (at_ultra_dma + 1) in
    (
      record d {
        type = inw 0;
        serial = update (read_text 10 inw at_serial d.serial) 19 0;
        firmware_rev = update (read_text 4 inw at_firmware d.firmware_rev) 7 0;
        model = update (read_text 20 inw at_model d.model) 39 0;
        mult_secs = inw at_mult_secs;
        capabilities = read_array 2 inw at_capabilities d.capabilities;
        mult_sec = inw at_mult_sec;
        max_secs = read_array 2 inw at_max_secs d.max_secs;
        mword_dma = inw at_mword_dma;
        major_ver = inw at_major_ver;
        minor_ver = inw (at_major_ver + 1);
        cmds_supported = read_array 6 inw at_cmds d.cmds_supported;
        ultra_dma = inw at_ultra_dma;
        max_lba48 = read_array 4 inw at_lba48 d.max_lba48;
      },
      skip 152 (at_lba48 + 4),
    )

-- the four words put together in 64 bits; `max_lba48[1] << 16` is an int, whose sign fills the upper half
pub lba48_size : (w : ℕ → ℕ) → ℕ
lba48_size w =
    if ltb (w 1) 0x8000
    then w 0 + w 1 * 2 ^ 16 + w 2 * 2 ^ 32 + w 3 * 2 ^ 48
    else w 0 + w 1 * 2 ^ 16 + (2 ^ 32 - 1) * 2 ^ 32

pub lba28_size : (w : ℕ → ℕ) → ℕ
lba28_size w =
    if ltb (w 1) 0x8000 then w 0 + w 1 * 2 ^ 16 else w 0 + w 1 * 2 ^ 16 + (2 ^ 32 - 1) * 2 ^ 32

-- what follows get_dev_info: the checks for a disk with LBA, its size and its flags
pub accept : DevInfo → DevInfo
unfolding lba48_size lba28_size
accept d =
    if not (d.type / 0x8000 % 2 == 0)
    then d
    else if d.capabilities 0 / 0x100 % 4 == 0
    then d
    else if d.cmds_supported 1 / 0x400 % 2 == 0
    then record d { sectors = lba28_size d.max_secs; flags = 0x01 }
    else record d { sectors = lba48_size d.max_lba48; flags = 0x03 }

-- a round of the loop over the devices: what is stored, and what is sent. The test after IDENTIFY is on the ports' numbers.
pub probe : Input → (bus dev : ℕ) → DevInfo → DevInfo × List Action
unfolding get_dev_info accept set_device send_cmd pio_port
probe input bus dev d =
    let d0 : DevInfo = record d { flags = 0 } in
    let reset = set_device bus dev ++ send_cmd bus 0x08 in
    if not (input.inb (pio_port bus 2) == 1)
      && not (input.inb (pio_port bus 3) == 1)
      && (input.inb (pio_port bus 8) == 0)
    then (d0, reset)
    else if (input.inb (pio_port bus 4) == 0x14) && (input.inb (pio_port bus 5) == 0xEB)
    then (d0, reset)
    else if not (pio_port bus 8 % 2 == 0) || not (pio_port bus 1 / 4 % 2 == 0)
    then (d0, reset ++ send_cmd bus 0xEC)
    else (accept (get_dev_info input.inw d0).0, reset ++ send_cmd bus 0xEC)

-- the loop over the first `n` devices; `inputs` is what the ports give for each
pub probe_all : (n : ℕ) → (inputs : ℕ → Input) → (ℕ → DevInfo) → (ℕ → DevInfo) × List Action
unfolding probe
probe_all zero inputs devices = (devices, [])
probe_all (suc n) inputs devices =
    let (before, sent) = probe_all n inputs devices in
    let (d, now) =
      probe (inputs n) (if ltb n 2 then 0 else 1) (if n == 0 || (n == 2) then 0 else 1)
        (before n) in
    (update before n d, sent ++ now)

-- "Block requests lists", with the marks after request_irq
pub init_queues : Ata → Ata
init_queues s = record s {
  blk_queue = update (update (update (update s.blk_queue 0 null) 1 null) 2 null) 3 null;
  discard_irq = update (update s.discard_irq 0 0) 1 0;
}

read_text-bytes :
    (n j : ℕ) (inw : ℕ → ℕ) (pos : ℕ) (text : ℕ → ℕ)
    → j < n
    → (read_text n inw pos text (2 * j) ≡ inw (pos + j) / 256 % 256)
      × (read_text n inw pos text (2 * j + 1) ≡ inw (pos + j) % 256)
unfolding read_text
read_text-bytes zero j inw pos text below = absurd (omega arith)
read_text-bytes (suc n) j inw pos text below = elim (Bool-cases (j == n)) [
  | inl last ↦ ground arith
  | inr before ↦ ground (arith, read_text-bytes n j inw pos text)
]

read_array-word :
    (n j : ℕ) (inw : ℕ → ℕ) (pos : ℕ) (a : ℕ → ℕ) → j < n → read_array n inw pos a j ≡ inw (pos + j)
unfolding read_array
read_array-word zero j inw pos a below = absurd (omega arith)
read_array-word (suc n) j inw pos a below = elim (Bool-cases (j == n)) [
  | inl last ↦ ground arith
  | inr before ↦ ground (arith, read_array-word n j inw pos a)
]

update_other : (f : ℕ → ℕ) (i v j : ℕ) → j ≢ i → update f i v j ≡ f j
update_other f i v j ne = rw (==_of_ne j i ne) refl

-- the words of the answer that the ATA standard has for the type, the model, the capabilities, the sizes and the command
-- sets, in what was stored, with the number of words that were read
abbrev pub Identified : (inw : ℕ → ℕ) → DevInfo × ℕ → Type 0
Identified inw (e, count) =
    (count ≡ 256)
    × (e.type ≡ inw 0)
    × ((j : ℕ) → j < 20 → e.model (2 * j) ≡ inw (27 + j) / 256 % 256)
    × ((j : ℕ) → j < 19 → e.model (2 * j + 1) ≡ inw (27 + j) % 256)
    × (e.model 39 ≡ 0)
    × ((j : ℕ) → j < 2 → e.capabilities j ≡ inw (49 + j))
    × ((j : ℕ) → j < 2 → e.max_secs j ≡ inw (60 + j))
    × ((j : ℕ) → j < 6 → e.cmds_supported j ≡ inw (82 + j))
    × ((j : ℕ) → j < 4 → e.max_lba48 j ≡ inw (100 + j))

-- `get_dev_info` reads the answer to its end, 256 words. The type, the capabilities, the two sizes and the command sets get the words that the ATA standard has
-- for them; the model gets the words 27 to 46, the high byte first, with a zero in place of the last byte.
pub get_dev_info-fields : (inw : ℕ → ℕ) (d : DevInfo) → Identified inw (get_dev_info inw d)
unfolding get_dev_info skip
get_dev_info-fields inw d = (
  refl,
  refl,
  (λ j below.
      update_other (read_text 20 inw 27 d.model) 39 0 (2 * j) (omega arith)
      ∙ (read_text-bytes 20 j inw 27 d.model below).0),
  (λ j below.
      update_other (read_text 20 inw 27 d.model) 39 0 (2 * j + 1) (omega arith)
      ∙ (read_text-bytes 20 j inw 27 d.model (omega arith)).1),
  refl,
  (λ j below. read_array-word 2 j inw 49 d.capabilities below),
  (λ j below. read_array-word 2 j inw 60 d.max_secs below),
  (λ j below. read_array-word 6 j inw 82 d.cmds_supported below),
  λ j below. read_array-word 4 j inw 100 d.max_lba48 below,
)

-- The size in 48 bits is right for a disk whose second word is below 2^15; for any other it is 2^63 sectors or more.
pub lba48_size-words :
    (w : ℕ → ℕ)
    → ((i : ℕ) → w i < 2 ^ 16)
    → ((w 1 < 2 ^ 15) × (lba48_size w ≡ w 0 + 2 ^ 16 * (w 1 + 2 ^ 16 * (w 2 + 2 ^ 16 * w 3))))
      ⊎ ((2 ^ 15 ≤ w 1) × (2 ^ 63 ≤ lba48_size w))
unfolding lba48_size
lba48_size-words w small = elim (Bool-cases (ltb (w 1) 0x8000)) [
  | inl low ↦ let below : w 1 < 2 ^ 15 = ground arith in inl (below, rw low (omega arith))
  | inr high ↦ let above : 2 ^ 15 ≤ w 1 = ground arith in inr (above, rw high (omega arith))
]

-- After the start no queue has a request, and no interrupt is to be discarded.
pub init_queues-Holding :
    (s : Ata) (dev bus : ℕ)
    → dev < 4
    → bus < 2
    → Holding (init_queues s) dev [] × ((init_queues s).discard_irq bus ≡ 0)
unfolding init_queues
init_queues-Holding s dev bus queue valid =
    (record { held = tt; start = ground arith; stored = tt }, ground arith)
