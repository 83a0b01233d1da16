-- ===== src/Devices.antt =====
-- kernel/fs/devices.c. A driver is its address; `create` is what create_hash_queue does for it, a queue, NULL
-- or a fault. A major number that is no index of the table is a fault.
pub mod Register
mod Tests
use tempos.Base.{
  ℕ, zero, suc, ◌+◌, ◌-◌, ◌^◌, Bool, not, Option, none, some, ◌==◌, ltb, if◌then◌else◌, update, Res,
  ok, fault, ◌>>=◌,
}

abbrev pub Ptr : Type 0
Ptr = ℕ

abbrev pub null : Ptr
null = 0

-- the two tables, and the fields of the block drivers
pub record Drivers {ℓ} (Q : Type ℓ) : Type ℓ where
  pub char_dev_drivers : ℕ → Ptr
  pub block_dev_drivers : ℕ → Ptr
  pub major : Ptr → ℕ
  pub buffer_queue : Ptr → Option Q
  pub inodes_hash_table : Ptr → ℕ → Ptr

-- for(i = i; i < i + n; i++) t[i] = NULL;
pub clear_table : (n i : ℕ) → (ℕ → Ptr) → ℕ → Ptr
clear_table zero i t = t
clear_table (suc n) i t = clear_table n (i + 1) (update t i null)

-- an `int` is its bit pattern
abbrev pub minus_one : ℕ
minus_one = 2 ^ 32 - 1

module _ {ℓ} {Q : Type ℓ} where
  pub init_drivers_interface : Drivers Q → Drivers Q
  init_drivers_interface s = record s {
    char_dev_drivers = clear_table 256 0 s.char_dev_drivers;
    block_dev_drivers = clear_table 256 0 s.block_dev_drivers;
  }

  -- the end of `register_block_driver`, after create_hash_queue
  pub install : (driver : Ptr) → Option Q → Drivers Q → ℕ × Drivers Q
  install driver none s = (minus_one, record s { buffer_queue = update s.buffer_queue driver none })
  install driver (some q) s = (
    0,
    record s {
      buffer_queue = update s.buffer_queue driver (some q);
      inodes_hash_table =
          update s.inodes_hash_table driver (clear_table 255 0 (s.inodes_hash_table driver));
      block_dev_drivers = update s.block_dev_drivers (s.major driver) driver;
    },
  )

  pub register_block_driver :
      (create : Res (Option Q)) → (driver : Ptr) → Drivers Q → Res (ℕ × Drivers Q)
  register_block_driver create driver s =
      if driver == null
      then ok (minus_one, s)
      else if not (ltb (s.major driver) 256)
      then fault
      else if not (s.block_dev_drivers (s.major driver) == null)
      then ok (minus_one, s)
      else (do q ← create; ok (install driver q s))
