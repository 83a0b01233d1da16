-- ===== src/Devices/Tests.antt =====
-- The theorem on drivers at an empty table.
use tempos.Base.{ℕ, none}
use tempos.Devices.{Drivers}

-- every driver has the major number 3; a queue is a number here
abbrev drivers : Drivers ℕ
drivers = record {
  char_dev_drivers = λ m. 0;
  block_dev_drivers = λ m. 0;
  major = λ p. 3;
  buffer_queue = λ p. none;
  inodes_hash_table = λ p i. 1;
}
