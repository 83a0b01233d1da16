-- ===== src/Devices/Register.antt =====
-- register_block_driver.
use tempos.Base.{
  ℕ, zero, suc, ◌+◌, ◌<◌, ◌≤◌, ◌≡◌, refl, ◌≢◌, true, Option, some, arith, ◌==◌, ==_self, ltb,
  if◌then◌else◌, ==_of_ne, update, Res, ok, Returns, returns,
}
use tempos.Devices.{Ptr, null, Drivers, clear_table, minus_one, install, register_block_driver}

clear_table-below : (n i : ℕ) (t : ℕ → Ptr) (j : ℕ) → j < i → clear_table n i t j ≡ t j
unfolding clear_table
clear_table-below zero i t j lt = refl
clear_table-below (suc n) i t j lt = ground (arith, clear_table-below n (i + 1) (update t i null) j)

clear_table-within :
    (n i : ℕ) (t : ℕ → Ptr) (j : ℕ) → i ≤ j → j < i + n → clear_table n i t j ≡ null
unfolding clear_table
clear_table-within zero i t j le lt = absurd (omega arith)
clear_table-within (suc n) i t j le lt = ground (
  arith,
  clear_table-within n (i + 1) (update t i null) j,
  clear_table-below n (i + 1) (update t i null) j,
)

module _ {ℓ} {Q : Type ℓ} where
  -- what a registration leaves
  pub record Registered (driver : Ptr) (q : Q) (s : Drivers Q) (out : ℕ × Drivers Q) : Type ℓ where
    pub success : out.0 ≡ 0
    pub table :
        (m : ℕ)
        → out.1.block_dev_drivers m
          ≡ (if m == s.major driver then driver else s.block_dev_drivers m)
    pub queue : out.1.buffer_queue driver ≡ some q
    pub inodes : (i : ℕ) → i < 255 → out.1.inodes_hash_table driver i ≡ null
    pub once :
        (create : Res (Option Q)) (other : Ptr)
        → other ≢ null
        → s.major other ≡ s.major driver
        → register_block_driver create other out.1 ≡ ok (minus_one, out.1)

  -- Where no driver has the major number yet and create_hash_queue gives a queue, `register_block_driver`
  -- returns 0 and puts the driver into the table, with that queue and no i-nodes; other entries stay. From
  -- then on a driver with the same major number is refused, and nothing changes then.
  pub register_block_driver-Registered :
      (driver : Ptr) (q : Q) (s : Drivers Q)
      → driver ≢ null
      → s.major driver < 256
      → s.block_dev_drivers (s.major driver) ≡ null
      → Returns (Registered driver q s) (register_block_driver (ok (some q)) driver s)
  unfolding register_block_driver install
  register_block_driver-Registered driver q s ne small free =
      let small' : ltb (s.major driver) 256 ≡ true = ground arith in
      rw (==_of_ne driver null ne, small', free)
        (returns (record {
          success = refl;
          table = λ m. refl;
          queue = rw (==_self driver) refl;
          inodes = λ i lt.
              rw (==_self driver)
                (clear_table-within 255 0 (s.inodes_hash_table driver) i (omega arith) lt);
          once = λ create other n e.
              rw
                (
                  ==_of_ne other null n,
                  e,
                  small',
                  ==_self (s.major driver),
                  ==_of_ne driver null ne,
                )
                refl;
        }))
