-- ===== src/Keyboard/Bounds.antt =====
-- The positions in the buffer of keys.
use tempos.Base.{
  ℕ, ◌+◌, ◌≤◌, ◌<◌, ◌≡◌, refl, true, false, ltb, leb, arith, Bool-cases, inl, inr, fault, Returns,
  returns, ◌⊎◌,
}
use tempos.Keyboard.{Keyboard, keyboard_buffer_size, take_key, put_key}

-- The positions are at most one behind the last place.
pub record WithinBuffer (b : Keyboard) : Type 0 where
  pub write_small : b.write_pos ≤ keyboard_buffer_size
  pub read_small : b.read_pos ≤ keyboard_buffer_size

-- A key that is pressed is stored inside the buffer, whatever the position was; the write position
-- stays between 1 and the size, and the read position stays.
pub put_key-WithinBuffer :
    (b : Keyboard) (scancode : ℕ)
    → WithinBuffer b
    → Returns
        (λ b'. WithinBuffer b' × (0 < b'.write_pos) × (b'.read_pos ≡ b.read_pos))
        (put_key b scancode)
unfolding put_key
put_key-WithinBuffer b scancode w = elim (Bool-cases (leb keyboard_buffer_size b.write_pos)) [
  | inl full ↦
      rw full (
        returns
          (record { write_small = omega arith; read_small = w.read_small }, omega arith, refl))
  | inr room ↦
      let below : ltb b.write_pos keyboard_buffer_size ≡ true = ground arith in
      rw room (
        rw below (
          returns
            (record { write_small = ground arith; read_small = w.read_small }, omega arith, refl)))
]

-- Within the positions that the code keeps, a key is taken from the buffer exactly when the read position is not the size; at
-- the size, which the 1024th key taken leaves behind, the code reads one place behind the buffer.
pub take_key-read_pos :
    (b : Keyboard)
    → WithinBuffer b
    → ((b.read_pos < keyboard_buffer_size)
        × Returns
            (λ (key, b').
              (key ≡ b.buffer b.read_pos) × WithinBuffer b' × (b'.read_pos ≡ b.read_pos + 1))
            (take_key b))
      ⊎ ((b.read_pos ≡ keyboard_buffer_size) × (take_key b ≡ fault))
unfolding take_key
take_key-read_pos b w = elim (Bool-cases (ltb b.read_pos keyboard_buffer_size)) [
  | inl below ↦
      let inside : leb keyboard_buffer_size b.read_pos ≡ false = ground arith in
      inl (
        ground arith,
        rw below (
            rw inside (
              returns
                (refl, record { write_small = w.write_small; read_small = ground arith }, refl))),
      )
  | inr at_end ↦ inr (ground arith, rw at_end refl)
]
