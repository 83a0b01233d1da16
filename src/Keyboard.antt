-- ===== src/Keyboard.antt =====
-- kernel/drivers/char/i8042.c: the buffer of keys, which the interrupt handler fills and a task empties.
-- The scan code, which the handler reads from a port, is an argument.
pub mod Fifo
pub mod Bounds
mod Tests
use tempos.Base.{
  ℕ, zero, suc, ◌+◌, ◌-◌, ◌%◌, ◌^◌, Bool, true, false, ◌==◌, ltb, leb, if◌then◌else◌, update, List,
  [], ◌∷◌, none, some, get_elem?, Res, ok, fault, ◌>>=◌,
}
use tempos.Tasks.{System, sleep_on, wakeup}

abbrev pub keyboard_buffer_size : ℕ
keyboard_buffer_size = 1024

-- WAIT_KEYBOARD_KEY
abbrev pub wait_keyboard_key : ℕ
wait_keyboard_key = 40

pub record Keyboard : Type 0 where
  pub buffer : ℕ → ℕ
  pub write_pos : ℕ
  pub read_pos : ℕ
  pub avail : ℕ

-- the initialisers of the table, up to the last one that is written out
abbrev scancodes : List ℕ
scancodes =
    0 ∷ 27 ∷ b'1' ∷ b'2' ∷ b'3' ∷ b'4' ∷ b'5' ∷ b'6' ∷ b'7' ∷ b'8' ∷ b'9' ∷ b'0' ∷ b'-' ∷ b'=' ∷ 8
    ∷ 9 ∷ b'q' ∷ b'w' ∷ b'e' ∷ b'r' ∷ b't' ∷ b'y' ∷ b'u' ∷ b'i' ∷ b'o' ∷ b'p' ∷ b'[' ∷ b']' ∷ 10 ∷ 1
    ∷ b'a' ∷ b's' ∷ b'd' ∷ b'f' ∷ b'g' ∷ b'h' ∷ b'j' ∷ b'k' ∷ b'l' ∷ b';' ∷ 39 ∷ b'`' ∷ 0 ∷ 92
    ∷ b'z' ∷ b'x' ∷ b'c' ∷ b'v' ∷ b'b' ∷ b'n' ∷ b'm' ∷ b',' ∷ b'.' ∷ b'/' ∷ 1 ∷ b'*' ∷ 1 ∷ b' ' ∷ 1
    ∷ 1 ∷ 1 ∷ 1 ∷ 1 ∷ 1 ∷ 1 ∷ 1 ∷ 1 ∷ 1 ∷ 1 ∷ 1 ∷ 1 ∷ 1 ∷ 1 ∷ 1 ∷ b'-' ∷ 1 ∷ 1 ∷ 1 ∷ b'+' ∷ 1 ∷ 1
    ∷ 1 ∷ 1 ∷ 1 ∷ 1 ∷ 1 ∷ 92 ∷ 1 ∷ 1 ∷ 1 ∷ []

-- the other entries of the array are zero
pub scancodes2ascii : ℕ → ℕ
scancodes2ascii c = elim (get_elem? scancodes c) [ none ↦ 0 | some k ↦ k ]

-- the part of init_8042 that is about the buffer
pub init_8042 : Keyboard → Keyboard
init_8042 b = record b { write_pos = 0; read_pos = 0 }

-- key = keyboard_buffer[cbuffer_read_pos], and the position behind it
pub take_key : Keyboard → Res (ℕ × Keyboard)
take_key b =
    if ltb b.read_pos keyboard_buffer_size
    then (let key = b.buffer b.read_pos in
        if leb keyboard_buffer_size b.read_pos
        then ok (key, record b { read_pos = 0 })
        else ok
            (key, record b { read_pos = b.read_pos + 1; avail = (b.avail + 2 ^ 32 - 1) % 2 ^ 32 }))
    else fault

-- the start of kbc_read_from_buffer, up to the place where a task that sleeps resumes
pub wait_for_key : ℕ → (fresh : ℕ) → System → Keyboard → Res System
wait_for_key k fresh s b = if b.avail == 0 then sleep_on k fresh s wait_keyboard_key else ok s

-- if (cbuffer_write_pos >= KEYBOARD_BUFFER_SIZE) cbuffer_write_pos = 0;
pub write_index : Keyboard → ℕ
write_index b = if leb keyboard_buffer_size b.write_pos then 0 else b.write_pos

pub put_key : Keyboard → (scancode : ℕ) → Res Keyboard
unfolding write_index
put_key b scancode =
    if ltb (write_index b) keyboard_buffer_size
    then ok (record b {
      buffer = update b.buffer (write_index b) (scancodes2ascii scancode);
      write_pos = write_index b + 1;
      avail = (b.avail + 1) % 2 ^ 32;
    })
    else fault

-- !(scancode & 0x80), for a byte
abbrev pub is_pressed : ℕ → Bool
is_pressed scancode = ltb scancode 0x80

pub keyboard_handler : ℕ → System → Keyboard → (scancode : ℕ) → Res (System × Keyboard)
keyboard_handler k s b scancode =
    if is_pressed scancode
    then (do b ← put_key b scancode; s ← wakeup k s wait_keyboard_key; ok (s, b))
    else ok (s, b)
