-- ===== src/Keyboard/Tests.antt =====
-- The theorems on the buffer of keys at a few keys.
use tempos.Base.{◌≡◌, refl, List, [], ◌∷◌, arith, Returns}
use tempos.Keyboard.{Keyboard, scancodes2ascii}
use tempos.Keyboard.Fifo.{Event, Pending, queue_run, run, run-queue_run}
use tempos.Keyboard.Bounds.{WithinBuffer}

abbrev empty : Keyboard
empty = record { buffer = λ _. 0; write_pos = 0; read_pos = 0; avail = 0 }

-- the keys `h` and `i` are pressed, `h` is released and read; then `i` is read
abbrev typed : List Event
typed = Event.code 35 ∷ Event.code 23 ∷ Event.code 163 ∷ Event.take ∷ Event.take ∷ []

run-queue_run_example :
    Returns (λ (keys, b'). (keys ≡ b'h' ∷ b'i' ∷ []) × Pending b' []) (run typed empty)
unfolding queue_run scancodes2ascii
run-queue_run_example =
    run-queue_run typed empty [] (b'h' ∷ b'i' ∷ []) []
      (record { apart = refl; within = omega arith; counted = refl; stored = tt }) (omega arith)
      refl

abbrev full : Keyboard
full = record { buffer = λ _. b'x'; write_pos = 1024; read_pos = 1024; avail = 0 }

full-WithinBuffer : WithinBuffer full
full-WithinBuffer = record { write_small = omega arith; read_small = omega arith }
