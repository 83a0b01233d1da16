-- ===== src/Keyboard/Fifo.antt =====
-- The buffer of keys as a queue.
use tempos.Base.{
  ℕ, ◌+◌, ◌≤◌, ◌<◌, ◌≡◌, refl, true, false, ltb, leb, if◌then◌else◌, arith, Bool-cases, inl, inr,
  ok, ◌>>=◌, Res, Returns, returns, Returns-bind, List, [], ◌∷◌, ◌++◌, length, length-append,
  Option, none, some, update,
}
use tempos.Keyboard.{Keyboard, keyboard_buffer_size, take_key, put_key, is_pressed, scancodes2ascii}

-- what happens to the buffer: a scan code arrives, or a task takes a key
pub data Event : Type 0 where
  code : ℕ → Event
  take : Event

-- what the interrupt handler does to the buffer
pub store : Keyboard → (scancode : ℕ) → Res Keyboard
store b scancode = if is_pressed scancode then put_key b scancode else ok b

-- the keys that are taken, in order
pub run : List Event → Keyboard → Res (List ℕ × Keyboard)
run [] b = ok ([], b)
run (code c ∷ es) b = do b ← store b c; run es b
run (take ∷ es) b = do (key, b) ← take_key b; (keys, b) ← run es b; ok (key ∷ keys, b)

-- the same events on a queue; a key is taken only where there is one
abbrev pub received : ℕ → List ℕ → List ℕ
received c q = if is_pressed c then q ++ (scancodes2ascii c ∷ []) else q

abbrev pub deliver : ℕ → Option (List ℕ × List ℕ) → Option (List ℕ × List ℕ)
deliver key none = none
deliver key (some (keys, q)) = some (key ∷ keys, q)

unfoldable pub queue_run : List Event → List ℕ → Option (List ℕ × List ℕ)
queue_run [] q = some ([], q)
queue_run (code c ∷ es) q = queue_run es (received c q)
queue_run (take ∷ es) [] = none
queue_run (take ∷ es) (key ∷ q) = deliver key (queue_run es q)

-- how many keys are pressed
abbrev pub presses : List Event → ℕ
presses [] = 0
presses (code c ∷ es) = (if is_pressed c then 1 else 0) + presses es
presses (take ∷ es) = presses es

abbrev pub Stored : (ℕ → ℕ) → ℕ → List ℕ → Type 0
Stored buffer pos [] = Unit {0}
Stored buffer pos (key ∷ q) = (buffer pos ≡ key) × Stored buffer (pos + 1) q

-- The keys of `q` wait between the two positions, and they are counted.
pub record Pending (b : Keyboard) (q : List ℕ) : Type 0 where
  pub apart : b.write_pos ≡ b.read_pos + length q
  pub within : b.write_pos ≤ keyboard_buffer_size
  pub counted : b.avail ≡ length q
  pub stored : Stored b.buffer b.read_pos q

Stored-update :
    (buffer : ℕ → ℕ) (pos key w : ℕ) (q : List ℕ)
    → Stored buffer pos q
    → w ≡ pos + length q
    → Stored (update buffer w key) pos (q ++ (key ∷ []))
Stored-update buffer pos key w [] held e = ground arith
Stored-update buffer pos key w (x ∷ q) held e =
    (ground arith, Stored-update buffer (pos + 1) key w q held.1 (omega arith))

put_key-Pending :
    (b : Keyboard) (c : ℕ) (q : List ℕ)
    → Pending b q
    → b.write_pos < keyboard_buffer_size
    → Returns
        (λ b'. Pending b' (q ++ (scancodes2ascii c ∷ [])) × (b'.write_pos ≡ b.write_pos + 1))
        (put_key b c)
unfolding put_key
put_key-Pending b c q p room =
    let inside : ltb b.write_pos keyboard_buffer_size ≡ true = ground arith in
    let below : leb keyboard_buffer_size b.write_pos ≡ false = ground arith in
    let key = scancodes2ascii c in
    rw below (
      rw inside (
        returns (
          record {
            apart = omega (arith, p.apart, length-append {0} q (key ∷ []));
            within = omega arith;
            counted = omega (arith, p.counted, p.apart, length-append {0} q (key ∷ []));
            stored = Stored-update b.buffer b.read_pos key b.write_pos q p.stored p.apart;
          },
          refl,
        )))

take_key-Pending :
    (b : Keyboard) (key : ℕ) (q : List ℕ)
    → Pending b (key ∷ q)
    → Returns
        (λ (key', b'). (key' ≡ key) × Pending b' q × (b'.write_pos ≡ b.write_pos))
        (take_key b)
unfolding take_key
take_key-Pending b key q p =
    let inside : ltb b.read_pos keyboard_buffer_size ≡ true = ground (arith, p.apart, p.within) in
    let below : leb keyboard_buffer_size b.read_pos ≡ false = ground (arith, p.apart, p.within) in
    rw inside (
      rw below (
        returns (
          p.stored.0,
          record {
            apart = omega (arith, p.apart);
            within = p.within;
            counted = omega (arith, p.counted, p.apart, p.within);
            stored = p.stored.1;
          },
          refl,
        )))

deliver-some :
    (key : ℕ) (r : Option (List ℕ × List ℕ)) (out q : List ℕ)
    → deliver key r ≡ some (out, q)
    → (rest : List ℕ) × (r ≡ some (rest, q)) × (out ≡ key ∷ rest)
deliver-some key none out q e = absurd (cc)
deliver-some key (some (rest, q')) out q e = (rest, cc, cc)

-- As long as all keys pressed so far fit into the buffer, it is a queue: for any order of arriving codes and keys taken in which
-- a key is taken only where one waits, the keys come out complete and in the order in which they
-- were pressed, the others wait and are counted, and no access is out of bounds. Codes of released keys change nothing.
pub run-queue_run :
    (es : List Event) (b : Keyboard) (q out q' : List ℕ)
    → Pending b q
    → b.write_pos + presses es ≤ keyboard_buffer_size
    → queue_run es q ≡ some (out, q')
    → Returns (λ (keys, b'). (keys ≡ out) × Pending b' q') (run es b)
unfolding run queue_run store
run-queue_run [] b q out q' p room e = returns (cc, let same : q ≡ q' = cc in rw (← same) p)
run-queue_run (code c ∷ es) b q out q' p room e = elim (Bool-cases (is_pressed c)) [
  | inl down ↦ rw down (
      Returns-bind (put_key-Pending b c q p (ground arith)) λ b1 (p1, at).
        run-queue_run es b1 (q ++ (scancodes2ascii c ∷ [])) out q' p1 (ground arith) (rw down at e))
  | inr up ↦ rw up (run-queue_run es b q out q' p (ground arith) (rw up at e))
]
run-queue_run (take ∷ es) b [] out q' p room e = absurd (cc)
run-queue_run (take ∷ es) b (key ∷ q) out q' p room e =
    let (rest, e', split) = deliver-some key (queue_run es q) out q' e in
    Returns-bind (take_key-Pending b key q p) λ (key', b1) (same, p1, at).
      Returns-bind (run-queue_run es b1 q rest q' p1 (omega arith) e')
        λ (keys, b2) (all, p2). returns (cc, p2)
