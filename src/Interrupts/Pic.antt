-- ===== src/Interrupts/Pic.antt =====
-- init_PIC as the two controllers read it.
use tempos.Base.{ℕ, ◌≡◌, refl, false, List, [], ◌∷◌, ◌==◌, if◌then◌else◌}
use tempos.Interrupts.{Out, init_pic, get_picmask, set_picmask}

-- The words that a controller gets at its port for data after the start of its initialization at the port for commands; four are
-- needed: the start itself, the first vector, the place of the other controller, and the mode.
abbrev pub words_at : (data_port : ℕ) → List Out → List ℕ
words_at data_port [] = []
words_at data_port (o ∷ outs) =
    if o.port == data_port then o.value ∷ words_at data_port outs else words_at data_port outs

-- `init_pic` gives the master its mask, the vector 0x20, the place of the slave and the mode, the mode twice; the slave gets its mask, the vector 0x28
-- and its place, but no mode.
init_pic-words :
    (words_at 0x21 init_pic ≡ 0xFB ∷ 0x20 ∷ 0x04 ∷ 0x03 ∷ 0x03 ∷ [])
    × (words_at 0xA1 init_pic ≡ 0xFF ∷ 0x28 ∷ 0x02 ∷ [])
unfolding init_pic
init_pic-words = (refl, refl)

-- A mask that is set at one of the two ports is what is written there; at another port nothing is written and 0 is read.
set_picmask-other :
    (mask pic : ℕ) (inb : ℕ → ℕ)
    → ((pic == 0x21) ≡ false)
    → ((pic == 0xA1) ≡ false)
    → (set_picmask mask pic ≡ []) × (get_picmask inb pic ≡ 0)
unfolding set_picmask get_picmask
set_picmask-other mask pic inb a b = rw (a, b) (refl, refl)
