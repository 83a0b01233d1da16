-- ===== src/Base/Words.antt =====
-- Words in memory, the low byte first.
use Prim.Native.Nat.{ℕ, ◌+◌, ◌*◌}

-- bytes by their offset
abbrev pub Data : Type 0
Data = ℕ → ℕ

unfoldable pub read16 : Data → ℕ → ℕ
read16 d at = d at + 256 * d (at + 1)

unfoldable pub read32 : Data → ℕ → ℕ
unfolding read16
read32 d at = read16 d at + 65536 * read16 d (at + 2)
