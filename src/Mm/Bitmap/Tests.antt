-- ===== src/Mm/Bitmap/Tests.antt =====
-- The theorems on init_mm.c at a bitmap.
use tempos.Base.{ℕ, ◌<◌, arith, ◌==◌, if◌then◌else◌}
use tempos.Mm.Bitmap.{Bitmap}

-- blocks 8 and 9 are on
abbrev map : Bitmap
map = λ i. if i == 1 then 0xc0 else 0

map-IsBytes : (i : ℕ) → map i < 256
map-IsBytes i = ground arith
