-- ===== src/Numbers/Tests.antt =====
-- The theorems on numbers as text at concrete numbers.
use tempos.Base.{◌≡◌, refl, true, ◌==◌, if◌then◌else◌, arith, update, ok, ◌>>=◌}
use tempos.Strings.{Bytes}
use tempos.Numbers.{Flags, numtostr, atoi, no_flags}
use tempos.Numbers.RoundTrip.{atoi-numtostr}

abbrev zeros : Bytes
zeros a = 0

atoi-numtostr_example :
    (do
      (end, m1) ← numtostr 5000 zeros 100 no_flags 4095 10 0 true
      atoi 5000 (update m1 end 0) 100)
    ≡ ok 4095
atoi-numtostr_example = atoi-numtostr 5000 zeros 100 4095 true (omega arith) (omega arith) refl

-- the text `x7`
abbrev wrong : Bytes
wrong a = if a == 0 then b'x' else if a == 1 then b'7' else 0

-- `% 08x`
abbrev padded : Flags
padded = record no_flags { zpad = true; space = true }
