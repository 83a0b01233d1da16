-- ===== src/Printf/Tests.antt =====
-- The theorems on vsprintf at two formats.
use tempos.Base.{◌≡◌, refl, inl, [], ◌∷◌, arith, ◌==◌, if◌then◌else◌, ok, ◌>>=◌}
use tempos.Strings.{Bytes}
use tempos.Numbers.{atoi}
use tempos.Printf.{vsprintf}
use tempos.Printf.Decimal.{atoi-vsprintf}

-- the texts `ok` at 10 and `%d` at 20
abbrev memory : Bytes
memory a =
    if a == 10
    then b'o'
    else if a == 11
    then b'k'
    else if a == 20
    then b'%'
    else if a == 21
    then b'd'
    else 0

atoi-vsprintf_example :
    (do (_, m1) ← vsprintf 102 memory memory 50 20 (77 ∷ []); atoi 100 m1 50) ≡ ok 77
atoi-vsprintf_example =
    atoi-vsprintf 100 memory memory 50 20 b'd' 77 [] (omega arith) (inl refl) (omega arith)
      (omega arith) (omega arith) refl
