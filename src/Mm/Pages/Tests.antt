-- ===== src/Mm/Pages/Tests.antt =====
-- The theorems on the stack of pages at a stack of four.
use tempos.Base.{ℕ, ◌+◌, ◌*◌, arith}
use tempos.Mm.Pages.{Pages, IsValid}

-- two of four pages are handed out
abbrev pages : Pages
pages = record { stack = λ i. (i + 1) * 4096; top = 2; max = 4 }

pages-IsValid : IsValid pages
pages-IsValid = record {
  distinct = λ i j a b c e. absurd (omega arith);
  not_zero = λ i a b. omega arith;
  bounded = omega arith;
}

abbrev no_zone : ℕ
no_zone = 7
