-- ===== src/Chars/Classes.antt =====
-- How the classes of characters lie to each other.
use tempos.Base.{ℕ, ◌≡◌, false, ◌&&◌, ◌||◌, not, arith, ◌==◌, leb}
use tempos.Chars.{
  isdigit, isupper, islower, isalpha, isalnum, iscntrl, isgraph, isprint, ispunct, isxdigit,
}

-- Every number from 1 to 126 is in one and only one of these: control characters, the space, letters and
-- digits, and punctuation; a number that is not from 1 to 126 is in none. The hexadecimal digits are among
-- the letters and digits.
pub classes :
    (c : ℕ)
    → ((iscntrl c || (c == 32 || (isalnum c || ispunct c))) ≡ (leb 1 c && leb c 126))
      × ((isprint c && iscntrl c) ≡ false)
      × (isprint c ≡ (c == 32 || isgraph c))
      × ((isalnum c && ispunct c) ≡ false)
      × ((isxdigit c && not (isalnum c)) ≡ false)
unfolding isdigit isupper islower isalpha isalnum iscntrl isgraph isprint ispunct isxdigit
classes c = ground arith
