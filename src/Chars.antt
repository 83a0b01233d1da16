-- ===== src/Chars.antt =====
-- kernel/lib/ctype.c. An `int` is its bit pattern of 32 bits, and the answers are Booleans.
pub mod Classes
mod Tests
use tempos.Base.{ℕ, ◌^◌, Bool, ◌&&◌, ◌||◌, not, ◌==◌, leb}

unfoldable pub isdigit : ℕ → Bool
isdigit c = leb 48 c && leb c 57

pub isupper : ℕ → Bool
isupper c = leb 65 c && leb c 90

pub islower : ℕ → Bool
islower c = leb 97 c && leb c 122

pub isalpha : ℕ → Bool
isalpha c = isupper c || islower c

pub isalnum : ℕ → Bool
isalnum c = isalpha c || isdigit c

-- also for a negative number
pub isascii : ℕ → Bool
isascii c = leb c 127 || leb (2 ^ 31) c

pub isblank : ℕ → Bool
isblank c = c == 32 || c == 9

pub iscntrl : ℕ → Bool
iscntrl c = leb 1 c && leb c 31

pub isgraph : ℕ → Bool
isgraph c = leb 33 c && leb c 126

pub isprint : ℕ → Bool
isprint c = leb 32 c && leb c 126

pub ispunct : ℕ → Bool
ispunct c = isgraph c && not (isalnum c)

pub isspace : ℕ → Bool
isspace c = c == 12 || (c == 10 || (c == 13 || (c == 9 || c == 11)))

pub isxdigit : ℕ → Bool
isxdigit c = (leb 65 c && leb c 70) || ((leb 97 c && leb c 102) || (leb 48 c && leb c 57))
