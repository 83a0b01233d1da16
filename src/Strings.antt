-- ===== src/Strings.antt =====
-- kernel/lib/string.c over the memory of bytes. A function that returns a pointer returns it beside the
-- memory; an `int` is its bit pattern. A loop that looks for a NUL has `k` rounds.
pub mod Scan
pub mod Copy
pub mod Concat
pub mod Compare
mod Tests
use tempos.Base.{
  ℕ, zero, suc, ◌+◌, ◌-◌, ◌%◌, ◌^◌, Bool, true, false, ◌&&◌, not, ◌==◌, if◌then◌else◌, update, Res,
  ok, out_of_fuel, ◌>>=◌,
}

abbrev pub Bytes : Type 0
Bytes = ℕ → ℕ

-- while(*tmp != '\0') tmp++;
unfoldable pub end_walk : ℕ → Bytes → (tmp : ℕ) → Res ℕ
end_walk zero m tmp = out_of_fuel
end_walk (suc k) m tmp = let rest = end_walk k m (tmp + 1) in if m tmp == 0 then ok tmp else rest

unfoldable pub strlen : ℕ → Bytes → (s : ℕ) → Res ℕ
strlen k m s = do tmp ← end_walk k m s; ok (tmp - s)

-- while(p--) *pdest++ = *psrc++;
unfoldable pub copy_loop : (p : ℕ) → Bytes → (pdest psrc : ℕ) → Bytes
copy_loop zero m pdest psrc = m
copy_loop (suc p) m pdest psrc = copy_loop p (update m pdest (m psrc)) (pdest + 1) (psrc + 1)

unfoldable pub memcpy : Bytes → (dest src n : ℕ) → ℕ × Bytes
memcpy m dest src n = (dest, copy_loop n m dest src)

-- while(p--) *pdest++ = c;
pub fill_loop : (p : ℕ) → Bytes → (pdest c : ℕ) → Bytes
fill_loop zero m pdest c = m
fill_loop (suc p) m pdest c = fill_loop p (update m pdest (c % 2 ^ 8)) (pdest + 1) c

pub memset : Bytes → (s c n : ℕ) → ℕ × Bytes
memset m s c n = (s, fill_loop n m s c)

-- while(*src != '\0') *pdest++ = *src++; *pdest = '\0';
pub append_walk : ℕ → Bytes → (pdest src : ℕ) → Res Bytes
append_walk zero m pdest src = out_of_fuel
append_walk (suc k) m pdest src =
    let rest = append_walk k (update m pdest (m src)) (pdest + 1) (src + 1) in
    if m src == 0 then ok (update m pdest 0) else rest

pub strcat : ℕ → Bytes → (dest src : ℕ) → Res (ℕ × Bytes)
strcat k m dest src = do pdest ← end_walk k m dest; m' ← append_walk k m pdest src; ok (dest, m')

pub strncat : ℕ → Bytes → (dest src n : ℕ) → Res (ℕ × Bytes)
strncat k m dest src n = do
  pdest ← end_walk k m dest
  ok (dest, update (copy_loop n m pdest src) (pdest + n) 0)

unfoldable pub strcpy : ℕ → Bytes → (dest src : ℕ) → Res (ℕ × Bytes)
strcpy k m dest src = do len ← strlen k m src; ok (memcpy m dest src len)

pub strncpy : Bytes → (dest src n : ℕ) → ℕ × Bytes
strncpy m dest src n = memcpy m dest src n

-- the difference of two bytes as an `int`
abbrev pub byte_diff : ℕ → ℕ → ℕ
byte_diff a b = (a + 2 ^ 32 - b) % 2 ^ 32

unfoldable pub strcmp : ℕ → Bytes → (s1 s2 : ℕ) → Res ℕ
strcmp zero m s1 s2 = out_of_fuel
strcmp (suc k) m s1 s2 =
    let rest = strcmp k m (s1 + 1) (s2 + 1) in
    if m s1 == m s2 && not (m s1 == 0) then rest else ok (byte_diff (m s1) (m s2))

-- while((*s1++ != *s2++) && (*s1 && *s2) && p--);
pub strncmp : (p : ℕ) → Bytes → (s1 s2 : ℕ) → ℕ
strncmp zero m s1 s2 = byte_diff (m (s1 + 1)) (m (s2 + 1))
strncmp (suc p) m s1 s2 =
    let rest = strncmp p m (s1 + 1) (s2 + 1) in
    if not (m s1 == m s2) && (not (m (s1 + 1) == 0) && not (m (s2 + 1) == 0))
    then rest
    else byte_diff (m (s1 + 1)) (m (s2 + 1))

-- for (; *p; p++) if (c == *p) break; with *p as the answer
pub member_walk : ℕ → Bytes → (c p : ℕ) → Res ℕ
member_walk zero m c p = out_of_fuel
member_walk (suc k) m c p =
    let rest = member_walk k m c (p + 1) in
    if m p == 0 then ok 0 else if c == m p then ok (m p) else rest

-- the loop of `strspn`, from `str`
pub span_walk : ℕ → Bytes → (str accept : ℕ) → Res ℕ
span_walk zero m str accept = out_of_fuel
span_walk (suc k) m str accept = if m str == 0 then ok str else do
  c ← member_walk k m (m str) accept
  if c == 0 then ok str else span_walk k m (str + 1) accept

pub strspn : ℕ → Bytes → (s accept : ℕ) → Res ℕ
strspn k m s accept = do str ← span_walk k m s accept; ok (str - s)

-- the loop of `strcspn`; `i` counts from `s`
pub cspan_walk : ℕ → Bytes → (s reject i : ℕ) → Res ℕ
cspan_walk zero m s reject i = out_of_fuel
cspan_walk (suc k) m s reject i = if m (s + i) == 0 then ok i else do
  c ← member_walk k m (m (s + i)) reject
  if c == 0 then cspan_walk k m s reject (i + 1) else ok i

pub strcspn : ℕ → Bytes → (s reject : ℕ) → Res ℕ
strcspn k m s reject = cspan_walk k m s reject 0

-- the loop of `strstr`, with `res`, `phay` and `pnee`; NULL is 0
pub str_walk : ℕ → Bytes → (res phay pnee : ℕ) → Res ℕ
str_walk zero m res phay pnee = out_of_fuel
str_walk (suc k) m res phay pnee =
    let missed = str_walk k m phay (phay + 1) pnee in
    let matched = str_walk k m res (phay + 1) (pnee + 1) in
    if m pnee == 0
    then ok res
    else if m phay == 0
    then ok 0
    else if m phay == m pnee
    then matched
    else missed

pub strstr : ℕ → Bytes → (haystack needle : ℕ) → Res ℕ
strstr k m haystack needle = str_walk k m haystack haystack needle

-- the token, `*save_ptr` and the memory
pub strtok_r : ℕ → Bytes → (s delim save_ptr : ℕ) → Res (ℕ × ℕ × Bytes)
strtok_r k m s delim save_ptr = do
  let s0 = if s == 0 then save_ptr else s
  if m s0 == 0 then ok (0, s0, m) else (do
    skip ← strspn k m s0 delim
    let s1 = s0 + skip
    if m s1 == 0 then ok (0, s1, m) else (do
      len ← strcspn k m s1 delim
      let end = s1 + len
      if m end == 0 then ok (s1, end, m) else ok (s1, end + 1, update m end 0)))

-- `strtok`: the pointer `olds` is part of the state
pub strtok : ℕ → Bytes → (s delim olds : ℕ) → Res (ℕ × ℕ × Bytes)
strtok k m s delim olds = strtok_r k m s delim olds
