-- ===== src/Strings/Copy.antt =====
-- memcpy, memset, strcat and strcpy.
use tempos.Base.{
  ℕ, zero, suc, ◌+◌, ◌-◌, ◌%◌, ◌^◌, ◌<◌, ◌≤◌, ◌≡◌, refl, ◌≢◌, ◌⊎◌, inl, inr, Bool, true, ◌&&◌, List,
  arith, length, ◌==◌, if◌then◌else◌, Bool-cases, ==_of_ne, leb, ltb, update, Returns, returns,
}
use tempos.Strings.{Bytes, copy_loop, memcpy, fill_loop, strcpy}
use tempos.Strings.Scan.{IsString, strlen-length}

-- `a` is one of the `n` addresses from `s` on
abbrev pub within : (s n a : ℕ) → Bool
within s n a = leb s a && ltb a (s + n)

copy_loop-read :
    (n : ℕ) (m : Bytes) (dest src a : ℕ)
    → ((dest ≤ src) ⊎ (src + n ≤ dest))
    → copy_loop n m dest src a ≡ (if within dest n a then m (src + (a - dest)) else m a)
unfolding copy_loop
copy_loop-read zero m dest src a apart = ground arith
copy_loop-read (suc n) m dest src a apart =
    let m1 : Bytes = update m dest (m src) in
    let rest = copy_loop-read n m1 (dest + 1) (src + 1) a (ground (arith, apart)) in
    elim (Bool-cases (within (dest + 1) n a)) [
      | inl inside ↦
          let index : src + 1 + (a - (dest + 1)) ≡ src + (a - dest) = ground arith in
          let other : src + (a - dest) ≢ dest = ground (arith, apart) in
          let whole : within dest (suc n) a ≡ true = ground arith in
          rw (rest, inside, index, whole, ==_of_ne (src + (a - dest)) dest other) refl
      | inr outside ↦
          rw (rest, outside)
            (elim (Bool-cases (a == dest)) [
              | inl here ↦
                  let e : a ≡ dest = ground arith in
                  let start : src + (dest - dest) ≡ src = omega arith in
                  rw (e, start) (ground arith)
              | inr elsewhere ↦ ground arith
            ])
    ]

-- `memcpy` copies the bytes and changes no other, where the destination begins not behind the source or
-- the two do not overlap; it returns the destination.
pub memcpy-read :
    (m : Bytes) (dest src n a : ℕ)
    → ((dest ≤ src) ⊎ (src + n ≤ dest))
    → ((memcpy m dest src n).0 ≡ dest)
      × ((memcpy m dest src n).1 a ≡ (if within dest n a then m (src + (a - dest)) else m a))
unfolding memcpy
memcpy-read m dest src n a apart = (refl, copy_loop-read n m dest src a apart)

fill_loop-read :
    (n : ℕ) (m : Bytes) (s c a : ℕ)
    → fill_loop n m s c a ≡ (if within s n a then c % 2 ^ 8 else m a)
unfolding fill_loop
fill_loop-read zero m s c a = ground arith
fill_loop-read (suc n) m s c a =
    ground (arith, fill_loop-read n (update m s (c % 2 ^ 8)) (s + 1) c a)

-- `strcpy` copies the bytes of the string and not the 0 behind them: that byte of the destination stays.
pub strcpy-no_end :
    (k : ℕ) (m : Bytes) (dest src : ℕ) (bs : List ℕ)
    → IsString m src bs
    → length bs < k
    → ((dest ≤ src) ⊎ (src + length bs ≤ dest))
    → Returns
        (λ (r, m').
          (r ≡ dest)
          × ((i : ℕ) → i < length bs → m' (dest + i) ≡ m (src + i))
          × (m' (dest + length bs) ≡ m (dest + length bs)))
        (strcpy k m dest src)
unfolding strcpy memcpy
strcpy-no_end k m dest src bs i fuel apart = rw (strlen-length k m src bs i fuel) (
    returns (
      refl,
      (λ j lt. ground (arith, copy_loop-read (length bs) m dest src (dest + j) apart)),
      ground (arith, copy_loop-read (length bs) m dest src (dest + length bs) apart),
    ))

-- what `strcpy` leaves: the bytes of the string at the destination, and everything else
pub strcpy-copies :
    (k : ℕ) (m : Bytes) (dest src : ℕ) (bs : List ℕ)
    → IsString m src bs
    → length bs < k
    → ((dest ≤ src) ⊎ (src + length bs ≤ dest))
    → Returns
        (λ (r, m').
          ((i : ℕ) → i < length bs → m' (dest + i) ≡ m (src + i))
          × (m' (dest + length bs) ≡ m (dest + length bs))
          × ((a : ℕ) → (a < dest) ⊎ (dest + length bs ≤ a) → m' a ≡ m a))
        (strcpy k m dest src)
unfolding strcpy memcpy
strcpy-copies k m dest src bs i fuel apart = rw (strlen-length k m src bs i fuel) (
    returns (
      (λ j lt. ground (arith, copy_loop-read (length bs) m dest src (dest + j) apart)),
      ground (arith, copy_loop-read (length bs) m dest src (dest + length bs) apart),
      λ a far. elim far [
        | inl low ↦ ground (arith, copy_loop-read (length bs) m dest src a apart)
        | inr high ↦ ground (arith, copy_loop-read (length bs) m dest src a apart)
      ],
    ))
