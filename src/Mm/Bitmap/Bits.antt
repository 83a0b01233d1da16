-- ===== src/Mm/Bitmap/Bits.antt =====
-- What `bmap_on` and `bmap_off` do to each bit.
use Prim.Native.Nat.{bit_and, bit_or}
use tempos.Base.{
  ℕ, ◌-◌, ◌*◌, ◌/◌, ◌%◌, ◌<◌, ◌≡◌, refl, Bool, true, false, ◌||◌, not, arith, ltb, ◌==◌,
  if◌then◌else◌, every, every_sound,
}
use tempos.Mm.Bitmap.{Bitmap, mask, bit_at, is_on, bmap_on, bmap_off}

abbrev eqb : Bool → Bool → Bool
eqb true b = b
eqb false b = not b

eqb_sound : (a b : Bool) → eqb a b ≡ true → a ≡ b
eqb_sound true b h = ground arith
eqb_sound false b h = ground arith

abbrev lit : ℕ → ℕ → Bool
lit x j = not (bit_and x (mask j) == 0)

-- every byte `x` and every two bits `j` and `k` of it
abbrev on_law : ℕ → ℕ → ℕ → Bool
on_law j k x = eqb (lit (bit_or x (mask j)) k) (k == j || lit x k)

abbrev off_law : ℕ → ℕ → ℕ → Bool
off_law j k x = eqb (lit (bit_or x (255 - mask j)) k) (if k == j then lit x k else true)

abbrev everywhere : (ℕ → ℕ → ℕ → Bool) → Bool
everywhere law = every (λ j. every (λ k. every (law j k) 256) 8) 8

everywhere_sound :
    (law : ℕ → ℕ → ℕ → Bool)
    → everywhere law ≡ true
    → (j k x : ℕ) → j < 8
    → k < 8
    → x < 256
    → law j k x ≡ true
everywhere_sound law h j k x hj hk hx =
    let row = every_sound (λ j. every (λ k. every (law j k) 256) 8) 8 h j hj in
    let column = every_sound (λ k. every (law j k) 256) 8 row k hk in
    every_sound (law j k) 256 column x hx

abbrev byte_law : ℕ → ℕ → ℕ → Bool
byte_law j k x = ltb (bit_or x (mask j)) 256

byte_table : everywhere byte_law ≡ true
unfolding every
byte_table = refl

abbrev off_byte_law : ℕ → ℕ → ℕ → Bool
off_byte_law j k x = ltb (bit_or x (255 - mask j)) 256

off_byte_table : everywhere off_byte_law ≡ true
unfolding every
off_byte_table = refl

on_table : everywhere on_law ≡ true
unfolding every
on_table = refl

off_table : everywhere off_law ≡ true
unfolding every
off_table = refl

lit-on : (j k x : ℕ) → j < 8 → k < 8 → x < 256 → lit (bit_or x (mask j)) k ≡ (k == j || lit x k)
lit-on j k x hj hk hx = eqb_sound _ _ (everywhere_sound on_law on_table j k x hj hk hx)

lit-off :
    (j k x : ℕ)
    → j < 8
    → k < 8
    → x < 256
    → lit (bit_or x (255 - mask j)) k ≡ (if k == j then lit x k else true)
lit-off j k x hj hk hx = eqb_sound _ _ (everywhere_sound off_law off_table j k x hj hk hx)

-- The entries of a bitmap are bytes.
abbrev pub IsBytes : Bitmap → Type 0
IsBytes m = (i : ℕ) → m i < 256

pub bmap_on-IsBytes : (m : Bitmap) (block : ℕ) → IsBytes m → IsBytes (bmap_on m block)
unfolding bmap_on
bmap_on-IsBytes m block bytes i = ground (
  arith,
  bytes i,
  everywhere_sound byte_law byte_table (block - block / 8 * 8) 0 (m (block / 8)) (omega arith)
      (omega arith) (bytes _),
)

-- `bmap_on` turns on the bit of its block, and leaves the bit of every other block.
pub is_on-bmap_on :
    (m : Bitmap) (block other : ℕ)
    → IsBytes m
    → is_on (bmap_on m block) other ≡ (other == block || is_on m other)
unfolding bmap_on bit_at
is_on-bmap_on m block other bytes = ground (
  arith,
  lit-on (block - block / 8 * 8) (other % 8) (m (block / 8)) (omega arith) (omega arith) (bytes _),
)

pub bmap_off-IsBytes : (m : Bitmap) (block : ℕ) → IsBytes m → IsBytes (bmap_off m block)
unfolding bmap_off
bmap_off-IsBytes m block bytes i = ground (
  arith,
  bytes i,
  everywhere_sound off_byte_law off_byte_table (block - block / 8 * 8) 0 (m (block / 8))
      (omega arith) (omega arith) (bytes _),
)

-- `bmap_off` leaves the bit of its block as it is, and turns on the other seven bits of the byte.
pub is_on-bmap_off :
    (m : Bitmap) (block other : ℕ)
    → IsBytes m
    → is_on (bmap_off m block) other
      ≡ (if other == block then is_on m other else (other / 8 == block / 8 || is_on m other))
unfolding bmap_off bit_at
is_on-bmap_off m block other bytes = ground (
  arith,
  lit-off (block - block / 8 * 8) (other % 8) (m (block / 8)) (omega arith) (omega arith) (bytes _),
)
