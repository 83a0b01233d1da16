-- ===== src/Namei/Block.antt =====
-- The search for a name in a block of a directory.
use tempos.Base.{
  ℕ, zero, suc, ◌+◌, ◌-◌, ◌<◌, ◌≤◌, ◌≡◌, ◌≢◌, ◌⊎◌, inl, inr, refl, ap, Bool, Bool-cases, true,
  false, Option, none, some, List, [], ◌∷◌, arith, ◌==◌, ==_of_ne, ltb, leb, if◌then◌else◌, length,
  Data, read16, read32, Res, ok, fault, out_of_fuel,
}
use tempos.Namei.{name_at, same_text, entry_loop}

pub record Entry : Type 0 where
  pub inode : ℕ
  pub rec_len : ℕ
  pub name : List ℕ

-- the bytes of a text stand in a block, and none of them is 0
abbrev pub TextAt : Data → (pos : ℕ) → List ℕ → Type 0
TextAt b pos [] = Unit {0}
TextAt b pos (c ∷ cs) = (b pos ≡ c) × (c ≢ 0) × TextAt b (pos + 1) cs

-- the entries of a block from an offset on, up to an unused one or the end of the block
abbrev pub Listed : Data → (size bpos : ℕ) → List Entry → Type 0
Listed b size bpos [] = (size ≤ bpos) ⊎ ((bpos + 4 ≤ size) × (read32 b bpos ≡ 0))
Listed b size bpos (e ∷ es) =
    (bpos + 8 + length e.name ≤ size)
    × (read32 b bpos ≡ e.inode)
    × (e.inode ≢ 0)
    × (read16 b (bpos + 4) ≡ e.rec_len)
    × (b (bpos + 6) ≡ length e.name)
    × TextAt b (bpos + 8) e.name
    × Listed b size (bpos + e.rec_len) es

-- the i-node of the first entry with the name
abbrev pub lookup : List Entry → (component : List ℕ) → Option ℕ
lookup [] component = none
lookup (e ∷ es) component = if same_text e.name component then some e.inode else lookup es component

name_at-text : (b : Data) (pos : ℕ) (cs : List ℕ) → TextAt b pos cs → name_at (length cs) b pos ≡ cs
unfolding name_at
name_at-text b pos [] t = refl
name_at-text b pos (c ∷ cs) t =
    rw (t.0, ==_of_ne c 0 t.1) (ap (λ (l : List ℕ). c ∷ l) (name_at-text b (pos + 1) cs t.2))

-- Within a block that lists entries the loop finds the i-node of the first entry with the name, if there is one.
pub entry_loop-lookup :
    (k : ℕ) (b : Data) (component : List ℕ) (size bpos : ℕ) (es : List Entry)
    → Listed b size bpos es
    → length es < k
    → entry_loop k b component size bpos ≡ ok (lookup es component)
unfolding entry_loop
entry_loop-lookup zero b component size bpos es l fuel = absurd (omega arith)
entry_loop-lookup (suc k) b component size bpos [] (inl behind) fuel =
    let test : leb size bpos ≡ true = ground arith in rw test refl
entry_loop-lookup (suc k) b component size bpos [] (inr unused) fuel =
    let inside : leb size bpos ≡ false = ground arith in
    let room : ltb size (bpos + 4) ≡ false = ground arith in rw (inside, room, unused.1) refl
entry_loop-lookup (suc k) b component size bpos (e ∷ es) l fuel =
    let inside : leb size bpos ≡ false = ground arith in
    let room : ltb size (bpos + 4) ≡ false = ground arith in
    let name_room : ltb size (bpos + 8 + length e.name) ≡ false = ground arith in
    rw (inside, room, l.1, ==_of_ne e.inode 0 l.2)
      (rw (l.4, name_room, name_at-text b (bpos + 8) e.name l.5)
        (rw (l.3, entry_loop-lookup k b component size (bpos + e.rec_len) es l.6 (omega arith))
          (elim (Bool-cases (same_text e.name component)) [
            | inl same ↦ rw same refl
            | inr other ↦ rw other refl
          ])))

if_ends :
    (b : Bool) (x y : Res (Option ℕ))
    → (b ≡ true → x ≢ out_of_fuel)
    → (b ≡ false → y ≢ out_of_fuel)
    → (if b then x else y) ≢ out_of_fuel
if_ends true x y p q = p refl
if_ends false x y p q = q refl

ok_ends : (v : Option ℕ) → ok v ≢ out_of_fuel
ok_ends v e = cc

fault_ends : ◌≢◌ {A = Res (Option ℕ)} fault out_of_fuel
fault_ends e = cc

-- the offset `p` is one of those where the search looks for an entry from `bpos` on: each length leads to the next, up to an unused entry or
-- the end of the block
pub data Reaches (b : Data) (size : ℕ) : (bpos p : ℕ) → Type 0 where
  here : {p : ℕ} → Reaches b size p p
  next :
      {bpos p : ℕ}
      → bpos + 4 ≤ size
      → read32 b bpos ≢ 0
      → Reaches b size (bpos + read16 b (bpos + 4)) p
      → Reaches b size bpos p

-- Whatever a block holds, the search in it ends within as many rounds as it has bytes, if no entry that it comes to is in use and has the length 0.
pub entry_loop-ends :
    (k : ℕ) (b : Data) (component : List ℕ) (size bpos : ℕ)
    → ((p : ℕ) → Reaches b size bpos p → p + 4 ≤ size → read32 b p ≢ 0 → 0 < read16 b (p + 4))
    → size - bpos < k
    → entry_loop k b component size bpos ≢ out_of_fuel
unfolding entry_loop
entry_loop-ends zero b component size bpos long fuel = absurd (omega arith)
entry_loop-ends (suc k) b component size bpos long fuel =
    if_ends (leb size bpos) _ _ (λ e. ok_ends none)
      λ inside.
        if_ends (ltb size (bpos + 4)) _ _ (λ e. fault_ends)
          λ room.
            if_ends (read32 b bpos == 0) _ _ (λ e. ok_ends none)
              λ used.
                if_ends (ltb size (bpos + 8 + b (bpos + 6))) _ _ (λ e. fault_ends)
                  λ name_room.
                    if_ends (same_text (name_at (b (bpos + 6)) b (bpos + 8)) component) _ _
                      (λ e. ok_ends (some (read32 b bpos)))
                      λ other.
                        let length_e : 0 < read16 b (bpos + 4) =
                          long bpos here (ground arith) (ground arith) in
                        let within : bpos < size = ground arith in
                        entry_loop-ends k b component size (bpos + read16 b (bpos + 4))
                          (λ p reached. long p (next (ground arith) (ground arith) reached))
                          (omega arith)

-- An entry in use with the length 0 and another name keeps the search where it is, for any number of rounds.
pub entry_loop-endless :
    (k : ℕ) (b : Data) (component : List ℕ) (size bpos : ℕ)
    → bpos + 8 + b (bpos + 6) ≤ size
    → read32 b bpos ≢ 0
    → read16 b (bpos + 4) ≡ 0
    → same_text (name_at (b (bpos + 6)) b (bpos + 8)) component ≡ false
    → entry_loop k b component size bpos ≡ out_of_fuel
unfolding entry_loop
entry_loop-endless zero b component size bpos room used short other = refl
entry_loop-endless (suc k) b component size bpos room used short other =
    let inside : leb size bpos ≡ false = ground arith in
    let low : ltb size (bpos + 4) ≡ false = ground arith in
    let name_room : ltb size (bpos + 8 + b (bpos + 6)) ≡ false = ground arith in
    let stay : bpos + 0 ≡ bpos = omega arith in
    rw (inside, low, ==_of_ne (read32 b bpos) 0 used)
      (rw (name_room, other, short)
        (rw stay (entry_loop-endless k b component size bpos room used short other)))
