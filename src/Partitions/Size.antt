-- ===== src/Partitions/Size.antt =====
-- The two passes of `parse_mbr` agree.
use tempos.Base.{
  ℕ, zero, suc, ◌+◌, ◌≡◌, refl, ◌⊎◌, inl, inr, true, false, Bool-cases, Option, some, List, [], ◌∷◌,
  ◌++◌, arith, length, length-append, ◌==◌, Res, ok, Returns, returns,
}
use tempos.Partitions.{
  Part, Ebr, Mbr, Partition, PartTable, extended, primary, is_extended, next_sector, count_logic,
  count_parts, fill_logic, fill_parts, logic_entry, main_entry, parse_mbr,
}

-- The walk along the extended boot records comes to an end in fewer than `k` rounds.
abbrev pub Ends : ℕ → (ℕ → Ebr) → (fsector : ℕ) → Part → Type 0
Ends zero ebr fsector epart = ⊥
Ends (suc k) ebr fsector epart =
    (epart.sysid ≡ 0) ⊎ Ends k ebr (next_sector fsector (ebr fsector)) (ebr fsector).next_ebr

-- That holds for each extended partition of the main record; along the others there is no walk.
abbrev pub AllEnd : ℕ → (ℕ → Ebr) → List Part → Type 0
AllEnd k ebr [] = Unit {0}
AllEnd k ebr (part ∷ parts) =
    ((is_extended part ≡ false) ⊎ Ends k ebr part.lba_first_sector part) × AllEnd k ebr parts

-- both passes come to an end, and the count grows by the number of the entries
record Agree (count : Res ℕ) (n : ℕ) (fill : Res (List Partition)) : Type 0 where
  entries : List Partition
  filled : fill ≡ ok entries
  counted : count ≡ ok (n + length entries)

logic-Agree :
    (k : ℕ) (ebr : ℕ → Ebr) (fsector : ℕ) (epart : Part) (n exnum : ℕ)
    → Ends k ebr fsector epart
    → Agree (count_logic k ebr fsector epart n) n (fill_logic k ebr fsector epart exnum)
unfolding count_logic fill_logic
logic-Agree zero ebr fsector epart n exnum ends = absurd ends
logic-Agree (suc k) ebr fsector epart n exnum (inl e) = record {
  entries = [];
  filled = rw e refl;
  counted = let z : n + 0 ≡ n = omega arith in rw (e, z) refl;
}
logic-Agree (suc k) ebr fsector epart n exnum (inr more) = elim (Bool-cases (epart.sysid == 0)) [
  | inl stop ↦ record {
    entries = [];
    filled = rw stop refl;
    counted = let z : n + 0 ≡ n = omega arith in rw (stop, z) refl;
  }
  | inr on ↦
      let e = ebr fsector in
      let rest = logic-Agree k ebr (next_sector fsector e) e.next_ebr (n + 1) (exnum + 1) more in
      record {
        entries = logic_entry fsector exnum e ∷ rest.entries;
        filled = rw (on, rest.filled) refl;
        counted =
            let z : n + 1 + length rest.entries ≡ n + suc (length rest.entries) = omega arith in
            rw (on, rest.counted, z) refl;
      }
]

parts-Agree :
    (k : ℕ) (ebr : ℕ → Ebr) (parts : List Part) (n i : ℕ)
    → AllEnd k ebr parts
    → Agree (count_parts k ebr parts n) n (fill_parts k ebr parts i)
unfolding count_parts fill_parts
parts-Agree k ebr [] n i ends = record {
  entries = [];
  filled = refl;
  counted = let z : n + 0 ≡ n = omega arith in rw z refl;
}
parts-Agree k ebr (part ∷ parts) n i ends = elim (Bool-cases (part.sysid == 0)) [
  | inl empty ↦
      let rest = parts-Agree k ebr parts n (i + 1) ends.1 in
      record {
        entries = rest.entries;
        filled = rw empty rest.filled;
        counted = rw empty rest.counted;
      }
  | inr used ↦ elim (Bool-cases (is_extended part)) [
    | inl ext ↦
        let walk : Ends k ebr part.lba_first_sector part = elim ends.0 [
          | inl other ↦ absurd (ground arith)
          | inr some_end ↦ some_end
        ] in
        let inner = logic-Agree k ebr part.lba_first_sector part n 5 walk in
        let c = n + length inner.entries in
        let rest = parts-Agree k ebr parts (c + 1) (i + 1) ends.1 in
        let es = inner.entries ++ rest.entries in
        let z : c + 1 + length rest.entries ≡ n + suc (length es) =
          omega (arith, length-append inner.entries rest.entries) in
        record {
          entries = main_entry extended part (i + 1) ∷ es;
          filled = rw (used, ext, inner.filled, rest.filled) refl;
          counted = rw (used, ext, inner.counted, rest.counted, z) refl;
        }
    | inr prim ↦
        let rest = parts-Agree k ebr parts (n + 1) (i + 1) ends.1 in
        let z : n + 1 + length rest.entries ≡ n + suc (length rest.entries) = omega arith in
        record {
          entries = main_entry primary part (i + 1) ∷ rest.entries;
          filled = rw (used, prim, rest.filled) refl;
          counted = rw (used, prim, rest.counted, z) refl;
        }
  ]
]

-- a table whose size is the number of its entries
pub data Sized : Option PartTable → Type 0 where
  sized : {t : PartTable} → t.size ≡ length t.partitions → Sized (some t)

-- Where the boot signature is there, kmalloc gives memory for both tables and the walks along the extended
-- boot records of its extended partitions come to an end, `parse_mbr` returns a table, and the number of entries that its second pass
-- writes is the size for which the first pass took memory.
pub parse_mbr-Sized :
    (k : ℕ) (mbr : Mbr) (ebr : ℕ → Ebr)
    → mbr.boot_signature_0 ≡ 0x55
    → mbr.boot_signature_1 ≡ 0xaa
    → AllEnd k ebr mbr.partition
    → Returns Sized (parse_mbr k mbr ebr true true)
unfolding parse_mbr
parse_mbr-Sized k mbr ebr s0 s1 ends =
    let a = parts-Agree k ebr mbr.partition 0 0 ends in
    rw (s0, s1, a.counted, a.filled) (returns (sized (omega arith)))
