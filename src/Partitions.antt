-- ===== src/Partitions.antt =====
-- kernel/fs/partition.c. `ebr` is what the driver's read_sync_block gives for each sector, read as an
-- extended boot record; a walk along these records has `k` rounds. The array of partitions is the list of
-- what is written to it, from the index 0 on.
pub mod Size
pub mod Translate
mod Tests
use tempos.Base.{
  ℕ, zero, suc, ◌+◌, ◌%◌, ◌^◌, Bool, true, false, ◌&&◌, ◌||◌, not, Option, none, some, List, [],
  ◌∷◌, ◌++◌, ◌==◌, ltb, if◌then◌else◌, Res, ok, out_of_fuel, ◌>>=◌,
}

-- what is read of `struct _part_st`
pub record Part : Type 0 where
  pub sysid : ℕ
  pub lba_first_sector : ℕ
  pub total_sectors : ℕ

pub record Ebr : Type 0 where
  pub partition : Part
  pub next_ebr : Part

pub record Mbr : Type 0 where
  pub diskid_low : ℕ
  pub diskid_high : ℕ
  pub partition : List Part
  pub boot_signature_0 : ℕ
  pub boot_signature_1 : ℕ

pub data PartType : Type 0 where
  primary extended logic : PartType

-- `struct _partition_st`
pub record Partition : Type 0 where
  pub id : ℕ
  pub type : PartType
  pub number : ℕ
  pub init : ℕ
  pub length : ℕ

-- `struct _ptable_st`
pub record PartTable : Type 0 where
  pub size : ℕ
  pub partitions : List Partition
  pub diskid_low : ℕ
  pub diskid_high : ℕ

abbrev pub is_extended : Part → Bool
is_extended part = part.sysid == 0x05 || part.sysid == 0x0f

abbrev pub next_sector : (fsector : ℕ) → Ebr → ℕ
next_sector fsector e = (fsector + e.next_ebr.lba_first_sector) % 2 ^ 32

-- the loop over the logic partitions in the first pass
pub count_logic : ℕ → (ℕ → Ebr) → (fsector : ℕ) → (epart : Part) → (count : ℕ) → Res ℕ
count_logic zero ebr fsector epart count = out_of_fuel
count_logic (suc k) ebr fsector epart count =
    let e = ebr fsector in
    let rest = count_logic k ebr (next_sector fsector e) e.next_ebr (count + 1) in
    if epart.sysid == 0 then ok count else rest

-- the first pass
pub count_parts : ℕ → (ℕ → Ebr) → List Part → (count : ℕ) → Res ℕ
count_parts k ebr [] count = ok count
count_parts k ebr (part ∷ parts) count =
    if part.sysid == 0
    then count_parts k ebr parts count
    else if is_extended part
    then (do
      c ← count_logic k ebr part.lba_first_sector part count
      count_parts k ebr parts (c + 1))
    else count_parts k ebr parts (count + 1)

-- the entry for a partition of the main record
abbrev pub main_entry : PartType → Part → (number : ℕ) → Partition
main_entry type part number = record {
  id = part.sysid;
  type = type;
  number = number;
  init = part.lba_first_sector;
  length = part.total_sectors;
}

abbrev pub logic_entry : (fsector exnum : ℕ) → Ebr → Partition
logic_entry fsector exnum e = record {
  id = e.partition.sysid;
  type = logic;
  number = exnum;
  init = fsector;
  length = e.partition.total_sectors;
}

-- the loop over the logic partitions in the second pass
pub fill_logic : ℕ → (ℕ → Ebr) → (fsector : ℕ) → (epart : Part) → (exnum : ℕ) → Res (List Partition)
fill_logic zero ebr fsector epart exnum = out_of_fuel
fill_logic (suc k) ebr fsector epart exnum = if epart.sysid == 0 then ok [] else do
  let e = ebr fsector
  rest ← fill_logic k ebr (next_sector fsector e) e.next_ebr (exnum + 1)
  ok (logic_entry fsector exnum e ∷ rest)

-- the second pass; `i` counts the entries of the main record
pub fill_parts : ℕ → (ℕ → Ebr) → List Part → (i : ℕ) → Res (List Partition)
fill_parts k ebr [] i = ok []
fill_parts k ebr (part ∷ parts) i =
    if part.sysid == 0
    then fill_parts k ebr parts (i + 1)
    else if is_extended part
    then (do
      inner ← fill_logic k ebr part.lba_first_sector part 5
      rest ← fill_parts k ebr parts (i + 1)
      ok (main_entry extended part (i + 1) ∷ (inner ++ rest)))
    else (do rest ← fill_parts k ebr parts (i + 1); ok (main_entry primary part (i + 1) ∷ rest))

-- `parse_mbr`; the flags say whether each of the two calls of kmalloc succeeds
pub parse_mbr :
    ℕ → (mbr : Mbr) → (ebr : ℕ → Ebr) → (has_table has_partitions : Bool) → Res (Option PartTable)
parse_mbr k mbr ebr has_table has_partitions =
    if not (mbr.boot_signature_0 == 0x55) || not (mbr.boot_signature_1 == 0xaa)
    then ok none
    else if not has_table
    then ok none
    else (do
      count ← count_parts k ebr mbr.partition 0
      if not has_partitions then ok none else (do
        partitions ← fill_parts k ebr mbr.partition 0
        ok (
            some (record {
              size = count;
              partitions = partitions;
              diskid_low = mbr.diskid_low;
              diskid_high = mbr.diskid_high;
            }))))

-- `translate_part_address`: `none` for -1, else the address that it stores
pub translate_part_address : List Partition → (pnumber paddress : ℕ) → Option ℕ
translate_part_address [] pnumber paddress = none
translate_part_address (part ∷ parts) pnumber paddress =
    if part.number == pnumber
    then (if ltb part.length paddress then none else some ((part.init + paddress) % 2 ^ 64))
    else translate_part_address parts pnumber paddress
