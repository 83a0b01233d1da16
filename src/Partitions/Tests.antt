-- ===== src/Partitions/Tests.antt =====
-- The theorems on partitions at a disk with a primary and a logic partition.
use tempos.Base.{ℕ, refl, inl, inr, true, [], ◌∷◌, Returns}
use tempos.Partitions.{Part, Ebr, Mbr, Partition, primary, parse_mbr}
use tempos.Partitions.Size.{Sized, parse_mbr-Sized}

abbrev part : ℕ → ℕ → Part
part id first = record { sysid = id; lba_first_sector = first; total_sectors = 100 }

abbrev mbr : Mbr
mbr = record {
  diskid_low = 1;
  diskid_high = 2;
  partition = part 0x83 63 ∷ part 0x05 200 ∷ [];
  boot_signature_0 = 0x55;
  boot_signature_1 = 0xaa;
}

-- one logic partition at each sector, and none behind it
abbrev ebr : ℕ → Ebr
ebr sector = record { partition = part 0x83 1; next_ebr = part 0 0 }

parse_mbr-Sized_example : Returns Sized (parse_mbr 3 mbr ebr true true)
parse_mbr-Sized_example = parse_mbr-Sized 3 mbr ebr refl refl (inl refl, (inr (inr (inl refl)), tt))

abbrev entry : Partition
entry = record { id = 0x83; type = primary; number = 1; init = 63; length = 100 }
