-- ===== src/Partitions/Translate.antt =====
-- translate_part_address.
use tempos.Base.{
  ℕ, ◌+◌, ◌^◌, ◌<◌, ◌≡◌, Bool, true, false, none, some, List, [], ◌∷◌, ◌++◌, arith, ◌==◌, leb,
  if◌then◌else◌,
}
use tempos.Partitions.{Partition, translate_part_address}

-- no partition has the number
abbrev pub lacks_number : ℕ → List Partition → Bool
lacks_number n [] = true
lacks_number n (p ∷ ps) = if p.number == n then false else lacks_number n ps

-- `translate_part_address` goes by the first partition with the number: it adds the address to the start of
-- the partition where the address is at most the length of the partition, the length itself included, and
-- fails otherwise. Without a partition of that number it fails.
pub translate_part_address-first :
    (before : List Partition) (part : Partition) (behind : List Partition) (address : ℕ)
    → lacks_number part.number before ≡ true
    → part.init + part.length < 2 ^ 64
    → (translate_part_address (before ++ (part ∷ behind)) part.number address
        ≡ (if leb address part.length then some (part.init + address) else none))
      × (translate_part_address before part.number address ≡ none)
unfolding translate_part_address
translate_part_address-first [] part behind address o small = ground arith
translate_part_address-first (p ∷ before) part behind address o small =
    ground (arith, translate_part_address-first before part behind address)
