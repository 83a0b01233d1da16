-- ===== src/Mm/Paging/Regions.antt =====
-- The memory map with the kernel's own region.
use tempos.Base.{
  ℕ, zero, suc, ◌+◌, ◌-◌, ◌%◌, ◌^◌, ◌<◌, ◌≤◌, ◌≡◌, ◌≢◌, refl, ◌∙◌, Bool, Bool-cases, inl, inr, true,
  false, ◌&&◌, some, arith, ◌==◌, ltb, leb, update,
}
use tempos.Mm.Paging.{Region, Mmap, rearrange_round, rearrange}

-- available memory from 1 MB on
abbrev pub is_high : Region → Bool
is_high m = (m.type == 1) && leb 0x100000 m.base_addr_low

rearrange_round-keeps :
    (i start len : ℕ) (t : Mmap)
    → (i < t.size → is_high (t.table i) ≡ false)
    → rearrange_round i start len t ≡ some t
unfolding rearrange_round
rearrange_round-keeps i start len t low = elim (Bool-cases (ltb i t.size)) [
  | inl inside ↦
      let is_low : is_high (t.table i) ≡ false = low (ground arith) in rw (inside, is_low) refl
  | inr behind ↦ rw behind refl
]

-- a round that does not panic, and the rounds behind it
rearrange-step :
    (n i start len : ℕ) (t : Mmap) {t1 : Mmap}
    → rearrange_round i start len t ≡ some t1
    → rearrange (suc n) i start len t ≡ rearrange n (i + 1) start len t1
unfolding rearrange
rearrange-step n i start len t e = rw (e, rearrange) refl

rearrange-keeps :
    (n i start len : ℕ) (t : Mmap)
    → ((j : ℕ) → i ≤ j → j < t.size → is_high (t.table j) ≡ false)
    → rearrange n i start len t ≡ some t
unfolding rearrange
rearrange-keeps zero i start len t low = refl
rearrange-keeps (suc n) i start len t low =
    rearrange-step n i start len t (rearrange_round-keeps i start len t (low i (omega arith)))
    ∙ (rearrange-keeps n (i + 1) start len t (λ j from within. low j (omega arith) within))

-- the map with the kernel's region behind the others, and the region `a` without as many bytes at its start
abbrev pub with_kernel : (a start len : ℕ) → Mmap → Mmap
with_kernel a start len t = record {
  size = t.size + 1;
  table =
      update (update t.table t.size (record { base_addr_low = start; length_low = len; type = 2 }))
        a
        (record (t.table a) {
          base_addr_low = ((t.table a).base_addr_low + len) % 2 ^ 32;
          length_low = ((t.table a).length_low + 2 ^ 32 - len) % 2 ^ 32;
        });
}

rearrange_round-moves :
    (a start len : ℕ) (t : Mmap)
    → a < t.size
    → t.size < 40
    → is_high (t.table a) ≡ true
    → rearrange_round a start len t ≡ some (with_kernel a start len t)
unfolding rearrange_round
rearrange_round-moves a start len t inside room high =
    let within : ltb a t.size ≡ true = ground arith in
    let fits : ltb t.size 40 ≡ true = ground arith in rw (within, high, fits) refl

-- In a map with room where one region only is available memory from 1 MB on, the loop adds the kernel's region behind the others, takes its
-- length from the start of that one region, leaves the others, and does not panic; rounds for one region more are enough.
pub rearrange-with_kernel :
    (n i a start len : ℕ) (t : Mmap)
    → i ≤ a
    → a < i + n
    → a < t.size
    → t.size < 40
    → is_high (t.table a) ≡ true
    → ((j : ℕ) → j ≢ a → j < t.size → is_high (t.table j) ≡ false)
    → rearrange n i start len t ≡ some (with_kernel a start len t)
unfolding rearrange
rearrange-with_kernel zero i a start len t from fuel inside room high low = absurd (omega arith)
rearrange-with_kernel (suc n) i a start len t from fuel inside room high low =
    elim (Bool-cases (i == a)) [
      | inl here ↦
          let at : i ≡ a = ground arith in
          rw at (
            rearrange-step n a start len t (rearrange_round-moves a start len t inside room high)
            ∙ rearrange-keeps n (a + 1) start len (with_kernel a start len t) λ j behind within.
              elim (Bool-cases (j == t.size)) [
                | inl new ↦ ground arith
                | inr old ↦ ground (arith, low j)
              ])
      | inr before ↦
          rearrange-step n i start len t
            (rearrange_round-keeps i start len t (low i (ground arith)))
          ∙ (rearrange-with_kernel n (i + 1) a start len t (ground arith) (omega arith) inside room
              high low)
    ]
