-- ===== src/Mm/Paging/Fill.antt =====
-- The stack of free pages that is made from the memory map.
use tempos.Base.{
  ℕ, zero, suc, ◌+◌, ◌-◌, ◌*◌, ◌/◌, ◌%◌, ◌^◌, ◌<◌, ◌≤◌, ◌≡◌, inl, inr, refl, ◌∙◌, Bool, Bool-cases,
  true, false, ◌&&◌, ◌||◌, arith, ◌==◌, ltb, leb, if◌then◌else◌, update, List, [], ◌∷◌,
}
use tempos.Mm.Pages.{Pages}
use tempos.Mm.Paging.{page_size, page_up, Region, push_region, push_pages, push_regions, init_stack}

-- a page that starts within a region of available memory
abbrev pub in_region : Region → (page : ℕ) → Bool
in_region r page =
    (r.type == 1)
    && leb r.base_addr_low page
    && ltb page (r.base_addr_low + r.length_low)
    && (page % 4096 == 0)

abbrev pub in_regions : List Region → (page : ℕ) → Bool
in_regions [] page = false
in_regions (r ∷ rs) page = in_region r page || in_regions rs page

-- The pages on the stack stand in increasing order below a bound, and each is in an available region of the map; what is behind them is
-- what was in memory before.
pub record Filled (rs : List Region) (memory : ℕ → ℕ) (bound : ℕ) (s : Pages) : Type 0 where
  pub increasing : (i j : ℕ) → i < j → j < s.top → s.stack i < s.stack j
  pub below : (i : ℕ) → i < s.top → s.stack i < bound
  pub available : (i : ℕ) → i < s.top → in_regions rs (s.stack i) ≡ true
  pub fits : s.top ≤ s.max
  pub unset : (i : ℕ) → s.top ≤ i → s.stack i ≡ memory i

-- one page more
push-Filled :
    (rs : List Region) (memory : ℕ → ℕ) (bound address : ℕ) (s : Pages)
    → Filled rs memory bound s
    → bound ≤ address
    → in_regions rs address ≡ true
    → s.top < s.max
    → Filled rs memory
        (address + 1)
        (record s { stack = update s.stack s.top address; top = s.top + 1 })
push-Filled rs memory bound address s f above inside room = record {
  increasing = λ i j less within. elim (Bool-cases (j == s.top)) [
    | inl last ↦ ground (arith, f.below i)
    | inr other ↦ ground (arith, f.increasing i j)
  ];
  below = λ i within. elim (Bool-cases (i == s.top)) [
    | inl last ↦ ground arith
    | inr other ↦ ground (arith, f.below i)
  ];
  available = λ i within. elim (Bool-cases (i == s.top)) [
    | inl last ↦ ground arith
    | inr other ↦ ground (arith, f.available i)
  ];
  fits = omega arith;
  unset = λ i behind. ground (arith, f.unset i);
}

Filled-bound :
    (rs : List Region) (memory : ℕ → ℕ) (bound bound' : ℕ) (s : Pages)
    → Filled rs memory bound s
    → bound ≤ bound'
    → Filled rs memory bound' s
Filled-bound rs memory bound bound' s f more = record {
  increasing = f.increasing;
  below = λ i within. omega (arith, f.below i within);
  available = f.available;
  fits = f.fits;
  unset = f.unset;
}

page_up-next : (a : ℕ) → a + 4095 < 2 ^ 32 → (a ≤ page_up a) × (page_up a % 4096 ≡ 0)
unfolding page_up
page_up-next a room = (omega arith, omega arith)

push_pages-Filled :
    (left address m_end bound : ℕ) (rs : List Region) (memory : ℕ → ℕ) (s : Pages)
    → Filled rs memory bound s
    → bound ≤ address
    → bound ≤ m_end
    → m_end + 4096 ≤ 2 ^ 32
    → ((p : ℕ) → address ≤ p → p < m_end → p % 4096 ≡ 0 → in_regions rs p ≡ true)
    → address % 4096 ≡ 0
    → s.top + left ≡ s.max
    → Filled rs memory m_end (push_pages left address m_end s)
      × ((push_pages left address m_end s).max ≡ s.max)
unfolding push_pages
push_pages-Filled zero address m_end bound rs memory s f above ends room inside aligned left_over =
    (Filled-bound rs memory bound m_end s f ends, refl)
push_pages-Filled (suc left) address m_end bound rs memory s f above ends room inside aligned
      left_over =
    elim (Bool-cases (ltb address m_end)) [
      | inl more ↦
          let within : address < m_end = ground arith in
          let next : (address + page_size) % 2 ^ 32 ≡ address + 4096 = omega arith in
          let s1 : Pages = record s { stack = update s.stack s.top address; top = s.top + 1 } in
          let f1 : Filled rs memory (address + 1) s1 =
            push-Filled rs memory bound address s f above
              (inside address (omega arith) within aligned) (omega arith) in
          rw (more, next)
            (push_pages-Filled left (address + 4096) m_end (address + 1) rs memory s1 f1
              (omega arith) (omega arith) room
              (λ p at p_in p_aligned. inside p (omega arith) p_in p_aligned) (omega arith)
              (omega arith))
      | inr done ↦ rw done (Filled-bound rs memory bound m_end s f ends, refl)
    ]

-- The available regions stand one behind the other, from an address on and short of the end of the address space.
abbrev pub Ascending : (low : ℕ) → List Region → Type 0
Ascending low [] = Unit {0}
Ascending low (r ∷ rs) =
    (r.type ≡ 1 → (low ≤ r.base_addr_low) × (r.base_addr_low + r.length_low + 4096 ≤ 2 ^ 32))
    × Ascending (if r.type == 1 then r.base_addr_low + r.length_low else low) rs

-- where the next region may start
abbrev behind : (low : ℕ) → Region → ℕ
behind low r = if r.type == 1 then r.base_addr_low + r.length_low else low

push_region-Filled :
    (r : Region) (all : List Region) (memory : ℕ → ℕ) (low : ℕ) (s : Pages)
    → Filled all memory low s
    → (r.type ≡ 1 → (low ≤ r.base_addr_low) × (r.base_addr_low + r.length_low + 4096 ≤ 2 ^ 32))
    → ((p : ℕ) → in_region r p ≡ true → in_regions all p ≡ true)
    → Filled all memory (behind low r) (push_region r s) × ((push_region r s).max ≡ s.max)
unfolding push_region
push_region-Filled r all memory low s f place part = elim (Bool-cases (r.type == 1)) [
  | inl available ↦
      let kind : r.type ≡ 1 = ground arith in
      let (above, room) = place kind in
      let m_end : (r.base_addr_low + r.length_low) % 2 ^ 32 ≡ r.base_addr_low + r.length_low =
        omega arith in
      let (up, aligned) = page_up-next r.base_addr_low (omega arith) in
      rw (available, m_end)
        (push_pages-Filled (s.max - s.top) (page_up r.base_addr_low)
          (r.base_addr_low + r.length_low) low all memory s f (omega arith) (omega arith) room
          (λ p at inside p_aligned. part p (ground arith)) aligned (omega (arith, f.fits)))
  | inr other ↦ rw other (f, refl)
]

push_regions-Filled :
    (rs all : List Region) (memory : ℕ → ℕ) (low : ℕ) (s : Pages)
    → Filled all memory low s
    → Ascending low rs
    → ((p : ℕ) → in_regions rs p ≡ true → in_regions all p ≡ true)
    → (bound : ℕ) × Filled all memory bound (push_regions rs s) × ((push_regions rs s).max ≡ s.max)
unfolding push_regions
push_regions-Filled [] all memory low s f ordered part = (low, f, refl)
push_regions-Filled (r ∷ rs) all memory low s f ordered part =
    let (f1, same) =
      push_region-Filled r all memory low s f ordered.0 (λ p i. part p (ground arith)) in
    let (bound, f2, same2) =
      push_regions-Filled rs all memory (behind low r) (push_region r s) f1 ordered.1
        (λ p i. part p (ground arith)) in
    (bound, f2, same2 ∙ same)

-- the stack after the start: `count` pages of the map in increasing order, all free, and behind them what was in memory
abbrev pub Started : List Region → (max : ℕ) → (memory : ℕ → ℕ) → Pages → Type 0
Started rs max memory s =
    (s.top ≡ 0)
    × (s.max ≡ max)
    × ((count : ℕ) × (count ≤ max)
        × ((i j : ℕ) → i < j → j < count → s.stack i < s.stack j)
        × ((i : ℕ) → i < count → in_regions rs (s.stack i) ≡ true)
        × ((i : ℕ) → count ≤ i → s.stack i ≡ memory i))

-- Where the available regions of the map ascend and end a page short of 4 GB, the stack starts with pages of these regions: each page starts within a region, at a multiple
-- of 4096, and no page stands there twice. All entries up to the size of memory count as free, also those behind the pages, which were never set.
pub init_stack-Started :
    (rs : List Region) (mem_upper : ℕ) (memory : ℕ → ℕ)
    → Ascending 0 rs
    → Started rs (mem_upper * 1024 % 2 ^ 32 / 4096) memory (init_stack rs mem_upper memory)
unfolding init_stack
init_stack-Started rs mem_upper memory ordered =
    let max = mem_upper * 1024 % 2 ^ 32 / 4096 in
    let empty : Filled rs memory 0 (record { stack = memory; top = 0; max = max }) = record {
      increasing = λ i j less within. absurd (omega arith);
      below = λ i within. absurd (omega arith);
      available = λ i within. absurd (omega arith);
      fits = omega arith;
      unset = λ i from. refl;
    } in
    let (bound, f, same) = push_regions-Filled rs rs memory 0 _ empty ordered (λ p i. i) in
    (refl, same, (_, omega (arith, f.fits), f.increasing, f.available, f.unset))
