-- ===== src/Mm/Pages.antt =====
-- The stack of free physical pages: `alloc_page` and `free_page` of kernel/arch/x86/mm/mm.c.
mod Tests
use tempos.Base.{
  ℕ, ◌+◌, ◌-◌, ◌≤◌, ◌<◌, ◌≡◌, refl, sym, ◌≢◌, ◌↔◌, ◌⊎◌, inl, inr, ◌||◌, arith, ltb, leb, ◌==◌,
  if◌then◌else◌, update,
}

-- `stack_pages`, `stack_top` and `stack_max_top`; the free pages are those from `top` on
pub record Pages : Type 0 where
  pub stack : ℕ → ℕ
  pub top : ℕ
  pub max : ℕ

abbrev pub dma_zone : ℕ
dma_zone = 1

abbrev pub normal_zone : ℕ
normal_zone = 2

unfoldable pub alloc_page : ℕ → Pages → ℕ × Pages
alloc_page zone s =
    if leb s.max s.top
    then (0, s)
    else if zone == dma_zone || zone == normal_zone
    then (s.stack s.top, record s { top = s.top + 1 })
    else (0, s)

pub free_page : ℕ → Pages → Pages
free_page page_e s =
    if ltb 0 s.top
    then record s { stack = update s.stack (s.top - 1) page_e; top = s.top - 1 }
    else s

-- `p` is among the free pages
abbrev pub IsFree : Pages → ℕ → Type 0
IsFree s p = (i : ℕ) × (s.top ≤ i) × (i < s.max) × (s.stack i ≡ p)

-- No page stands twice among the free pages, and none of them is page 0.
pub record IsValid (s : Pages) : Type 0 where
  pub distinct : (i j : ℕ) → s.top ≤ i → i < j → j < s.max → s.stack i ≢ s.stack j
  pub not_zero : (i : ℕ) → s.top ≤ i → i < s.max → s.stack i ≢ 0
  pub bounded : s.top ≤ s.max

abbrev taken : Pages → Pages
taken s = record s { top = s.top + 1 }

alloc_page-taken :
    (zone : ℕ) (s : Pages)
    → s.top < s.max
    → ((zone ≡ dma_zone) ⊎ (zone ≡ normal_zone))
    → alloc_page zone s ≡ (s.stack s.top, taken s)
unfolding alloc_page
alloc_page-taken zone s room z = ground arith

taken-IsValid : (s : Pages) → s.top < s.max → IsValid s → IsValid (taken s)
taken-IsValid s room v = record {
  distinct = λ i j a b c. v.distinct i j (omega arith) b c;
  not_zero = λ i a b. v.not_zero i (omega arith) b;
  bounded = omega arith;
}

-- A page that `alloc_page` hands out was free and is free no longer, the other free pages stay free,
-- and the stack stays valid.
pub alloc_page-IsFree :
    (zone : ℕ) (s : Pages)
    → IsValid s
    → s.top < s.max
    → ((zone ≡ dma_zone) ⊎ (zone ≡ normal_zone))
    → let (page, s') = alloc_page zone s in
      IsFree s page
      × (IsFree s' page → ⊥)
      × ((p : ℕ) → p ≢ page → IsFree s p → IsFree s' p)
      × IsValid s'
alloc_page-IsFree zone s v room z = rw (alloc_page-taken zone s room z) (
  (s.top, omega arith, room, refl),
  (λ (i, a, b, e). v.distinct s.top i (omega arith) (omega arith) b (sym e)),
  (λ p ne (i, a, b, e). (i, ground (arith, e), b, e)),
  taken-IsValid s room v,
)

-- A page that was not free becomes the next one to be handed out, and the stack is as before then.
pub alloc_page-free_page :
    (zone page : ℕ) (s : Pages)
    → 0 < s.top
    → s.top ≤ s.max
    → ((zone ≡ dma_zone) ⊎ (zone ≡ normal_zone))
    → let (p, s') = alloc_page zone (free_page page s) in
      (p ≡ page) × (s'.top ≡ s.top) × ((i : ℕ) → s.top ≤ i → s'.stack i ≡ s.stack i)
unfolding alloc_page free_page
alloc_page-free_page zone page s some_out bounded z = ground arith

-- `alloc_page` returns 0 exactly where no page is free or the zone is neither of the two, and then
-- it changes nothing.
pub alloc_page-zero_iff :
    (zone : ℕ) (s : Pages)
    → IsValid s
    → (((alloc_page zone s).0 ≡ 0) ↔ ((s.max ≤ s.top) ⊎ ((zone ≢ dma_zone) × (zone ≢ normal_zone))))
      × ((alloc_page zone s).0 ≡ 0 → (alloc_page zone s).1 ≡ s)
unfolding alloc_page
alloc_page-zero_iff zone s v = ground (arith, v.not_zero s.top)
