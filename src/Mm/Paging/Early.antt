-- ===== src/Mm/Paging/Early.antt =====
-- kmalloc_e.
use tempos.Base.{ℕ, ◌+◌, ◌%◌, ◌^◌, ◌<◌, ◌≤◌, ◌≡◌, refl, ap, arith}
use tempos.Mm.Paging.{page_size, page_up, kmalloc_e}

-- From a free address at the start of a page, and short of the end of the address space, `kmalloc_e` returns that address; the next
-- free address is the first start of a page behind the block.
pub kmalloc_e-next :
    (free size : ℕ)
    → free % 4096 ≡ 0
    → free + size + 4095 < 2 ^ 32
    → ((kmalloc_e free size).0 ≡ free)
      × ((kmalloc_e free size).1 % 4096 ≡ 0)
      × (free + size ≤ (kmalloc_e free size).1)
      × ((kmalloc_e free size).1 < free + size + 4096)
unfolding kmalloc_e page_up
kmalloc_e-next free size aligned room = (refl, omega arith, omega arith, omega arith)

pub kmalloc_e-page :
    (free : ℕ)
    → free % 4096 ≡ 0
    → free + 8191 < 2 ^ 32
    → kmalloc_e free page_size ≡ (free, free + 4096)
unfolding kmalloc_e page_up
kmalloc_e-page free aligned room = ap (λ (next : ℕ). (free, next)) (omega arith)
