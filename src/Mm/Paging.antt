-- ===== src/Mm/Paging.antt =====
-- The start of paging in kernel/arch/x86/mm/mm.c: the early allocator, the tables of the kernel, and the stack of free
-- pages that is made from the memory map of the boot loader. Tables stand in a memory of words by their address.
pub mod Early
pub mod Tables
pub mod Fill
pub mod Regions
mod Tests
use tempos.Base.{
  ℕ, zero, suc, ◌+◌, ◌-◌, ◌*◌, ◌/◌, ◌%◌, ◌^◌, Bool, true, false, ◌&&◌, ◌||◌, not, Option, none,
  some, List, [], ◌∷◌, ◌==◌, ltb, leb, if◌then◌else◌, update,
}
use tempos.Mm.Pages.{Pages}

abbrev pub page_size : ℕ
page_size = 4096

abbrev pub table_size : ℕ
table_size = 1024

-- PAGE_ALIGN in 32 bits
pub page_up : (addr : ℕ) → ℕ
page_up addr = (addr + (page_size - 1)) % 2 ^ 32 / page_size * page_size

-- what it returns, and the new free_phy_addr
pub kmalloc_e : (free_phy_addr size : ℕ) → ℕ × ℕ
unfolding page_up
kmalloc_e free_phy_addr size = (free_phy_addr, page_up ((free_phy_addr + size) % 2 ^ 32))

-- MAKE_ENTRY with PAGE_WRITABLE | PAGE_PRESENT
pub make_entry : (addr : ℕ) → ℕ
make_entry addr = addr / page_size * page_size % 2 ^ 32 + 3

-- the words of memory by their addresses
abbrev pub Words : Type 0
Words = ℕ → ℕ

-- `struct _page_dir`
pub record PageDir : Type 0 where
  pub tables : ℕ → ℕ
  pub tables_phy_addr : ℕ
  pub dir_phy_addr : ℕ

-- the loop that clears the first `n` entries of a table
pub clear_table : (n table : ℕ) → Words → Words
clear_table zero table m = m
clear_table (suc n) table m = update (clear_table n table m) (table + 4 * n) 0

-- a physical address of the kernel; `offset` is KERNEL_ADDR_OFFSET
abbrev pub phys : (offset x : ℕ) → ℕ
phys offset x = (x + 2 ^ 32 - offset) % 2 ^ 32

-- a round of the loop over the tables, and its first `n` rounds
pub make_table : (n offset : ℕ) → PageDir × ℕ × Words → PageDir × ℕ × Words
make_table n offset (kdir, free, m) =
    let (table, next) = kmalloc_e free page_size in
    (
      record kdir { tables = update kdir.tables n table },
      next,
      clear_table table_size table
          (update m (kdir.tables_phy_addr + 4 * n) (make_entry (phys offset table))),
    )

pub make_tables : (n offset : ℕ) → PageDir × ℕ × Words → PageDir × ℕ × Words
make_tables zero offset at = at
make_tables (suc n) offset at = make_table n offset (make_tables n offset at)

-- a directory has 1024 pointers and two words more
pub make_kerneldir : (offset free_phy_addr : ℕ) → Words → PageDir × ℕ × Words
unfolding kmalloc_e
make_kerneldir offset free m =
    let (kdir, free) = kmalloc_e free 4104 in
    let (tables_phy_addr, free) = kmalloc_e free page_size in
    make_tables table_size offset (
      record {
        tables = λ i. m (kdir + 4 * i);
        tables_phy_addr = tables_phy_addr;
        dir_phy_addr = phys offset tables_phy_addr;
      },
      free,
      m,
    )

-- "Map First 1MB Virtual = Real address", the first `n` rounds of 256
pub map_low : (n table : ℕ) → Words → Words
unfolding make_entry
map_low zero table m = m
map_low (suc n) table m = update (map_low n table m) (table + 4 * n) (make_entry (n * page_size))

-- where the loop that maps the kernel stands
pub record Position : Type 0 where
  pub address : ℕ
  pub i : ℕ
  pub j : ℕ
  pub k : ℕ
  pub l : ℕ
  pub kpages : ℕ

-- a round of that loop; the test is on the index before it is counted up
pub map_round : PageDir → Position → Words → Position × Words
unfolding make_entry
map_round dir p m =
    let low = ltb p.l table_size in
    let high = ltb p.i table_size in
    (
      record {
        address = (p.address + page_size) % 2 ^ 32;
        i = if high then p.i + 1 else 0;
        j = if high then p.j else p.j + 1;
        k = if low then p.k else p.k + 1;
        l = if low then p.l + 1 else 0;
        kpages = p.kpages + 1;
      },
      update (update m (dir.tables (768 + p.j) + 4 * p.i) (make_entry p.address))
          (dir.tables p.k + 4 * p.l) (make_entry p.address),
    )

-- `n` rounds, as many as the kernel has pages
pub map_kernel_pages : (n : ℕ) → PageDir → Position → Words → Position × Words
unfolding map_round
map_kernel_pages zero dir p m = (p, m)
map_kernel_pages (suc n) dir p m = let (p, m) = map_round dir p m in map_kernel_pages n dir p m

-- `struct _mmap_tentry`, its low words
pub record Region : Type 0 where
  pub base_addr_low : ℕ
  pub length_low : ℕ
  pub type : ℕ

-- the memory map with its size
pub record Mmap : Type 0 where
  pub size : ℕ
  pub table : ℕ → Region

-- a round of "Re-arrange memory map to insert kernel region"; `none` where the kernel panics
pub rearrange_round : (i kpa_start kpa_length : ℕ) → Mmap → Option Mmap
rearrange_round i kpa_start kpa_length t =
    let m = t.table i in
    if ltb i t.size && (m.type == 1) && leb 0x100000 m.base_addr_low
    then (if ltb t.size 40
        then some (record {
          size = t.size + 1;
          table =
              update
                (update t.table t.size
                  (record { base_addr_low = kpa_start; length_low = kpa_length; type = 2 }))
                i
                (record m {
                  base_addr_low = (m.base_addr_low + kpa_length) % 2 ^ 32;
                  length_low = (m.length_low + 2 ^ 32 - kpa_length) % 2 ^ 32;
                });
        })
        else none)
    else some t

-- `n` rounds from `i` on; those behind the last region do nothing
pub rearrange : (n i : ℕ) → (kpa_start kpa_length : ℕ) → Mmap → Option Mmap
unfolding rearrange_round
rearrange zero i kpa_start kpa_length t = some t
rearrange (suc n) i kpa_start kpa_length t = elim (rearrange_round i kpa_start kpa_length t) [
  | none ↦ none
  | some t ↦ rearrange n (i + 1) kpa_start kpa_length t
]

-- the inner loop, for a region up to `m_end`; `left` pages have room on the stack
pub push_pages : (left address m_end : ℕ) → Pages → Pages
push_pages zero address m_end s = s
push_pages (suc left) address m_end s =
    let rest =
      push_pages left ((address + page_size) % 2 ^ 32) m_end
        (record s { stack = update s.stack s.top address; top = s.top + 1 }) in
    if ltb address m_end then rest else s

-- a round of the loop over the regions, and the loop
pub push_region : Region → Pages → Pages
unfolding push_pages page_up
push_region r s =
    if r.type == 1
    then push_pages (s.max - s.top) (page_up r.base_addr_low)
        ((r.base_addr_low + r.length_low) % 2 ^ 32) s
    else s

pub push_regions : List Region → Pages → Pages
push_regions [] s = s
push_regions (r ∷ rs) s = push_regions rs (push_region r s)

-- "Start stack page": `stack` is the memory of the stack before
pub init_stack : List Region → (mem_upper : ℕ) → (stack : ℕ → ℕ) → Pages
unfolding push_regions
init_stack rs mem_upper stack =
    let max = mem_upper * 1024 % 2 ^ 32 / page_size in
    record (push_regions rs (record { stack = stack; top = 0; max = max })) { top = 0 }
