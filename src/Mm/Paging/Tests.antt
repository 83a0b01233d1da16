-- ===== src/Mm/Paging/Tests.antt =====
-- The theorems on the start of paging at a small machine.
use tempos.Base.{ℕ, ◌≡◌, refl, some, List, [], ◌∷◌, arith, ◌==◌, if◌then◌else◌}
use tempos.Mm.Pages.{alloc_page, normal_zone}
use tempos.Mm.Paging.{
  Region, Mmap, PageDir, page_up, push_pages, push_region, push_regions, init_stack, make_tables,
  rearrange,
}
use tempos.Mm.Paging.Fill.{Started, init_stack-Started}
use tempos.Mm.Paging.Tables.{LaidOut, make_tables-LaidOut}
use tempos.Mm.Paging.Regions.{with_kernel, rearrange-with_kernel}

-- two pages at 0, and three pages of memory from 1 MB on
abbrev regions : List Region
regions =
    record { base_addr_low = 0; length_low = 8192; type = 1 }
    ∷ record { base_addr_low = 0x100000; length_low = 12288; type = 1 }
    ∷ []

abbrev memory : ℕ → ℕ
memory i = 77

init_stack-Started_example : Started regions 7 memory (init_stack regions 28 memory)
init_stack-Started_example =
    init_stack-Started regions 28 memory
      ((λ e. (omega arith, omega arith)), ((λ e. (omega arith, omega arith)), tt))

-- the first page that is handed out is the page 0, which callers take for a failure
first_page-zero : (alloc_page normal_zone (init_stack regions 28 memory)).0 ≡ 0
unfolding alloc_page init_stack push_regions push_region push_pages page_up
first_page-zero = refl

-- behind the five pages of the map stands what was in memory
sixth_page-unset : (init_stack regions 28 memory).stack 5 ≡ 77
unfolding init_stack push_regions push_region push_pages page_up
sixth_page-unset = refl

abbrev dir : PageDir
dir = record { tables = λ i. 0; tables_phy_addr = 0x200000; dir_phy_addr = 0x100000 }

make_tables-LaidOut_example :
    LaidOut 3 0x100000 0x201000 0x200000 (make_tables 3 0x100000 (dir, 0x201000, memory))
make_tables-LaidOut_example =
    make_tables-LaidOut 3 0x100000 dir 0x201000 memory (omega arith) refl (omega arith)
      (omega arith)

abbrev mmap : Mmap
mmap = record {
  size = 2;
  table = λ i.
      if i == 1
      then record { base_addr_low = 0x100000; length_low = 0x1000000; type = 1 }
      else record { base_addr_low = 0; length_low = 0x9F000; type = 1 };
}

rearrange-with_kernel_example :
    rearrange 3 0 0x100000 0x8000 mmap ≡ some (with_kernel 1 0x100000 0x8000 mmap)
rearrange-with_kernel_example =
    rearrange-with_kernel 3 0 1 0x100000 0x8000 mmap (omega arith) (omega arith) (omega arith)
      (omega arith) refl (λ j other within. ground arith)
