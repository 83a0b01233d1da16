-- ===== src/Mm/Vmalloc.antt =====
-- kernel/kernel/mm/kmalloc.c: `_vmalloc_`, `kmalloc` and `kfree` over one memory map.
-- The page tables are one array of entries: `make_kerneldir` takes them from the early allocator one
-- after the other, so slot 1024 of a table is slot 0 of the next. The header `mregion` before each
-- block is kept by its address, apart from the bytes of the blocks.
pub mod Search
pub mod Alloc
pub mod Free
mod Tests
use Prim.Native.Nat.{bit_and, bit_or}
use tempos.Base.{
  ℕ, zero, suc, ◌+◌, ◌-◌, ◌*◌, ◌/◌, ◌%◌, ◌^◌, Bool, true, false, not, ltb, leb, ◌==◌, if◌then◌else◌,
  update, Res, ok, out_of_fuel,
}
use tempos.Mm.Bitmap.{Bitmap, bitmap_size, bit_at, bmap_on, bmap_off, page_align}
use tempos.Mm.Pages.{Pages, dma_zone, normal_zone, alloc_page, free_page}

-- `mregion`, without the pointer to the one memory map
pub record Region : Type 0 where
  pub initial_addr : ℕ
  pub size : ℕ

pub record Vm : Type 0 where
  pub bitmap : Bitmap
  pub entries : ℕ → ℕ
  pub pages : Pages
  pub regions : ℕ → Region
  pub bytes : ℕ → ℕ

-- the variables of the search: `istart`, `pstart` and `apages`
pub record Scan : Type 0 where
  pub istart : Bool
  pub pstart : ℕ
  pub apages : ℕ

abbrev pub scan_start : Scan
scan_start = record { istart = false; pstart = 0; apages = 0 }

module _ (m : Bitmap) (npages : ℕ) where
  -- the body of the inner loop, before its `break`
  pub scan_bit : (i j : ℕ) → Scan → Scan
  scan_bit i j s =
      if not (bit_at m i j)
      then (if not s.istart
          then record { istart = true; pstart = i * 8 + j; apages = s.apages + 1 }
          else record s { apages = s.apages + 1 })
      else (if ltb s.apages npages then record s { istart = false; apages = 0 } else s)

  -- for(j = j; j < j + n; j++) { …; if(apages >= npages) break; }
  pub scan_byte : (n i j : ℕ) → Scan → Scan
  scan_byte zero i j s = s
  scan_byte (suc n) i j s =
      let s' = scan_bit i j s in
      let rest = scan_byte n i (j + 1) s' in if leb npages s'.apages then s' else rest

  -- for(i = i; i < i + n; i++)
  pub scan_map : (n i : ℕ) → Scan → Scan
  scan_map zero i s = s
  scan_map (suc n) i s = scan_map n (i + 1) (scan_byte 8 i 0 s)

-- MAKE_ENTRY
abbrev pub make_entry : (addr params : ℕ) → ℕ
make_entry addr params = bit_or (addr / 4096 * 4096) params

-- where the loop over the pages stands: `apages`, `index` and `i`
pub record Cursor : Type 0 where
  pub apages : ℕ
  pub index : ℕ
  pub i : ℕ

-- `table[i]`
abbrev pub slot : Cursor → ℕ
slot c = c.index * 1024 + c.i

-- apages++, and on to the next slot
pub advance : Cursor → Cursor
advance c =
    if ltb c.i 1024
    then record { apages = c.apages + 1; index = c.index; i = c.i + 1 }
    else record { apages = c.apages + 1; index = c.index + 1; i = 0 }

-- bmap_on and the table entry for the page that `alloc_page` gave
abbrev pub map_page : (newpage user pstart : ℕ) → Cursor → Pages → Vm → Vm
map_page newpage user pstart c pages v = record v {
  bitmap = bmap_on v.bitmap (pstart + c.apages);
  entries = update v.entries (slot c) (make_entry newpage (3 + user));
  pages = pages;
}

-- the loop `while(apages <= npages)` with `n` rounds left; `false` for `goto error`
pub alloc_pages : (n zone user pstart : ℕ) → Cursor → Vm → Bool × Cursor × Vm
alloc_pages zero zone user pstart c v = (true, c, v)
alloc_pages (suc n) zone user pstart c v =
    let (newpage, pages) = alloc_page zone v.pages in
    let rest =
      alloc_pages n zone user pstart (advance c) (map_page newpage user pstart c pages v) in
    if newpage == 0 then (false, c, record v { pages = pages }) else rest

-- the loop behind `error`, with `n = apages` rounds left
pub undo_pages : (n index i : ℕ) → Vm → Vm
undo_pages zero index i v = v
undo_pages (suc n) index i v =
    let at = index * 1024 + i in
    let v' : Vm = record v {
      pages = free_page (v.entries at) v.pages;
      entries = update v.entries at 0;
    } in
    undo_pages n (if ltb 0 i then index else (index + 2 ^ 32 - 1) % 2 ^ 32)
      (if ltb 0 i then i - 1 else 1024 - 1) v'

-- for(i=0; i<n; i++) mem_block[i] = 0;
pub zero_bytes : (n addr : ℕ) → (ℕ → ℕ) → ℕ → ℕ
zero_bytes zero addr b = b
zero_bytes (suc n) addr b = zero_bytes n (addr + 1) (update b addr 0)

-- sizeof(mregion)
abbrev pub region_size : ℕ
region_size = 12

-- PAGE_ALIGN(sizeof(mregion) + size) >> PAGE_SHIFT
pub pages_for : ℕ → ℕ
pages_for size = page_align ((region_size + size) % 2 ^ 32) / 4096

-- the header, GFP_ZEROP and the address that is returned
pub finish : (size flags pstart npages : ℕ) → Vm → ℕ × Vm
finish size flags pstart npages v =
    let block = pstart * 4096 in
    let v' : Vm = record v {
      regions = update v.regions block (record { initial_addr = pstart; size = npages });
      bytes =
          if not (bit_and flags 4 == 0)
          then zero_bytes ((size + 2 ^ 32 - region_size) % 2 ^ 32) (block + region_size) v.bytes
          else v.bytes;
    } in
    (block + region_size, v')

-- what follows the loop over the pages
pub conclude : (size flags pstart npages : ℕ) → Bool × Cursor × Vm → ℕ × Vm
conclude size flags pstart npages (done, c, v) =
    if done then finish size flags pstart npages v else (0, undo_pages c.apages c.index c.i v)

abbrev pub first_slot : (pstart : ℕ) → Cursor
first_slot pstart = record {
  apages = 0;
  index = pstart / 1024;
  i = pstart - 1024 * (pstart / 1024);
}

pub vmalloc_at : (size flags npages pstart : ℕ) → Vm → ℕ × Vm
vmalloc_at size flags npages pstart v =
    let zone = if not (bit_and flags 1 == 0) then dma_zone else normal_zone in
    let user : ℕ = if not (bit_and flags 8 == 0) then 4 else 0 in
    conclude size flags pstart npages
      (alloc_pages (npages + 1) zone user pstart (first_slot pstart) v)

-- `_vmalloc_`; the NULL of a failure is 0
pub vmalloc : (size flags : ℕ) → Vm → ℕ × Vm
vmalloc size flags v =
    let npages = pages_for size in
    let s = scan_map v.bitmap npages bitmap_size 0 scan_start in
    if ltb s.apages npages then (0, v) else vmalloc_at size flags npages s.pstart v

-- `kmalloc`, for the kernel's own memory map
pub kmalloc : (size flags : ℕ) → Vm → ℕ × Vm
kmalloc size flags v = vmalloc size flags v

-- the loop of `kfree`: `while(dpages >= ffpage)` on 32-bit words
pub free_pages : (fuel initial_addr ffpage dpages j i : ℕ) → Vm → Res Vm
free_pages zero initial_addr ffpage dpages j i v = out_of_fuel
free_pages (suc k) initial_addr ffpage dpages j i v =
    let v' : Vm = record v {
      pages = free_page (v.entries (j * 1024 + i)) v.pages;
      bitmap = bmap_off v.bitmap (initial_addr + dpages);
    } in
    let rest =
      free_pages k initial_addr ffpage ((dpages + 2 ^ 32 - 1) % 2 ^ 32)
        (if ltb 0 i then j else (j + 2 ^ 32 - 1) % 2 ^ 32) (i - 1) v' in
    if leb ffpage dpages then rest else ok v

pub kfree : (fuel ptr : ℕ) → Vm → Res Vm
kfree fuel ptr v =
    let r = v.regions (ptr - region_size) in
    let index = r.initial_addr / 1024 in
    let ffpage = r.initial_addr - 1024 * index in
    free_pages fuel r.initial_addr ffpage ((ffpage + r.size + 2 ^ 32 - 1) % 2 ^ 32) index ffpage v
