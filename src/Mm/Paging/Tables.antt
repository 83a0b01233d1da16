-- ===== src/Mm/Paging/Tables.antt =====
-- make_kerneldir, and the loop that maps the kernel.
use tempos.Base.{
  ℕ, zero, suc, ◌+◌, ◌*◌, ◌%◌, ◌^◌, ◌<◌, ◌≤◌, ◌≡◌, ◌⊎◌, inl, inr, refl, ap, ◌∙◌, Bool-cases, true,
  arith, ◌==◌, ltb, update,
}
use tempos.Mm.Paging.{
  make_table, table_size, Words, PageDir, make_entry, phys, clear_table, make_tables, Position,
  map_round,
}
use tempos.Mm.Paging.Early.{kmalloc_e-page}

clear_table-cleared :
    (n table : ℕ) (m : Words) (j : ℕ) → j < n → clear_table n table m (table + 4 * j) ≡ 0
unfolding clear_table
clear_table-cleared zero table m j below = absurd (omega arith)
clear_table-cleared (suc n) table m j below = elim (Bool-cases (j == n)) [
  | inl last ↦ ground arith
  | inr before ↦ ground (arith, clear_table-cleared n table m j)
]

-- nothing else is written
clear_table-outside :
    (n table : ℕ) (m : Words) (a : ℕ)
    → (a < table) ⊎ (table + 4 * n ≤ a)
    → clear_table n table m a ≡ m a
unfolding clear_table
clear_table-outside zero table m a out = refl
clear_table-outside (suc n) table m a (inl low) =
    ground (arith, clear_table-outside n table m a (inl low))
clear_table-outside (suc n) table m a (inr high) =
    let above : table + 4 * n ≤ a = omega arith in
    ground (arith, clear_table-outside n table m a (inr above))

-- The first `n` tables: one behind the other from `free` on, empty, and named by the entries of the directory.
abbrev pub LaidOut : (n offset free tpa : ℕ) → PageDir × ℕ × Words → Type 0
LaidOut n offset free tpa (dir, next, m) =
    (next ≡ free + 4096 * n)
    × (dir.tables_phy_addr ≡ tpa)
    × ((i : ℕ) → i < n → dir.tables i ≡ free + 4096 * i)
    × ((i j : ℕ) → i < n → j < 1024 → m (free + 4096 * i + 4 * j) ≡ 0)
    × ((i : ℕ) → i < n → m (tpa + 4 * i) ≡ make_entry (phys offset (free + 4096 * i)))

-- An entry of the directory is no word of a table.
make_table-LaidOut :
    (n offset free tpa : ℕ) (at : PageDir × ℕ × Words)
    → n < 1024
    → free % 4096 ≡ 0
    → tpa + 4096 ≤ free
    → free + 4096 * n + 8192 ≤ 2 ^ 32
    → LaidOut n offset free tpa at
    → LaidOut (suc n) offset free tpa (make_table n offset at)
unfolding make_table
make_table-LaidOut n offset free tpa (dir, next, m) few aligned before room
      (at, same, tables, empty, entries) =
    let m1 : Words = update m (dir.tables_phy_addr + 4 * n) (make_entry (phys offset next)) in
    rw (kmalloc_e-page next (omega arith) (omega arith)) (
      omega arith,
      same,
      (λ i below. elim (Bool-cases (i == n)) [
        | inl last ↦ ground arith
        | inr other ↦ ground (arith, tables i)
      ]),
      (λ i j below within. elim (Bool-cases (i == n)) [
        | inl last ↦
            ap (clear_table table_size next m1) (ground arith)
            ∙ clear_table-cleared table_size next m1 j within
        | inr other ↦
            clear_table-outside table_size next m1 (free + 4096 * i + 4 * j) (inl (ground arith))
            ∙ ground (arith, empty i j)
      ]),
      (λ i below.
          clear_table-outside table_size next m1 (tpa + 4 * i) (inl (omega arith))
          ∙ elim (Bool-cases (i == n)) [
            | inl last ↦
                let here : (tpa + 4 * i == dir.tables_phy_addr + 4 * n) ≡ true = ground arith in
                rw here (ap (λ (x : ℕ). make_entry (phys offset x)) (ground arith))
            | inr other ↦ ground (arith, entries i)
          ]),
    )

-- From a free address at the start of a page, behind the page of the directory's entries and with room for the tables, the first `n` rounds lay out
-- `n` tables of 4096 bytes one behind the other, all of their entries 0, and write the entry of each into the directory.
pub make_tables-LaidOut :
    (n offset : ℕ) (dir : PageDir) (free : ℕ) (m : Words)
    → n ≤ 1024
    → free % 4096 ≡ 0
    → dir.tables_phy_addr + 4096 ≤ free
    → free + 4096 * n + 4096 ≤ 2 ^ 32
    → LaidOut n offset free dir.tables_phy_addr (make_tables n offset (dir, free, m))
unfolding make_tables
make_tables-LaidOut zero offset dir free m few aligned before room = (
  omega arith,
  refl,
  (λ i below. absurd (omega arith)),
  (λ i j below within. absurd (omega arith)),
  λ i below. absurd (omega arith),
)
make_tables-LaidOut (suc n) offset dir free m few aligned before room =
    make_table-LaidOut n offset free dir.tables_phy_addr (make_tables n offset (dir, free, m))
      (omega arith) aligned before (omega arith)
      (make_tables-LaidOut n offset dir free m (omega arith) aligned before (omega arith))

-- The loop that maps the kernel does not keep its index within a table: behind the last entry it stands at the entry 1024, which is
-- no entry of the table, and maps the next page there.
pub map_round-overrun :
    (dir : PageDir) (p : Position) (m : Words)
    → p.l ≡ 1023
    → let (q, m') = map_round dir p m in
      (q.l ≡ 1024)
      × (q.k ≡ p.k)
      × ((map_round dir q m').1 (dir.tables p.k + 4096) ≡ make_entry q.address)
unfolding map_round
map_round-overrun dir p m last =
    let low : ltb p.l table_size ≡ true = ground arith in
    let here : (dir.tables p.k + 4096 == dir.tables p.k + 4 * (p.l + 1)) ≡ true = ground arith in
    rw low (omega arith, refl, rw here refl)
