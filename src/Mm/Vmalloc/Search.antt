-- ===== src/Mm/Vmalloc/Search.antt =====
-- The search of `_vmalloc_`: first fit.
use tempos.Base.{
  ℕ, zero, suc, ◌+◌, ◌-◌, ◌*◌, ◌/◌, ◌%◌, ◌≤◌, ◌<◌, ◌≡◌, refl, ◌⊎◌, inl, inr, true, false, arith,
  leb, Bool-cases, ◌∙◌,
}
use native.Mathlib.Decide.{dec_lt, dec_le}
use tempos.Mm.Bitmap.{Bitmap, bitmap_size, bit_at, is_on}
use tempos.Mm.Vmalloc.{Scan, scan_start, scan_bit, scan_byte, scan_map}

-- every block from `a` up to `b` is off
abbrev pub AllFree : Bitmap → (a b : ℕ) → Type 0
AllFree m a b = (r : ℕ) → a ≤ r → r < b → is_on m r ≡ false

module _ (m : Bitmap) (n : ℕ) where
  -- no `n` blocks in a row that lie below `e` are all off
  abbrev pub NoRun : ℕ → Type 0
  NoRun e = (q : ℕ) → q + n ≤ e → AllFree m q (q + n) → ⊥

  -- Still looking, with all blocks below `pos` seen: the run of free blocks that ends at `pos` began
  -- at `b`.
  record Looking (pos : ℕ) (s : Scan) : Type 0 where
    b : ℕ
    short : s.apages < n
    reaches : b + s.apages ≡ pos
    begun : s.istart ≡ true → s.pstart ≡ b
    idle : s.istart ≡ false → s.apages ≡ 0
    free : AllFree m b pos
    edge : (b ≡ 0) ⊎ ((0 < b) × (is_on m (b - 1) ≡ true))
    none_before : NoRun b

  -- The search has its blocks, the first ones in a row that are off, below `e`.
  pub record Found (e : ℕ) (s : Scan) : Type 0 where
    pub enough : n ≤ s.apages
    pub begun : s.istart ≡ true
    pub within : s.pstart + n ≤ e
    pub free : AllFree m s.pstart (s.pstart + n)
    pub none_before : (q : ℕ) → q < s.pstart → AllFree m q (q + n) → ⊥

  abbrev State : ℕ → Scan → Type 0
  State pos s = Looking pos s ⊎ Found pos s

  is_on-split : (i j : ℕ) → j < 8 → is_on m (i * 8 + j) ≡ bit_at m i j
  is_on-split i j h =
      let q : (i * 8 + j) / 8 ≡ i = omega arith in
      let r : (i * 8 + j) % 8 ≡ j = omega arith in rw (q, r)

  -- A run of `n` free blocks that begins before `b` ends before `b` too.
  run_before : (pos : ℕ) (s : Scan) (l : Looking pos s) (q : ℕ) → q < l.b → AllFree m q (q + n) → ⊥
  run_before pos s l q lt run = elim l.edge [
    | inl z ↦ absurd (omega arith)
    | inr (p, on) ↦ elim (dec_le (q + n) l.b) [
      | yes le ↦ l.none_before q le run
      | no gt ↦ cc (run (l.b - 1) (omega arith) (omega arith), on)
    ]
  ]

  step_free :
      (pos : ℕ) (s : Scan) (l : Looking pos s)
      → is_on m pos ≡ false
      → State (pos + 1) (record { istart = true; pstart = l.b; apages = s.apages + 1 })
  step_free pos s l off = elim (dec_lt (s.apages + 1) n) [
    | yes lt ↦ inl (record {
      b = l.b;
      short = lt;
      reaches = omega (arith, l.reaches);
      begun = λ e. refl;
      idle = λ e. cc;
      free = longer;
      edge = l.edge;
      none_before = l.none_before;
    })
    | no ge ↦ inr (record {
      enough = omega arith;
      begun = refl;
      within = omega (arith, l.reaches, l.short);
      free = λ r a b. longer r a (omega (arith, l.reaches, l.short));
      none_before = run_before pos s l;
    })
  ]
    where
      longer : AllFree m l.b (pos + 1)
      longer r a b = elim (dec_lt r pos) [
        | yes lt ↦ l.free r a lt
        | no ge ↦ let e : r ≡ pos = omega arith in rw e off
      ]

  step_on :
      (pos : ℕ) (s : Scan) (l : Looking pos s)
      → is_on m pos ≡ true
      → 0 < n
      → State (pos + 1) (record s { istart = false; apages = 0 })
  step_on pos s l on pos_n = inl (record {
    b = pos + 1;
    short = pos_n;
    reaches = omega arith;
    begun = λ e. cc;
    idle = λ e. refl;
    free = λ r a b. absurd (omega arith);
    edge = inr (omega arith, let e : pos + 1 - 1 ≡ pos = omega arith in rw e on);
    none_before = λ q le run. elim (dec_lt q l.b) [
      | yes lt ↦ run_before pos s l q lt run
      | no ge ↦ cc (run pos (omega (arith, l.reaches)) (omega (arith, l.reaches, l.short)), on)
    ];
  })

  Found-same :
      (e e' : ℕ) (s t : Scan)
      → Found e s
      → t.istart ≡ true
      → t.pstart ≡ s.pstart
      → n ≤ t.apages
      → e ≤ e'
      → Found e' t
  Found-same e e' s t f begun at enough le = record {
    enough = enough;
    begun = begun;
    within = omega (arith, f.within);
    free = rw at f.free;
    none_before = rw at f.none_before;
  }

  scan_bit-State :
      (i j : ℕ) (s : Scan)
      → j < 8
      → 0 < n
      → State (i * 8 + j) s
      → State (i * 8 + j + 1) (scan_bit m n i j s)
  unfolding scan_bit
  scan_bit-State i j s h pos_n (inl l) = elim (Bool-cases (bit_at m i j)) [
    | inl on ↦ rw on (ground (arith, step_on (i * 8 + j) s l (is_on-split i j h ∙ on) pos_n))
    | inr off ↦ rw off (ground (arith, step_free (i * 8 + j) s l (is_on-split i j h ∙ off)))
  ]
  scan_bit-State i j s h pos_n (inr f) = inr (
      Found-same (i * 8 + j) (i * 8 + j + 1) s (scan_bit m n i j s) f
        (ground (arith, f.begun, f.enough)) (ground (arith, f.begun, f.enough))
        (ground (arith, f.enough)) (omega arith))

  scan_byte-State :
      (k i j : ℕ) (s : Scan)
      → j + k ≡ 8
      → 0 < n
      → State (i * 8 + j) s
      → State (i * 8 + 8) (scan_byte m n k i j s)
  unfolding scan_byte
  scan_byte-State zero i j s e pos_n st = let e' : j ≡ 8 = omega arith in rw e' at st
  scan_byte-State (suc k) i j s e pos_n st =
      let st' : State (i * 8 + j + 1) (scan_bit m n i j s) =
        scan_bit-State i j s (omega arith) pos_n st in
      elim (Bool-cases (leb n (scan_bit m n i j s).apages)) [
        | inl stop ↦ rw stop (inr (stopped (scan_bit m n i j s) stop st'))
        | inr go ↦ rw go (
            scan_byte-State k i (j + 1) (scan_bit m n i j s) (omega arith) pos_n
              (let e' : i * 8 + (j + 1) ≡ i * 8 + j + 1 = omega arith in rw e' st'))
      ]
    where
      stopped : (t : Scan) → leb n t.apages ≡ true → State (i * 8 + j + 1) t → Found (i * 8 + 8) t
      stopped t h (inl l) = absurd (ground (arith, l.short))
      stopped t h (inr f) =
          Found-same (i * 8 + j + 1) (i * 8 + 8) t t f f.begun refl f.enough (omega arith)

  scan_map-State :
      (k i : ℕ) (s : Scan) → 0 < n → State (i * 8) s → State ((i + k) * 8) (scan_map m n k i s)
  unfolding scan_map
  scan_map-State zero i s pos_n st = let e : (i + 0) * 8 ≡ i * 8 = omega arith in rw e st
  scan_map-State (suc k) i s pos_n st =
      let e : (i + suc k) * 8 ≡ (i + 1 + k) * 8 = omega arith in
      let e0 : i * 8 ≡ i * 8 + 0 = omega arith in
      let e8 : i * 8 + 8 ≡ (i + 1) * 8 = omega arith in
      rw e (
        scan_map-State k (i + 1) (scan_byte m n 8 i 0 s) pos_n
          (rw e8 at (scan_byte-State 8 i 0 s (omega arith) pos_n (rw e0 at st))))

  -- The search of `_vmalloc_` for `n` blocks is first fit: where it ends with `apages` at least `n`,
  -- the `n` blocks from `pstart` on are off and lie in the bitmap, and no earlier `n` blocks in a row
  -- are off. Where it ends with less, no `n` blocks in a row of the bitmap are off.
  pub scan_map-first_fit :
      0 < n
      → let s = scan_map m n bitmap_size 0 scan_start in
        (n ≤ s.apages → Found (bitmap_size * 8) s) × (s.apages < n → NoRun (bitmap_size * 8))
  scan_map-first_fit pos_n = (λ ge. enough ge ended, λ lt. none_at_all lt ended)
    where
      ended : State ((0 + bitmap_size) * 8) (scan_map m n bitmap_size 0 scan_start)
      ended = scan_map-State bitmap_size 0 scan_start pos_n (
          inl (record {
            b = 0;
            short = pos_n;
            reaches = refl;
            begun = λ e. cc;
            idle = λ e. refl;
            free = λ r a b. absurd (omega arith);
            edge = inl refl;
            none_before = λ q le run. absurd (omega arith);
          }))

      enough :
          {s : Scan} → n ≤ s.apages → State ((0 + bitmap_size) * 8) s → Found (bitmap_size * 8) s
      enough ge (inl l) = absurd (omega (arith, l.short))
      enough ge (inr f) = f

      none_at_all :
          {s : Scan} → s.apages < n → State ((0 + bitmap_size) * 8) s → NoRun (bitmap_size * 8)
      none_at_all {s} lt (inl l) q le run = elim (dec_lt q l.b) [
        | yes before ↦ run_before ((0 + bitmap_size) * 8) s l q before run
        | no after ↦ absurd (omega (arith, l.reaches, l.short))
      ]
      none_at_all lt (inr f) q le run = absurd (omega (arith, f.enough))
