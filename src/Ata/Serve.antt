-- ===== src/Ata/Serve.antt =====
-- The handlers of the controller's interrupts.
use tempos.Base.{
  ℕ, ◌+◌, ◌*◌, ◌<◌, ◌≡◌, refl, ap, ◌∙◌, ◌≢◌, ◌⊎◌, inl, inr, Bool, Bool-cases, true, false, Option,
  none, some, List, [], ◌∷◌, ◌++◌, arith, length, ◌==◌, ==_of_ne, ==_self, ltb, if◌then◌else◌,
  update, Res, ok, Returns, returns, Returns-bind, Returns-mono,
}
use mathlib.Core.Path.{subst}
use tempos.LinkedList.{Ptr, llist_remove}
use tempos.LinkedList.Cells.{first, Holds, not_null, load-ok}
use tempos.LinkedList.Remove.{contains, Kept, drop_element, llist_remove-drop}
use tempos.Partitions.{Partition}
use tempos.Ata.Ports.{Input, Action, wake, part_target, read_target, read_hd_sector}
use tempos.Ata.Queue.{Request, cells, Stored, Holding}
use tempos.Ata.{
  Ata, BlockOp, bop_at, issue, transfer, next_block, finish_block, ata_handler, op_read, op_write,
  buff_st_valid,
}

-- A device that a request may name: any on the second bus, and on the first bus a whole drive or, where the first drive has a table of
-- partitions, what stands for one of them.
abbrev pub HasTarget : (ptable : ℕ → Option (List Partition)) → (major device : ℕ) → Type 0
HasTarget ptable major device =
    (major ≢ 3)
    ⊎ (device ≡ 0)
    ⊎ (device ≡ 64)
    ⊎ ((device < 64) × ((parts : List Partition) × (ptable 0 ≡ some parts)))

-- the next request, if there is one, names such a device where it is a read
abbrev pub NextTarget : Ata → (major : ℕ) → List Request → Type 0
NextTarget s major [] = Unit {0}
NextTarget s major (r ∷ rs) = (r.block.op ≢ op_read) ⊎ HasTarget s.ptable major r.block.device

-- the code returns
abbrev IsOk {ℓ} : {A : Type ℓ} → Res A → Type ℓ
IsOk {A = A} r = (a : A) × (r ≡ ok a)

IsOk-if {ℓ} : {A : Type ℓ} (b : Bool) (x y : Res A) → IsOk x → IsOk y → IsOk (if b then x else y)
IsOk-if true x y p q = p
IsOk-if false x y p q = q

part_target-IsOk :
    (ptable : ℕ → Option (List Partition)) (dev device addr : ℕ) {parts : List Partition}
    → ptable dev ≡ some parts
    → IsOk (part_target ptable dev device addr)
unfolding part_target
part_target-IsOk ptable dev device addr at = rw (at, part_target) (_, refl)

bop_at-ok : (s : Ata) {p : Ptr} {b : BlockOp} → s.bops p ≡ some b → bop_at s p ≡ ok b
unfolding bop_at
bop_at-ok s at = rw (at, bop_at) refl

read_target-IsOk :
    (ptable : ℕ → Option (List Partition)) (major device addr : ℕ)
    → HasTarget ptable major device
    → IsOk (read_target ptable major device addr)
unfolding read_target
read_target-IsOk ptable major device addr (inl other) =
    rw (==_of_ne major 3 other)
      (IsOk-if (major == 2) _ _ (IsOk-if (ltb device 64) _ _ (_, refl) (_, refl)) (_, refl))
read_target-IsOk ptable major device addr (inr (inl master)) =
    rw master (IsOk-if (major == 3) _ _ (_, refl) (IsOk-if (major == 2) _ _ (_, refl) (_, refl)))
read_target-IsOk ptable major device addr (inr (inr (inl slave))) =
    rw slave (IsOk-if (major == 3) _ _ (_, refl) (IsOk-if (major == 2) _ _ (_, refl) (_, refl)))
read_target-IsOk ptable major device addr (inr (inr (inr (low, (parts, at))))) =
    let first_drive : ltb device 64 ≡ true = ground arith in
    rw first_drive (
      IsOk-if (major == 3) _ _
        (IsOk-if (device == 0) _ _ (_, refl) (part_target-IsOk ptable 0 device addr at))
        (IsOk-if (major == 2) _ _ (_, refl) (_, refl)))

read_hd_sector-IsOk :
    (input : Input) (ptable : ℕ → Option (List Partition)) (major device addr : ℕ)
    → HasTarget ptable major device
    → IsOk (read_hd_sector input ptable major device addr)
unfolding read_hd_sector
read_hd_sector-IsOk input ptable major device addr known =
    let target = read_target-IsOk ptable major device addr known in rw target.1 (_, refl)

Returns-of_ok {ℓ} : {A : Type ℓ} {r : Res A} {a : A} → r ≡ ok a → Returns (λ b. r ≡ ok b) r
Returns-of_ok e = rw e (returns refl)

issue-Returns :
    (input : Input) (s : Ata) (major : ℕ) (b : BlockOp)
    → (b.op ≢ op_read) ⊎ HasTarget s.ptable major b.device
    → Returns (λ program. issue input s major b ≡ ok program) (issue input s major b)
unfolding issue
issue-Returns input s major b (inl other) =
    let (program, e) : IsOk (issue input s major b) =
      rw (==_of_ne b.op op_read other) (IsOk-if (b.op == op_write) _ _ (_, refl) (_, refl)) in
    Returns-of_ok e
issue-Returns input s major b (inr known) =
    let (out, runs) = read_hd_sector-IsOk input s.ptable major b.device (s.addr b.buff) known in
    let (program, e) : IsOk (issue input s major b) =
      IsOk-if (b.op == op_read) _ _ (rw runs (_, refl))
        (IsOk-if (b.op == op_write) _ _ (_, refl) (_, refl)) in
    Returns-of_ok e

Stored-update :
    (bops : Ptr → Option BlockOp) (rs : List Request) (x : Ptr)
    → Stored bops rs
    → contains (cells rs) x ≡ false
    → Stored (update bops x none) rs
Stored-update bops [] x st out = tt
Stored-update bops (r ∷ rs) x st out =
    (st.0, ground arith, st.2, Stored-update bops rs x st.3 (ground arith))

-- what is sent behind a request: the program of the next one, if there is one, and the wakeup
abbrev pub Next : Input → (major event : ℕ) → Ata → List Request → List Action → Type 0
Next input major event t [] sent = sent ≡ wake event ∷ []
Next input major event t (r ∷ rs) sent =
    (program : List Action) × (issue input t major r.block ≡ ok program)
    × (sent ≡ program ++ (wake event ∷ []))

next_block-Next :
    (input : Input) (bus major event : ℕ) (t : Ata) (rs : List Request)
    → NextTarget t major rs
    → Holding t (2 * bus) rs
    → Returns
        (λ sent. Next input major event t rs (sent ++ (wake event ∷ [])))
        (next_block input bus major t)
unfolding next_block
next_block-Next input bus major event t [] known q = rw q.start (returns refl)
next_block-Next input bus major event t (r ∷ rs) known q =
    rw (q.start, not_null q.held.0, load-ok t.heap q.held.0 q.held.1)
      (rw (bop_at-ok t q.stored.1)
        (Returns-mono (issue-Returns input t major r.block known) λ program e. (program, e, refl)))

update_self {ℓ} : {A : Type ℓ} (f : ℕ → A) (i : ℕ) (v : A) → update f i v i ≡ v
update_self f i v = rw (==_self i) refl

-- what a handler leaves behind of the request `r` in front of the requests `rs`
abbrev pub Served :
    Input → (bus major event : ℕ) → Request → List Request → Ata × List Action → Type 0
Served input bus major event r rs (t, sent) =
    Holding t (2 * bus) rs
    × (t.bops r.bop ≡ none)
    × (t.status r.block.buff ≡ buff_st_valid)
    × Next input major event t rs sent

finish_block-Served :
    (k : ℕ) (input : Input) (bus major event : ℕ) (s : Ata) (r : Request) (rs : List Request)
    → NextTarget s major rs
    → Holding s (2 * bus) (r ∷ rs)
    → length (cells rs) + 1 < k
    → Returns
        (λ (t, sent).
          Served input bus major event r rs (t, sent)
          × (t.bytes ≡ s.bytes)
          × (t.discard_irq ≡ s.discard_irq))
        (finish_block k input bus major event r.bop r.block s)
unfolding finish_block
finish_block-Served k input bus major event s r rs known q fuel =
    let removed : Returns
        (λ (x, list, h).
          (x ≡ (if contains (cells (r ∷ rs)) r.bop then 1 else 0))
          × (list ≡ first (drop_element (cells (r ∷ rs)) r.bop))
          × Kept s.heap (cells (r ∷ rs)) (drop_element (cells (r ∷ rs)) r.bop) h)
        (llist_remove k s.heap (s.blk_queue (2 * bus)) r.bop) =
      rw q.start (llist_remove-drop k s.heap (cells (r ∷ rs)) r.bop q.held (omega arith)) in
    Returns-bind removed λ (x, list, h) dropped.
      let same : drop_element (cells (r ∷ rs)) r.bop ≡ cells rs = rw (==_self r.bop) refl in
      let t : Ata = record s {
        status = update s.status r.block.buff buff_st_valid;
        blk_queue = update s.blk_queue (2 * bus) list;
        heap = h;
        bops = update s.bops r.bop none;
      } in
      let rest : Holding t (2 * bus) rs = record {
        held = subst (λ cs. Holds h cs) same dropped.2.0;
        start = ground (arith, dropped.1 ∙ ap first same);
        stored = Stored-update s.bops rs r.bop q.stored.3 q.stored.2;
      } in
      Returns-bind (next_block-Next input bus major event t rs known rest) λ sent next. returns (
        (
          rest,
          update_self s.bops r.bop none,
          update_self s.status r.block.buff buff_st_valid,
          next,
        ),
        refl,
        refl,
      )

-- An interrupt that is to be discarded changes nothing but that mark.
pub ata_handler-discards :
    (k : ℕ) (input : Input) (bus major event : ℕ) (s : Ata)
    → s.discard_irq bus ≡ 1
    → ata_handler k input bus major event s
      ≡ ok (record s { discard_irq = update s.discard_irq bus 0 }, [])
unfolding ata_handler
ata_handler-discards k input bus major event s marked = elim (Bool-cases (s.discard_irq bus == 1)) [
  | inl hit ↦ rw hit refl
  | inr differs ↦ absurd (ground arith)
]

ata_handler-marks :
    (k : ℕ) (input : Input) (bus major event : ℕ) (s : Ata) (r : Request) (rs : List Request)
    → s.discard_irq bus ≢ 1
    → r.block.op ≡ op_write
    → NextTarget s major rs
    → Holding s (2 * bus) (r ∷ rs)
    → length (cells rs) + 1 < k
    → Returns
        (λ (t, sent).
          Served input bus major event r rs (t, sent)
          × (t.bytes ≡ s.bytes)
          × (t.discard_irq bus ≡ 1))
        (ata_handler k input bus major event s)
unfolding ata_handler transfer
ata_handler-marks k input bus major event s r rs handle writes known q fuel =
    let s1 : Ata = record s { discard_irq = update s.discard_irq bus 1 } in
    let q1 : Holding s1 (2 * bus) (r ∷ rs) = record {
      held = q.held;
      start = q.start;
      stored = q.stored;
    } in
    rw (==_of_ne (s.discard_irq bus) 1 handle, q.start, load-ok s.heap q.held.0 q.held.1)
      (rw (bop_at-ok s q.stored.1) (
        rw writes (
          Returns-mono (finish_block-Served k input bus major event s1 r rs known q1 fuel)
            λ (t, sent) (served, bytes, flags).
              (served, bytes, rw flags (update_self s.discard_irq bus 1)))))

-- The interrupt after a write marks the buffer as valid and goes on with the queue in the same way; it changes no bytes, and the
-- interrupt that follows on the bus changes nothing but the mark that it is discarded.
pub ata_handler-write :
    (k : ℕ) (input : Input) (bus major event : ℕ) (s : Ata) (r : Request) (rs : List Request)
    → s.discard_irq bus ≢ 1
    → r.block.op ≡ op_write
    → NextTarget s major rs
    → Holding s (2 * bus) (r ∷ rs)
    → length (cells rs) + 1 < k
    → Returns
        (λ (t, sent).
          Served input bus major event r rs (t, sent)
          × (t.bytes ≡ s.bytes)
          × ((k' : ℕ) (input' : Input)
              → ata_handler k' input' bus major event t
                ≡ ok (record t { discard_irq = update t.discard_irq bus 0 }, [])))
        (ata_handler k input bus major event s)
ata_handler-write k input bus major event s r rs handle writes known q fuel =
    Returns-mono (ata_handler-marks k input bus major event s r rs handle writes known q fuel)
      λ (t, sent) (served, bytes, marked).
        (served, bytes, λ k' input'. ata_handler-discards k' input' bus major event t marked)
