-- ===== src/Irq/Request.antt =====
-- request_irq.
use tempos.Base.{
  ℕ, zero, suc, ◌+◌, ◌-◌, ◌^◌, ◌<◌, ◌≤◌, ◌≡◌, refl, ap, ◌∙◌, ◌≢◌, ◌⊎◌, inl, inr, Bool, Bool-cases,
  true, false, none, some, List, [], ◌∷◌, ◌++◌, arith, length, ◌==◌, ==_of_ne, ltb, update, ok,
  Returns, returns, Returns-bind, Returns-mono,
}
use tempos.LinkedList.{Ptr, null}
use tempos.LinkedList.Cells.{Cell, first, Holds, Holds-same, has, has_of_none, load-ok, not_null}
use tempos.LinkedList.Add.{llist_add-append}
use tempos.Irq.{Irqs, n_irq, last_id, new_id, install_handler, create_handler, request_irq}
use tempos.LinkedList.Remove.{contains}

==_of_eq : {a b : ℕ} → a ≡ b → (a == b) ≡ true
==_of_eq e = ground arith

-- the handlers of the nodes have the ids from `i` on, and none of them is NULL
abbrev pub Numbered : (id : Ptr → ℕ) → (i : ℕ) → List Cell → Type 0
Numbered id i [] = Unit {0}
Numbered id i ((p, e) ∷ cs) = (e ≢ null) × (id e ≡ i) × Numbered id (i + 1) cs

-- A queue: its nodes hold the handlers, numbered from 1 on in their order.
pub record IsQueue (s : Irqs) (irq : ℕ) (cs : List Cell) : Type 0 where
  pub held : Holds s.heap cs
  pub start : s.queue irq ≡ first cs
  pub ids : Numbered s.id 1 cs

last_id-length :
    (k : ℕ) (s : Irqs) (p e i : ℕ) (cs : List Cell)
    → Holds s.heap ((p, e) ∷ cs)
    → Numbered s.id i ((p, e) ∷ cs)
    → length cs < k
    → i + length cs < 2 ^ 32 - 1
    → last_id k s p ≡ ok (some (i + length cs + 1))
unfolding last_id
last_id-length zero s p e i cs held ids fuel small = absurd (omega arith)
last_id-length (suc k) s p e i [] held ids fuel small = rw (load-ok s.heap held.0 held.1) (
    rw (load-ok s.heap held.0 held.1)
      (rw (==_of_ne e null ids.0, ids.1) (ap (λ (v : ℕ). ok (some v)) (omega arith))))
last_id-length (suc k) s p e i ((q, y) ∷ cs) held ids fuel small =
    let count : i + suc (length cs) + 1 ≡ i + 1 + length cs + 1 = omega arith in
    rw (load-ok s.heap held.0 held.1) (
      rw (not_null held.3.0)
        (rw count (last_id-length k s q y (i + 1) cs held.3 ids.2 (omega arith) (omega arith))))

new_id-length :
    (k : ℕ) (s : Irqs) (irq : ℕ) (cs : List Cell)
    → Holds s.heap cs
    → s.queue irq ≡ first cs
    → Numbered s.id 1 cs
    → length cs < k
    → length cs < 2 ^ 32 - 1
    → new_id k s irq ≡ ok (some (length cs + 1))
unfolding new_id
new_id-length k s irq [] held start ids fuel small = rw start refl
new_id-length k s irq ((p, e) ∷ cs) held start ids fuel small =
    let count : suc (length cs) + 1 ≡ 1 + length cs + 1 = omega arith in
    rw (start, not_null held.0, count)
      (last_id-length k s p e 1 cs held ids (omega arith) (omega arith))

Numbered-append :
    (id : Ptr → ℕ) (i w : ℕ) (f x : Ptr) (cs : List Cell)
    → Numbered id i cs
    → contains cs x ≡ false
    → x ≢ null
    → w ≡ i + length cs
    → Numbered (update id x w) i (cs ++ ((f, x) ∷ []))
Numbered-append id i w f x [] ids out ne at = (ne, ground arith, tt)
Numbered-append id i w f x ((p, e) ∷ cs) ids out ne at =
    (ids.0, ground arith, Numbered-append id (i + 1) w f x cs ids.2 (ground arith) ne (omega arith))

-- what create_handler leaves behind
abbrev Appended : Irqs → (irq handler newh fresh : ℕ) → List Cell → ℕ × Irqs → Type 0
Appended s irq handler newh fresh cs (r, t) =
    (r ≡ 1)
    × IsQueue t irq (cs ++ ((fresh, newh) ∷ []))
    × (t.id ≡ update s.id newh (length cs + 1))
    × (t.code ≡ update s.code newh handler)
    × ((j : ℕ) → j ≢ irq → t.queue j ≡ s.queue j)
    × ((a : Ptr) → has a ((fresh, newh) ∷ cs) ≡ false → t.heap a ≡ s.heap a)

create_handler-Appended :
    (k : ℕ) (s : Irqs) (irq handler newh fresh : ℕ) (cs : List Cell)
    → IsQueue s irq cs
    → contains cs newh ≡ false
    → newh ≢ null
    → fresh ≢ null
    → s.heap fresh ≡ none
    → length cs < k
    → length cs < 2 ^ 32 - 1
    → Returns (Appended s irq handler newh fresh cs) (create_handler k newh fresh s irq handler)
unfolding create_handler install_handler
create_handler-Appended k s irq handler newh fresh cs q new nn nf free fuel small =
    let s1 : Irqs = record s { code = update s.code newh handler } in
    rw (==_of_ne newh null nn) (
      rw (new_id-length k s1 irq cs q.held q.start q.ids fuel small) (
        rw q.start (
          Returns-bind (llist_add-append k s.heap cs fresh newh q.held fuel nf free)
            λ (r, list, h) added. returns (
              refl,
              record {
                held = added.2;
                start = ground (arith, added.1);
                ids =
                    Numbered-append s.id 1 (length cs + 1) fresh newh cs q.ids new nn (omega arith);
              },
              refl,
              refl,
              (λ j ne. ground arith),
              added.3,
            ))))

Numbered-kept :
    (id : Ptr → ℕ) (i w : ℕ) (x : Ptr) (cs : List Cell)
    → Numbered id i cs
    → contains cs x ≡ false
    → Numbered (update id x w) i cs
Numbered-kept id i w x [] ids out = tt
Numbered-kept id i w x ((p, e) ∷ cs) ids out =
    (ids.0, ground arith, Numbered-kept id (i + 1) w x cs ids.2 (ground arith))

-- the queue of another line, which shares no node and has not the new handler
other-IsQueue :
    (s t : Irqs) (j newh fresh w : ℕ) (cs ds : List Cell)
    → IsQueue s j ds
    → s.heap fresh ≡ none
    → ((p : Ptr) → has p cs ≡ true → has p ds ≡ false)
    → contains ds newh ≡ false
    → t.id ≡ update s.id newh w
    → t.queue j ≡ s.queue j
    → ((a : Ptr) → has a ((fresh, newh) ∷ cs) ≡ false → t.heap a ≡ s.heap a)
    → IsQueue t j ds
other-IsQueue s t j newh fresh w cs ds q free apart out ids at same =
    let unused = has_of_none s.heap fresh ds q.held free in
    record {
      held = Holds-same s.heap ds q.held λ a i. same a (ground (arith, apart a));
      start = at ∙ q.start;
      ids = rw ids (Numbered-kept s.id 1 w newh ds q.ids out);
    }

-- What a request that succeeds leaves behind: of all lines the queues are those from before, but for the new handler at the end of one.
abbrev pub Installed :
    Irqs → (irq handler newh fresh : ℕ) → (queues : ℕ → List Cell) → ℕ × Irqs → Type 0
Installed s irq handler newh fresh queues (r, t) =
    (r ≡ 1)
    × ((j : ℕ) → j < n_irq → IsQueue t j (update queues irq (queues irq ++ ((fresh, newh) ∷ [])) j))
    × (t.id ≡ update s.id newh (length (queues irq) + 1))
    × (t.code ≡ update s.code newh handler)

Appended-Installed :
    (s t : Irqs) (irq handler newh fresh r : ℕ) (queues : ℕ → List Cell)
    → ((j : ℕ) → j < n_irq → IsQueue s j (queues j))
    → ((j : ℕ) → j ≢ irq → (p : Ptr) → has p (queues irq) ≡ true → has p (queues j) ≡ false)
    → ((j : ℕ) → contains (queues j) newh ≡ false)
    → s.heap fresh ≡ none
    → Appended s irq handler newh fresh (queues irq) (r, t)
    → Installed s irq handler newh fresh queues (r, t)
Appended-Installed s t irq handler newh fresh r queues all apart new free
      (e, q, ids, codes, heads, same) =
    (
      e,
      (λ j line. elim (Bool-cases (j == irq)) [
        | inl here ↦ let at : j ≡ irq = ground arith in rw (at, ==_of_eq {a = irq} refl) q
        | inr other ↦
            let ne : j ≢ irq = ground arith in
            rw other (
              other-IsQueue s t j newh fresh (length (queues irq) + 1) (queues irq) (queues j)
                (all j line) free (apart j ne) (new j) ids (heads j ne) same)
      ]),
      ids,
      codes,
    )

-- Given memory, a request for a line whose queue both the old handlers and the new one may share, and one for an
-- unused line that asks for it alone, succeed, where no two lines share a node: the handler stands at the end of the queue of its line, its id is one more
-- than the number of handlers before it, so the ids are 1, 2, 3 and so on in their order; the queues of all other lines keep their nodes and
-- their handlers in their order, and no other handler changes its id or its code.
pub request_irq-Installed :
    (k : ℕ) (s : Irqs) (irq handler newh fresh : ℕ) (share : Bool) (queues : ℕ → List Cell)
    → irq < n_irq
    → ((share ≡ true) × (s.shared irq ≡ true)) ⊎ ((share ≡ false) × (queues irq ≡ []))
    → ((j : ℕ) → j < n_irq → IsQueue s j (queues j))
    → ((j : ℕ) → j ≢ irq → (p : Ptr) → has p (queues irq) ≡ true → has p (queues j) ≡ false)
    → ((j : ℕ) → contains (queues j) newh ≡ false)
    → newh ≢ null
    → fresh ≢ null
    → s.heap fresh ≡ none
    → length (queues irq) < k
    → length (queues irq) < 2 ^ 32 - 1
    → Returns
        (Installed s irq handler newh fresh queues)
        (request_irq k newh fresh s irq handler share)
unfolding request_irq
request_irq-Installed k s irq handler newh fresh share queues line may all apart new nn nf free fuel
      small =
    let valid : ltb irq n_irq ≡ true = ground arith in
    let q = all irq line in
    elim may [
      | inl (sharing, shared) ↦
          rw (valid, sharing, shared)
            (Returns-mono
              (create_handler-Appended k s irq handler newh fresh (queues irq) q (new irq) nn nf
                free fuel small)
              λ (r, t) a.
                Appended-Installed s t irq handler newh fresh r queues all apart new free a)
      | inr (alone, unused) ↦
          let empty : s.queue irq ≡ null = q.start ∙ ap first unused in
          let s1 : Irqs = record s { shared = update s.shared irq false } in
          let all1 : (j : ℕ) → j < n_irq → IsQueue s1 j (queues j) = λ j within.
            let qj = all j within in record { held = qj.held; start = qj.start; ids = qj.ids } in
          rw (valid, alone, ==_of_eq empty)
            (Returns-mono
              (create_handler-Appended k s1 irq handler newh fresh (queues irq) (all1 irq line)
                (new irq) nn nf free fuel small)
              λ (r, t) a.
                Appended-Installed s1 t irq handler newh fresh r queues all1 apart new free a)
    ]

-- A request is refused with -1 and nothing changed for a line that is not there, for a shared use of a line
-- that is not shared, and for the use alone of a line that has a handler.
pub request_irq-refused :
    (k : ℕ) (s : Irqs) (irq handler newh fresh : ℕ) (share : Bool)
    → (n_irq ≤ irq)
      ⊎ ((share ≡ true) × (s.shared irq ≡ false))
      ⊎ ((share ≡ false) × (s.queue irq ≢ null))
    → request_irq k newh fresh s irq handler share ≡ ok (2 ^ 32 - 1, s)
unfolding request_irq
request_irq-refused k s irq handler newh fresh share why = ground (arith, why)

-- When kmalloc fails for a handler that asks for an unused line alone, the request is refused, and the
-- line is not shared any more though it has no handler.
pub request_irq-lost :
    (k : ℕ) (s : Irqs) (irq handler fresh : ℕ)
    → irq < n_irq
    → s.queue irq ≡ null
    → Returns
        (λ (r, t). (r ≡ 2 ^ 32 - 1) × (t.queue irq ≡ null) × (t.shared irq ≡ false))
        (request_irq k null fresh s irq handler false)
unfolding request_irq create_handler
request_irq-lost k s irq handler fresh line empty =
    let valid : ltb irq n_irq ≡ true = ground arith in
    rw (valid, ==_of_eq empty) (returns (refl, empty, ground arith))
