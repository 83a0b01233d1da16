-- ===== src/Ata/Queue.antt =====
-- The queues of requests, and the functions that add to them.
use tempos.Base.{
  ℕ, ◌<◌, ◌≡◌, refl, ap, ◌≢◌, Bool, true, false, Option, none, some, List, [], ◌∷◌, ◌++◌, arith,
  length, ◌==◌, if◌then◌else◌, update, Res, ok, Returns, returns, Returns-bind,
}
use tempos.LinkedList.{Ptr, null, Heap}
use tempos.LinkedList.Cells.{Cell, first, Holds, not_null}
use tempos.LinkedList.Add.{llist_add-append}
use tempos.LinkedList.Remove.{contains}
use tempos.Ata.Ports.{Input, Action}
use tempos.Ata.{
  Ata, BlockOp, issue, add_request, enqueue, read_queue, read_async_ata_sector, write_queue,
  write_async_ata_sector, op_read, op_write, buff_st_busy,
}

-- a request that waits: its node, the address of the request, and what stands there
pub record Request : Type 0 where
  pub node : Ptr
  pub bop : Ptr
  pub block : BlockOp

abbrev pub cells : List Request → List Cell
cells [] = []
cells (r ∷ rs) = (r.node, r.bop) ∷ cells rs

-- the requests stand at their addresses, which differ
abbrev pub Stored : (Ptr → Option BlockOp) → List Request → Type 0
Stored bops [] = Unit {0}
Stored bops (r ∷ rs) =
    (r.bop ≢ null)
    × (bops r.bop ≡ some r.block)
    × (contains (cells rs) r.bop ≡ false)
    × Stored bops rs

-- the queue with an index holds the requests, in their order
pub record Holding (s : Ata) (dev : ℕ) (rs : List Request) : Type 0 where
  pub held : Holds s.heap (cells rs)
  pub start : s.blk_queue dev ≡ first (cells rs)
  pub stored : Stored s.bops rs

pub cells-append : (xs ys : List Request) → cells (xs ++ ys) ≡ cells xs ++ cells ys
cells-append [] ys = refl
cells-append (x ∷ xs) ys = ap (λ (t : List Cell). (x.node, x.bop) ∷ t) (cells-append xs ys)

contains-append :
    (cs ds : List Cell) (x : Ptr)
    → contains cs x ≡ false
    → contains ds x ≡ false
    → contains (cs ++ ds) x ≡ false
contains-append [] ds x a b = b
contains-append ((p, e) ∷ cs) ds x a b = ground (arith, contains-append cs ds x)

Stored-append :
    (bops : Ptr → Option BlockOp) (rs : List Request) (r : Request)
    → Stored bops rs
    → contains (cells rs) r.bop ≡ false
    → r.bop ≢ null
    → Stored (update bops r.bop (some r.block)) (rs ++ (r ∷ []))
Stored-append bops [] r st new ne = (ne, ground arith, refl, tt)
Stored-append bops (x ∷ rs) r st new ne = (
  st.0,
  ground arith,
  rw (cells-append rs (r ∷ [])) (contains-append (cells rs) _ x.bop st.2 (ground arith)),
  Stored-append bops rs r st.3 (ground arith) ne,
)

abbrev pub is_empty : List Request → Bool
is_empty [] = true
is_empty (r ∷ rs) = false

-- what a call that adds a request leaves behind
abbrev pub Queued :
    Ata
    → (dev : ℕ) → List Request
    → Request
    → (program : List Action) → ℕ × Ata × List Action
    → Type 0
Queued s dev rs r program (res, t, sent) =
    (res ≡ 0)
    × Holding t dev (rs ++ (r ∷ []))
    × (t.status r.block.buff ≡ buff_st_busy)
    × (sent ≡ (if is_empty rs then program else []))
    × ((j : ℕ) → j ≢ dev → t.blk_queue j ≡ s.blk_queue j)

pub Returns-of_eq {ℓ} : {A : Type ℓ} {r : Res A} {a : A} → r ≡ ok a → Returns (λ b. b ≡ a) r
Returns-of_eq e = rw e (returns refl)

first-null :
    (h : Heap) (rs : List Request) → Holds h (cells rs) → (first (cells rs) == null) ≡ is_empty rs
first-null h [] held = refl
first-null h (r ∷ rs) held = not_null held.0

-- the first request of a queue is started
first_only :
    (b : Bool) (run : Res (List Action)) (program : List Action)
    → run ≡ ok program
    → Returns (λ sent. sent ≡ (if b then program else [])) (if b then run else ok [])
first_only true run program e = Returns-of_eq e
first_only false run program e = returns refl

-- after llist_add
added-Holding :
    (s : Ata) (dev list : ℕ) (h : Heap) (rs : List Request) (r : Request)
    → Stored s.bops (rs ++ (r ∷ []))
    → list ≡ first (cells rs ++ ((r.node, r.bop) ∷ []))
    → Holds h (cells rs ++ ((r.node, r.bop) ∷ []))
    → Holding (record s { blk_queue = update s.blk_queue dev list; heap = h }) dev (rs ++ (r ∷ []))
added-Holding s dev list h rs r st start held = record {
  held = rw (cells-append rs (r ∷ [])) held;
  start = rw (cells-append rs (r ∷ [])) (ground (arith, start));
  stored = st;
}

-- In `s` the request already stands at its address.
add_request-Queued :
    (k : ℕ) (input : Input) (dev major : ℕ) (started : BlockOp) (s : Ata) (rs : List Request)
    (r : Request) (program : List Action)
    → Holds s.heap (cells rs)
    → s.blk_queue dev ≡ first (cells rs)
    → Stored s.bops (rs ++ (r ∷ []))
    → s.status r.block.buff ≡ buff_st_busy
    → r.node ≢ null
    → s.heap r.node ≡ none
    → length (cells rs) < k
    → issue input s major started ≡ ok program
    → Returns
        (λ (t, sent). Queued s dev rs r program (0, t, sent))
        (add_request k input r.node r.bop dev major started s)
unfolding add_request issue
add_request-Queued k input dev major started s rs r program held start st busy nn free fuel starts =
    rw start (
      Returns-bind (llist_add-append k s.heap (cells rs) r.node r.bop held fuel nn free)
        λ (x, list, h) added. rw (first-null s.heap rs held) (
          Returns-bind (first_only (is_empty rs) (issue input s major started) program starts)
            λ sent only. returns (
              refl,
              added-Holding s dev list h rs r st added.1 added.2,
              busy,
              only,
              λ j other. ground arith,
            )))

-- A request that is not in memory yet, where kmalloc gives it and a node their places, is stored at the end of its queue and
-- its buffer is marked as busy; `program` is what starts it, and is sent just where the queue was empty.
enqueue-Queued :
    (k : ℕ) (input : Input) (dev major : ℕ) (started : BlockOp) (s : Ata) (rs : List Request)
    (r : Request) (program : List Action)
    → Holding s dev rs
    → contains (cells rs) r.bop ≡ false
    → r.bop ≢ null
    → r.node ≢ null
    → s.heap r.node ≡ none
    → length (cells rs) < k
    → issue input s major started ≡ ok program
    → Returns (Queued s dev rs r program) (enqueue k input r.node r.bop dev major r.block started s)
unfolding enqueue issue
enqueue-Queued k input dev major started s rs r program q new nb nn free fuel starts =
    let s2 : Ata = record s {
      status = update s.status r.block.buff buff_st_busy;
      bops = update s.bops r.bop (some r.block);
    } in
    rw (not_null nb) (
      Returns-bind
        (add_request-Queued k input dev major started s2 rs r program q.held q.start
          (Stored-append s.bops rs r q.stored new nb) (ground arith) nn free fuel starts)
        λ (t, sent) queued. returns queued)

module _ (k : ℕ) (input : Input) (dev major device : ℕ) (buf : Ptr) (s : Ata) (rs : List Request)
    (node bop : Ptr) (program : List Action) (q : Holding s dev rs)
    (new : contains (cells rs) bop ≡ false) (nb : bop ≢ null) (nn : node ≢ null)
    (free : s.heap node ≡ none) (fuel : length (cells rs) < k) where
  -- Given memory, a read of a device that has a queue goes to the end of that queue with its device and its buffer, the
  -- buffer is marked as busy, and the controller gets the program of the read just where the queue was empty.
  pub read_async-Queued :
      read_queue major device ≡ some dev
      → issue input s major (record { op = op_read; device = device; buff = buf }) ≡ ok program
      → Returns
          (Queued s dev rs
            (record {
              node = node;
              bop = bop;
              block = record { op = op_read; device = device; buff = buf };
            })
            program)
          (read_async_ata_sector k input node bop major device buf s)
  unfolding read_async_ata_sector
  read_async-Queued target starts =
      rw (target, read_async_ata_sector)
        (enqueue-Queued k input dev major (record { op = op_read; device = device; buff = buf }) s
          rs
          (record {
            node = node;
            bop = bop;
            block = record { op = op_read; device = device; buff = buf };
          })
          program q new nb nn free fuel starts)

  -- The same for a write; but the request that waits names the device 0.
  pub write_async-Queued :
      write_queue major device ≡ some dev
      → issue input s major (record { op = op_write; device = device; buff = buf }) ≡ ok program
      → Returns
          (Queued s dev rs
            (record {
              node = node;
              bop = bop;
              block = record { op = op_write; device = 0; buff = buf };
            })
            program)
          (write_async_ata_sector k input node bop major device buf s)
  unfolding write_async_ata_sector
  write_async-Queued target starts =
      rw (target, write_async_ata_sector)
        (enqueue-Queued k input dev major (record { op = op_write; device = device; buff = buf }) s
          rs
          (record {
            node = node;
            bop = bop;
            block = record { op = op_write; device = 0; buff = buf };
          })
          program q new nb nn free fuel starts)
