-- ===== src/Ata.antt =====
-- kernel/drivers/block/ata_generic.c: the requests for blocks and what is sent to the controller. The queues are lists over the
-- heap of nodes, a request is an entry of `bops`, and the fields of buffers are functions of their address. What the code
-- sends to a port is a list of actions, and what the ports give is an argument. The waits of wait_bus and
-- udelay change nothing here, and cli and sti bracket one step. What kmalloc returns is an argument too.
pub mod Ports
pub mod Program
pub mod Bytes
pub mod Queue
pub mod Serve
pub mod Lost
pub mod Identify
mod Tests
use tempos.Base.{
  ℕ, zero, suc, ◌+◌, ◌-◌, ◌*◌, ◌/◌, ◌%◌, ◌^◌, Bool, true, false, ◌&&◌, ◌||◌, not, Option, none,
  some, List, [], ◌∷◌, ◌++◌, ◌==◌, ltb, leb, if◌then◌else◌, update, Res, ok, fault, out_of_fuel,
  ◌>>=◌,
}
use tempos.LinkedList.{Ptr, null, Heap, load, llist_add, llist_remove}
use tempos.Partitions.{Partition}
use tempos.Ata.Ports.{
  sector_size, minus_one, Input, Action, outb, outw, wake, read_hd_sector, write_hd_sector,
  read_words,
}

abbrev pub buff_st_valid : ℕ
buff_st_valid = 0x02

abbrev pub buff_st_busy : ℕ
buff_st_busy = 0x08

abbrev pub op_read : ℕ
op_read = 1

abbrev pub op_write : ℕ
op_write = 2

-- `struct _block_op`
pub record BlockOp : Type 0 where
  pub op : ℕ
  pub device : ℕ
  pub buff : Ptr

-- the queues, the requests, the buffers and the flags of the driver; a table of partitions that was not found is NULL
pub record Ata : Type 0 where
  pub blk_queue : ℕ → Ptr
  pub heap : Heap
  pub bops : Ptr → Option BlockOp
  pub status : Ptr → ℕ
  pub addr : Ptr → ℕ
  pub bytes : Ptr → ℕ → ℕ
  pub discard_irq : ℕ → ℕ
  pub ptable : ℕ → Option (List Partition)

-- the request of a queue's first node
pub bop_at : Ata → Ptr → Res BlockOp
bop_at s bop = elim (s.bops bop) [ none ↦ fault | some b ↦ ok b ]

-- "Process the next block", or the first one of a queue that was empty
pub issue : Input → Ata → (major : ℕ) → BlockOp → Res (List Action)
unfolding read_hd_sector write_hd_sector
issue input s major b =
    if b.op == op_read
    then (do (_, sent) ← read_hd_sector input s.ptable major b.device (s.addr b.buff); ok sent)
    else if b.op == op_write
    then ok (write_hd_sector input major b.device (s.addr b.buff) (s.bytes b.buff)).1
    else ok []

-- the transfer at the start of a handler
pub transfer : Input → (bus : ℕ) → Ata → BlockOp → Ata
unfolding read_words
transfer input bus s b =
    if b.op == op_read
    then record s {
      bytes = update s.bytes b.buff (read_words (sector_size / 2) input.inw (s.bytes b.buff));
    }
    else if b.op == op_write
    then record s { discard_irq = update s.discard_irq bus 1 }
    else s

-- the start of the next request, if there is one
pub next_block : Input → (bus major : ℕ) → Ata → Res (List Action)
unfolding bop_at issue
next_block input bus major s =
    if s.blk_queue (2 * bus) == null
    then ok []
    else do n ← load s.heap (s.blk_queue (2 * bus)); b ← bop_at s n.element; issue input s major b

-- after the transfer: the request leaves the queue and is given back, and the next one is started
pub finish_block :
    ℕ → Input → (bus major event : ℕ) → (bop : Ptr) → BlockOp → Ata → Res (Ata × List Action)
unfolding next_block
finish_block k input bus major event bop b s1 = do
  let s2 : Ata = record s1 { status = update s1.status b.buff buff_st_valid }
  (_, queue, heap) ← llist_remove k s2.heap (s2.blk_queue (2 * bus)) bop
  let s3 : Ata = record s2 {
    blk_queue = update s2.blk_queue (2 * bus) queue;
    heap = heap;
    bops = update s2.bops bop none;
  }
  sent ← next_block input bus major s3
  ok (s3, sent ++ (wake event ∷ []))

-- the two handlers, with what their lines differ in: the bus, its major number and its event
pub ata_handler : ℕ → Input → (bus major event : ℕ) → Ata → Res (Ata × List Action)
unfolding bop_at transfer finish_block
ata_handler k input bus major event s =
    if s.discard_irq bus == 1
    then ok (record s { discard_irq = update s.discard_irq bus 0 }, [])
    else do
      n ← load s.heap (s.blk_queue (2 * bus))
      b ← bop_at s n.element
      finish_block k input bus major event n.element b (transfer input bus s b)

pub ata_handler1 : ℕ → Input → Ata → Res (Ata × List Action)
unfolding ata_handler
ata_handler1 k input s = ata_handler k input 0 3 14 s

pub ata_handler2 : ℕ → Input → Ata → Res (Ata × List Action)
unfolding ata_handler
ata_handler2 k input s = ata_handler k input 1 2 15 s

-- the queue for a read, and for a write; `none` for -1
pub read_queue : (major device : ℕ) → Option ℕ
read_queue major device =
    if major == 3
    then some (if ltb device 64 then 0 else 1)
    else if major == 2
    then some (if ltb device 64 then 2 else 3)
    else none

pub write_queue : (major device : ℕ) → Option ℕ
write_queue major device =
    if major == 3
    then (if device == 0 then some 0 else if device == 64 then some 1 else none)
    else if major == 2
    then (if device == 0 then some 2 else if device == 64 then some 3 else none)
    else none

-- the end of both functions: the request is added, and started if the queue was empty. The request was written to `bop`.
pub add_request :
    ℕ
    → Input
    → (fresh bop : Ptr) → (dev major : ℕ) → (started : BlockOp) → Ata
    → Res (Ata × List Action)
unfolding issue
add_request k input fresh bop dev major started s = do
  (_, queue, heap) ← llist_add k fresh s.heap (s.blk_queue dev) bop
  let s1 : Ata = record s { blk_queue = update s.blk_queue dev queue; heap = heap }
  sent ← (if s.blk_queue dev == null then issue input s1 major started else ok [])
  ok (s1, sent)

-- "First, mark block as busy" and what follows; `b` is the request as it is stored, `started` as it is started
pub enqueue :
    ℕ
    → Input
    → (fresh bop : Ptr) → (dev major : ℕ) → (b started : BlockOp) → Ata
    → Res (ℕ × Ata × List Action)
unfolding add_request
enqueue k input fresh bop dev major b started s =
    let s1 : Ata = record s { status = update s.status b.buff buff_st_busy } in
    if bop == null then ok (minus_one, s1, []) else do
      let s2 : Ata = record s1 { bops = update s1.bops bop (some b) }
      (s3, sent) ← add_request k input fresh bop dev major started s2
      ok (0, s3, sent)

pub read_async_ata_sector :
    ℕ
    → Input
    → (fresh bop : Ptr) → (major device : ℕ) → (buf : Ptr) → Ata
    → Res (ℕ × Ata × List Action)
unfolding enqueue read_queue
read_async_ata_sector k input fresh bop major device buf s =
    let b : BlockOp = record { op = op_read; device = device; buff = buf } in
    elim (read_queue major device) [
      | none ↦ ok (minus_one, s, [])
      | some dev ↦ enqueue k input fresh bop dev major b b s
    ]

-- The device is not stored: kmalloc clears the request.
pub write_async_ata_sector :
    ℕ
    → Input
    → (fresh bop : Ptr) → (major device : ℕ) → (buf : Ptr) → Ata
    → Res (ℕ × Ata × List Action)
unfolding enqueue write_queue
write_async_ata_sector k input fresh bop major device buf s =
    let b : BlockOp = record { op = op_write; device = 0; buff = buf } in
    let started : BlockOp = record { op = op_write; device = device; buff = buf } in
    elim (write_queue major device) [
      | none ↦ ok (minus_one, s, [])
      | some dev ↦ enqueue k input fresh bop dev major b started s
    ]

-- while (buf->status == BUFF_ST_BUSY) sleep_on(event); `sleep` is what happens until a call of sleep_on ends
pub wait_block :
    ℕ
    → (sleep : ℕ → Ata → Res (Ata × List Action)) → (event : ℕ) → (buf : Ptr) → Ata
    → Res (Ata × List Action)
wait_block zero sleep event buf s = out_of_fuel
wait_block (suc k) sleep event buf s =
    if s.status buf == buff_st_busy
    then (do
      (s1, sent) ← sleep event s
      (s2, rest) ← wait_block k sleep event buf s1
      ok (s2, sent ++ rest))
    else ok (s, [])

-- the end of read_sync_ata_sector and of write_sync_ata_sector
pub wait_result :
    ℕ
    → (sleep : ℕ → Ata → Res (Ata × List Action)) → (major : ℕ) → (buf : Ptr)
    → ℕ × Ata × List Action
    → Res (ℕ × Ata × List Action)
unfolding wait_block
wait_result k sleep major buf (res, s, sent) = do
  (s1, rest) ← wait_block k sleep (if major == 3 then 14 else 15) buf s
  ok (res, s1, sent ++ rest)

pub read_sync_ata_sector :
    ℕ
    → (sleep : ℕ → Ata → Res (Ata × List Action)) → Input
    → (fresh bop : Ptr) → (major device : ℕ) → (buf : Ptr) → Ata
    → Res (ℕ × Ata × List Action)
unfolding read_async_ata_sector wait_result
read_sync_ata_sector k sleep input fresh bop major device buf s =
    read_async_ata_sector k input fresh bop major device buf s >>= wait_result k sleep major buf

pub write_sync_ata_sector :
    ℕ
    → (sleep : ℕ → Ata → Res (Ata × List Action)) → Input
    → (fresh bop : Ptr) → (major device : ℕ) → (buf : Ptr) → Ata
    → Res (ℕ × Ata × List Action)
unfolding write_async_ata_sector wait_result
write_sync_ata_sector k sleep input fresh bop major device buf s =
    write_async_ata_sector k input fresh bop major device buf s >>= wait_result k sleep major buf
