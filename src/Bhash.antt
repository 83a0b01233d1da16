-- ===== src/Bhash.antt =====
-- The cache of disk blocks, kernel/fs/bhash.c, over one buffer queue: what `driver->buffer_queue` is for
-- the driver with the major number at hand. The fields of `struct _buffer_header_t` are functions of
-- the buffer's address; NULL is 0. cli and sti bracket what is one step here.
pub mod Free
pub mod Create
mod Tests
use tempos.Base.{
  ℕ, zero, suc, ◌+◌, ◌-◌, ◌%◌, Bool, true, false, ◌&&◌, not, Option, none, some, List, [], ◌∷◌,
  ◌==◌, if◌then◌else◌, update, Res, ok, fault, out_of_fuel, ◌>>=◌,
}

abbrev pub Ptr : Type 0
Ptr = ℕ

abbrev pub null : Ptr
null = 0

abbrev pub st_unlocked : ℕ
st_unlocked = 0x01

abbrev pub st_valid : ℕ
st_valid = 0x02

abbrev pub st_flush : ℕ
st_flush = 0x04

abbrev pub st_busy : ℕ
st_busy = 0x08

abbrev pub st_head : ℕ
st_head = 0x40

-- `struct _buff_hash_queue_t` with its buffers; `hashtable` is `none` for a NULL pointer
pub record Queue : Type 0 where
  pub hashtable : Option (ℕ → Ptr)
  pub head : Ptr
  pub addr : Ptr → ℕ
  pub device : Ptr → ℕ
  pub status : Ptr → ℕ
  pub prev : Ptr → Ptr
  pub next : Ptr → Ptr
  pub free_prev : Ptr → Ptr
  pub free_next : Ptr → Ptr

-- `queue->hashtable[pos]`
pub slot : Queue → ℕ → Res Ptr
slot q pos = elim q.hashtable [ none ↦ fault | some t ↦ ok (t pos) ]

pub set_slot : Queue → ℕ → Ptr → Res Queue
set_slot q pos p = elim q.hashtable [
  | none ↦ fault
  | some t ↦ ok (record q { hashtable = some (update t pos p) })
]

-- `p->next = v` and `p->prev = v`
pub set_next : Queue → Ptr → Ptr → Res Queue
set_next q p v = if p == null then fault else ok (record q { next = update q.next p v })

pub set_prev : Queue → Ptr → Ptr → Res Queue
set_prev q p v = if p == null then fault else ok (record q { prev = update q.prev p v })

abbrev pub set_status : Queue → Ptr → ℕ → Queue
set_status q p s = record q { status = update q.status p s }

-- `p->addr == blocknum && p->device == device`
abbrev pub is_block : Queue → (device blocknum : ℕ) → Ptr → Bool
is_block q device blocknum p = q.addr p == blocknum && q.device p == device

pub search_walk : ℕ → Queue → (device blocknum : ℕ) → Ptr → Res Ptr
search_walk zero q device blocknum tmp = out_of_fuel
search_walk (suc k) q device blocknum tmp =
    let rest = search_walk k q device blocknum (q.next tmp) in
    if tmp == null then ok null else if is_block q device blocknum tmp then ok tmp else rest

pub search_blk : ℕ → Queue → (device blocknum : ℕ) → Res Ptr
search_blk k q device blocknum = do
  head ← slot q (blocknum % 4)
  if head == null then ok null else search_walk k q device blocknum head

-- the walks over the free list, from `tmp` back to the head
pub free_walk : ℕ → Queue → (device blocknum : ℕ) → Ptr → Res Ptr
free_walk zero q device blocknum tmp = out_of_fuel
free_walk (suc k) q device blocknum tmp =
    let rest = free_walk k q device blocknum (q.free_next tmp) in
    if tmp == q.head then ok tmp else if is_block q device blocknum tmp then ok tmp else rest

pub blk_remove_from_freelist : ℕ → Queue → (device blocknum : ℕ) → Res Queue
blk_remove_from_freelist k q device blocknum = do
  tmp ← free_walk k q device blocknum (q.free_next q.head)
  if tmp == q.head then ok q else do
    let prev = q.free_prev tmp
    let next = q.free_next tmp
    q1 ← set_prev q next prev
    set_next q1 prev next

-- the unlinking in `get_free_blk`
abbrev pub take_free : Queue → Ptr → Queue
take_free q tmp =
    let prev = q.free_prev tmp in
    let next = q.free_next tmp in
    record q { free_next = update q.free_next prev next; free_prev = update q.free_prev next prev }

pub get_free_blk : ℕ → Queue → (device blocknum : ℕ) → Res (Ptr × Queue)
get_free_blk k q device blocknum =
    let first = q.free_next q.head in
    if first == q.head then ok (null, q) else do
      found ← free_walk k q device blocknum first
      let tmp = if found == q.head then first else found
      ok (tmp, take_free q tmp)

-- the loop that takes the buffer out of its old chain
pub unlink_walk : ℕ → Queue → (device : ℕ) → (buff tmp : Ptr) → Res Queue
unlink_walk zero q device buff tmp = out_of_fuel
unlink_walk (suc k) q device buff tmp = if q.next tmp == null then ok q else do
  q' ←
      if is_block q device (q.addr buff) tmp
      then (do q1 ← set_prev q (q.next tmp) (q.prev tmp); set_next q1 (q.prev tmp) (q.next tmp))
      else ok q
  unlink_walk k q' device buff (q'.next tmp)

-- "Remove from old hash queue"
pub leave_chain : ℕ → Queue → Ptr → (device : ℕ) → Res Queue
leave_chain k q buff device = do
  head ← slot q (q.addr buff % 4)
  if head == null then ok q else do
    found ← search_blk k q device (q.addr buff)
    if found == null
        then ok q
        else if q.next head == null
        then set_slot q (q.addr buff % 4) null
        else unlink_walk k q device buff head

-- while(tmp->next != NULL) tmp = tmp->next;
pub tail_walk : ℕ → Queue → Ptr → Res Ptr
tail_walk zero q tmp = out_of_fuel
tail_walk (suc k) q tmp =
    let rest = tail_walk k q (q.next tmp) in if q.next tmp == null then ok tmp else rest

-- "Add to new hash queue"
pub enter_chain : ℕ → Queue → Ptr → (device blocknum : ℕ) → Res Queue
enter_chain k q0 buff device blocknum = do
  head ← slot q0 (blocknum % 4)
  let q : Queue = record q0 {
    addr = update q0.addr buff blocknum;
    device = update q0.device buff device;
  }
  if head == null
      then (do
        q1 ← set_next q buff null
        q2 ← set_prev q1 buff buff
        set_slot q2 (blocknum % 4) buff)
      else if q.next head == null
      then (do
        q1 ← set_next q head buff
        q2 ← set_prev q1 head null
        q3 ← set_next q2 buff null
        set_prev q3 buff head)
      else (do
        tmp ← tail_walk k q head
        q1 ← set_prev q buff tmp
        q2 ← set_next q1 buff null
        set_next q2 tmp buff)

pub add_to_buff_queue : ℕ → Queue → Ptr → (device blocknum : ℕ) → Res Queue
add_to_buff_queue k q buff device blocknum = do
  q' ← leave_chain k q buff device
  enter_chain k q' buff device blocknum

-- How a round of `getblk` ends: with a buffer, with a call of sleep_on, or with a call of the driver's
-- write_async_block for a buffer; after the last two the loop goes on.
pub data Round : Type 0 where
  got : Ptr → Round
  asleep : ℕ → Round
  flushed : Ptr → Round

-- WAIT_THIS_BLOCK_BUFFER_GET_FREE and WAIT_BLOCK_BUFFER_GET_FREE
abbrev pub wait_this_block : ℕ
wait_this_block = 1

abbrev pub wait_any_block : ℕ
wait_any_block = 2

pub getblk_cached : ℕ → Queue → Ptr → (device blocknum : ℕ) → Res (Round × Queue)
getblk_cached k q buff device blocknum =
    if q.status buff == st_busy then ok (asleep wait_this_block, q) else do
      q' ← blk_remove_from_freelist k (set_status q buff st_busy) device blocknum
      ok (got buff, q')

pub getblk_free : ℕ → Queue → (device blocknum : ℕ) → Res (Round × Queue)
getblk_free k q device blocknum = do
  (buff, q1) ← get_free_blk k q device blocknum
  if buff == null
      then ok (asleep wait_any_block, q1)
      else if q1.status buff == st_flush
      then ok (flushed buff, q1)
      else (do q2 ← add_to_buff_queue k q1 buff device blocknum; ok (got buff, q2))

pub getblk_round : ℕ → Queue → (device blocknum : ℕ) → Res (Round × Queue)
getblk_round k q device blocknum = do
  buff ← search_blk k q device blocknum
  if buff == null then getblk_free k q device blocknum else getblk_cached k q buff device blocknum

-- What is behind the function pointers of the driver, and what happens to the queue while a process
-- sleeps.
pub record World : Type 0 where
  pub read_sync_block : (device : ℕ) → Ptr → Queue → Queue
  pub read_async_block : (device : ℕ) → Ptr → Queue → Queue
  pub write_sync_block : (device : ℕ) → Ptr → Queue → ℕ × Queue
  pub write_async_block : (device : ℕ) → Ptr → Queue → ℕ × Queue
  pub sleep_on : ℕ → Queue → Queue

-- `while(1)` with `n` rounds; a driver that is not there is `none`
pub getblk_loop : (n k : ℕ) → World → Queue → (device blocknum : ℕ) → Res (Ptr × Queue)
getblk_loop zero k w q device blocknum = out_of_fuel
getblk_loop (suc n) k w q device blocknum = do
  (r, q') ← getblk_round k q device blocknum
  elim r [
    | got p ↦ ok (p, q')
    | asleep a ↦ getblk_loop n k w (w.sleep_on a q') device blocknum
    | flushed p ↦ getblk_loop n k w (w.write_async_block device p q').1 device blocknum
  ]

-- "enqueue buffer at beginning of free list"
abbrev pub put_front : Queue → Ptr → Queue
put_front q buff =
    let tmp = q.free_next q.head in
    record q {
      free_next = update (update q.free_next buff tmp) q.head buff;
      free_prev = update (update q.free_prev buff q.head) tmp buff;
    }

-- "enqueue buffer at end of free list"
abbrev pub put_back : Queue → Ptr → Queue
put_back q buff =
    let tmp = q.free_prev q.head in
    record q {
      free_next = update (update q.free_next buff q.head) tmp buff;
      free_prev = update (update q.free_prev buff tmp) q.head buff;
    }

-- `brelse` for a driver that is there, after its two calls of wakeup
pub brelse : Queue → Ptr → Queue
brelse q buff =
    set_status (if q.status buff == st_valid then put_back q buff else put_front q buff) buff
      st_unlocked

pub bread : (n k : ℕ) → World → Queue → (device blocknum : ℕ) → Res (Ptr × Queue)
bread n k w q device blocknum = do
  (buff, q1) ← getblk_loop n k w q device blocknum
  if buff == null then ok (null, q1) else (do
    let q2 = if q1.status buff == st_busy then set_status q1 buff st_valid else q1
    ok (buff, if q2.status buff == st_valid then q2 else w.read_sync_block device buff q2))

-- the second block of `breada`
pub read_ahead : (n k : ℕ) → World → Queue → (device blocknum : ℕ) → Res (Ptr × Queue)
read_ahead n k w q device blocknum = do
  (buff, q1) ← getblk_loop n k w q device blocknum
  if buff == null then ok (null, q1) else (do
    let q2 = if q1.status buff == st_busy then set_status q1 buff st_valid else q1
    ok (
      null,
      if q2.status buff == st_valid then brelse q2 buff else w.read_async_block device buff q2,
    ))

pub breada : (n k : ℕ) → World → Queue → (device block1 block2 : ℕ) → Res (Ptr × Queue)
breada n k w q device block1 block2 = do
  (_, q1) ← bread n k w q device block1
  read_ahead n k w q1 device block2

-- `bwrite`; its types are BWRITE_SYNC, BWRITE_ASYNC and BWRITE_DELAYED
pub bwrite : World → Queue → (device : ℕ) → Ptr → (type : ℕ) → ℕ × Queue
bwrite w q device buff type =
    if buff == null
    then (0, q)
    else if type == 3
    then (1, put_front (set_status q buff st_flush) buff)
    else if type == 1
    then w.write_sync_block device buff q
    else if type == 2
    then w.write_async_block device buff q
    else (0, q)
