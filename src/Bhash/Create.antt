-- ===== src/Bhash/Create.antt =====
-- create_hash_queue. `memory` and `table` are what its two calls of kmalloc return, `none` for NULL, and
-- `blocks i` is the address &hash_queue->blocks[i]. BUFF_QUEUE_SIZE is a value of
-- the configuration, and `buff_queue_size` here.
use tempos.Base.{
  append-nil, ℕ, zero, suc, ◌-◌, ◌≤◌, ◌≡◌, refl, ap, false, Option, none, some, List, [], ◌∷◌, ◌++◌,
  arith, update, Res, ok, fault, ◌>>=◌,
}
use tempos.Ring.Links.{mem, mem-append}
use tempos.Ring.Edit.{Ring-back}
use tempos.Bhash.{Ptr, null, st_head, Queue, set_slot, put_back}
use tempos.Bhash.Free.{FreeList}

abbrev ht_entries : ℕ
ht_entries = 4

-- memset(hash_queue, 0, sizeof(buff_hashq_t))
abbrev zeroed : Queue
zeroed = record {
  hashtable = none;
  head = null;
  addr = λ p. 0;
  device = λ p. 0;
  status = λ p. 0;
  prev = λ p. null;
  next = λ p. null;
  free_prev = λ p. null;
  free_next = λ p. null;
}

-- hash_queue->hashtable[i] = NULL for `n` indices from `i` on
clear_slots : (n i : ℕ) → Queue → Res Queue
clear_slots zero i q = ok q
clear_slots (suc n) i q = do q' ← set_slot q i null; clear_slots n (suc i) q'

-- the free list with its head alone
abbrev init_head : (blocks : ℕ → Ptr) → Queue → Queue
init_head blocks q =
    let head = blocks 0 in
    record q {
      free_prev = update q.free_prev head head;
      free_next = update q.free_next head head;
      status = update q.status head st_head;
      head = head;
    }

-- the loop over `n` blocks from the index `i` on
link_blocks : (n i : ℕ) → (blocks : ℕ → Ptr) → Queue → (prev : Ptr) → Queue
link_blocks zero i blocks q prev = q
link_blocks (suc n) i blocks q prev =
    let nblock = blocks i in
    link_blocks n (suc i) blocks
      (record q {
        free_prev = update (update q.free_prev nblock prev) q.head nblock;
        free_next = update (update q.free_next nblock q.head) prev nblock;
      })
      nblock

-- what follows the hash table
pub init_freelist : (buff_queue_size : ℕ) → (blocks : ℕ → Ptr) → Queue → Queue
init_freelist buff_queue_size blocks q =
    link_blocks (buff_queue_size - 1) 1 blocks (init_head blocks q) (blocks 0)

pub create_hash_queue :
    (buff_queue_size : ℕ)
    → (memory : Option Queue) → (table : Option (ℕ → Ptr)) → (blocks : ℕ → Ptr) → Res (Option Queue)
create_hash_queue buff_queue_size none table blocks = ok none
create_hash_queue buff_queue_size (some q) none blocks = ok none
create_hash_queue buff_queue_size (some q) (some t) blocks = do
  q1 ← clear_slots ht_entries 0 zeroed
  ok (some (init_freelist buff_queue_size blocks q1))

-- the addresses of `n` blocks from the index `i` on
abbrev pub block_list : (n i : ℕ) → (blocks : ℕ → Ptr) → List Ptr
block_list zero i blocks = []
block_list (suc n) i blocks = blocks i ∷ block_list n (suc i) blocks

append-one : (b : Ptr) (ps qs : List Ptr) → (ps ++ (b ∷ [])) ++ qs ≡ ps ++ (b ∷ qs)
append-one b [] qs = refl
append-one b (p ∷ ps) qs = ap (λ r. p ∷ r) (append-one b ps qs)

link_blocks-head :
    (n i : ℕ) (blocks : ℕ → Ptr) (q : Queue) (prev : Ptr)
    → let q' = link_blocks n i blocks q prev in (q'.head ≡ q.head) × (q'.status ≡ q.status)
unfolding link_blocks
link_blocks-head zero i blocks q prev = (refl, refl)
link_blocks-head (suc n) i blocks q prev =
    let nblock = blocks i in
    link_blocks-head n (suc i) blocks
      (record q {
        free_prev = update (update q.free_prev nblock prev) q.head nblock;
        free_next = update (update q.free_next nblock q.head) prev nblock;
      })
      nblock

module _ (blocks : ℕ → Ptr) (inj : (i j : ℕ) → blocks i ≡ blocks j → i ≡ j) where
  link_blocks-FreeList :
      (n i : ℕ) (q : Queue) (ps : List Ptr)
      → FreeList q ps
      → ((j : ℕ) → i ≤ j → mem (blocks j) (q.head ∷ ps) ≡ false)
      → FreeList (link_blocks n i blocks q (q.free_prev q.head)) (ps ++ block_list n i blocks)
  unfolding link_blocks
  link_blocks-FreeList zero i q ps l new = rw (append-nil ps) l
  link_blocks-FreeList (suc n) i q ps l new =
      let b = blocks i in
      let q' = put_back q b in
      let l' : FreeList q' (ps ++ (b ∷ [])) =
        Ring-back q.free_next q.free_prev q.head b ps l (new i (omega arith)) in
      let last : q'.free_prev q'.head ≡ b = ground arith in
      let rest =
        link_blocks-FreeList n (suc i) q' (ps ++ (b ∷ [])) l' (λ j le.
          ground (arith, new j (omega arith), mem-append (blocks j) ps (b ∷ []), inj j i)) in
      rw (last, append-one b ps (block_list n (suc i) blocks)) at rest

  -- The free list that `create_hash_queue` builds holds the blocks from 1 on, each once, in their order;
  -- the block 0 is its head and has the status BUFF_ST_HEAD.
  pub init_freelist-FreeList :
      (n : ℕ) (q : Queue)
      → let q' = init_freelist n blocks q in
        FreeList q' (block_list (n - 1) 1 blocks)
        × (q'.head ≡ blocks 0)
        × (q'.status (blocks 0) ≡ st_head)
  unfolding init_freelist
  init_freelist-FreeList n q =
      let q0 = init_head blocks q in
      let (h, s) = link_blocks-head (n - 1) 1 blocks q0 (blocks 0) in
      let start : q0.free_prev q0.head ≡ blocks 0 = ground arith in
      let l =
        link_blocks-FreeList (n - 1) 1 q0 [] (ground arith) (λ j le. ground (arith, inj j 0)) in
      (rw start at l, h, rw s (ground arith))

-- With memory for the queue and for the hash table, `create_hash_queue` writes through a NULL pointer:
-- the memset clears the pointer to the table before the loop uses it. With no memory it returns NULL.
pub create_hash_queue-fault :
    (n : ℕ) (q : Queue) (t : ℕ → Ptr) (blocks : ℕ → Ptr)
    → (create_hash_queue n (some q) (some t) blocks ≡ fault)
      × (create_hash_queue n (some q) none blocks ≡ ok none)
      × (create_hash_queue n none (some t) blocks ≡ ok none)
unfolding create_hash_queue clear_slots set_slot
create_hash_queue-fault n q t blocks = (refl, refl, refl)
