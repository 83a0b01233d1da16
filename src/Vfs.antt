-- ===== src/Vfs.antt =====
-- kernel/fs/vfs.c: the table of i-nodes and its free list, and the map from offsets to blocks (in Bmap). The fields of
-- `struct _vfs_inode_st` are functions of the i-node's address; NULL is 0, and a device is one number for its major
-- and its minor number. What a file system and the scheduler do is a `World`.
pub mod FreeInodes
pub mod Table
pub mod Iget
pub mod Collision
pub mod Register
pub mod Bmap
mod Tests
use tempos.Base.{
  ℕ, zero, suc, ◌+◌, ◌%◌, Bool, true, false, ◌==◌, ltb, if◌then◌else◌, update, Res, ok, fault,
  out_of_fuel, ◌>>=◌, Option, none, some,
}
use tempos.Locks.{mutex_is_locked}

abbrev pub Ptr : Type 0
Ptr = ℕ

abbrev pub null : Ptr
null = 0

-- INODE_HASH_TABLE_SIZE, which is VFS_MAX_OPEN_FILES
abbrev pub inode_hash_table_size : ℕ
inode_hash_table_size = 4000

abbrev pub iflag_list_head : ℕ
iflag_list_head = 0x02

-- WAIT_INODE_BECOMES_UNLOCKED
abbrev pub wait_inode_becomes_unlocked : ℕ
wait_inode_becomes_unlocked = 3

pub record Inodes : Type 0 where
  pub inode_hash_table : ℕ → Ptr
  pub free_inodes_head : Ptr
  pub device : Ptr → ℕ
  pub flags : Ptr → ℕ
  pub reference : Ptr → ℕ
  pub number : Ptr → ℕ
  pub lock : Ptr → ℕ
  pub sb : Ptr → Ptr
  pub prev : Ptr → Ptr
  pub next : Ptr → Ptr
  pub free_next : Ptr → Ptr
  pub free_prev : Ptr → Ptr

-- p->next = v and p->prev = v
pub set_next : Inodes → Ptr → Ptr → Res Inodes
set_next q p v = if p == null then fault else ok (record q { next = update q.next p v })

pub set_prev : Inodes → Ptr → Ptr → Res Inodes
set_prev q p v = if p == null then fault else ok (record q { prev = update q.prev p v })

abbrev pub set_slot : Inodes → ℕ → Ptr → Inodes
set_slot q pos p = record q { inode_hash_table = update q.inode_hash_table pos p }

-- while (tmp != NULL) { if (DEV_CMP(tmp->device, device)) break; tmp = tmp->next; }
pub search_walk : ℕ → Inodes → (device : ℕ) → Ptr → Res Ptr
search_walk zero q device tmp = out_of_fuel
search_walk (suc k) q device tmp =
    let rest = search_walk k q device (q.next tmp) in
    if tmp == null then ok tmp else if q.device tmp == device then ok tmp else rest

pub search_inode : ℕ → Inodes → (device number : ℕ) → Res Ptr
search_inode k q device number =
    let head = q.inode_hash_table (number % inode_hash_table_size) in
    if head == null then ok null else search_walk k q device head

-- while (tmp != head) { if (DEV_CMP(tmp->device, device)) break; tmp = tmp->free_next; }
pub free_walk : ℕ → Inodes → (device : ℕ) → Ptr → Res Ptr
free_walk zero q device tmp = out_of_fuel
free_walk (suc k) q device tmp =
    let rest = free_walk k q device (q.free_next tmp) in
    if tmp == q.free_inodes_head then ok tmp else if q.device tmp == device then ok tmp else rest

pub inode_remove_from_freelist : ℕ → Inodes → (inode : Ptr) → Res Inodes
inode_remove_from_freelist k q inode = do
  tmp ← free_walk k q (q.device inode) (q.free_next q.free_inodes_head)
  if tmp == q.free_inodes_head then ok q else do
    let prev = q.free_prev tmp
    let next = q.free_next tmp
    q1 ← set_prev q next prev
    set_next q1 prev next

-- What the table calls: the file system's `get_inode`, and sleep_on.
pub record World : Type 0 where
  pub get_inode : Inodes → Ptr → Inodes
  pub sleep_on : ℕ → Inodes → Inodes

-- the i-node `tmp` taken from the free list
abbrev pub take_free : Inodes → Ptr → Inodes
take_free q tmp =
    let prev = q.free_prev tmp in
    let next = q.free_next tmp in
    record q { free_next = update q.free_next prev next; free_prev = update q.free_prev next prev }

-- "Initialize i-node"
abbrev pub initialize : Inodes → (tmp sb device number : ℕ) → Inodes
initialize q tmp sb device number = record q {
  device = update q.device tmp device;
  sb = update q.sb tmp sb;
  number = update q.number tmp number;
  reference = update q.reference tmp 1;
}

-- `none` where the kernel panics
pub get_free_inode : ℕ → World → Inodes → (sb device number : ℕ) → Res (Option (Ptr × Inodes))
get_free_inode k w q sb device number =
    let first = q.free_next q.free_inodes_head in
    if first == q.free_inodes_head then ok none else do
      found ← free_walk k q device first
      let tmp = if found == q.free_inodes_head then first else found
      ok (some (tmp, w.get_inode (initialize (take_free q tmp) tmp sb device number) tmp))

-- next is NULL for the last i-node of a queue, and the loop ends before it
pub unlink_walk : ℕ → Inodes → (device : ℕ) → (tmp : Ptr) → Res Inodes
unlink_walk zero q device tmp = out_of_fuel
unlink_walk (suc k) q device tmp = if q.next tmp == null then ok q else do
  q' ←
      if q.device tmp == device
      then (do q1 ← set_prev q (q.next tmp) (q.prev tmp); set_next q1 (q.prev tmp) (q.next tmp))
      else ok q
  unlink_walk k q' device (q'.next tmp)

-- "Search and remove from hash queue"
pub leave_queue : ℕ → Inodes → (inode : Ptr) → Res Inodes
leave_queue k q inode =
    let pos = q.number inode % inode_hash_table_size in
    let head = q.inode_hash_table pos in
    if head == null
    then ok q
    else if q.next head == null
    then ok (set_slot q pos null)
    else unlink_walk k q (q.device inode) head

-- while(tmp->next != NULL) tmp = tmp->next;
pub tail_walk : ℕ → Inodes → Ptr → Res Ptr
tail_walk zero q tmp = out_of_fuel
tail_walk (suc k) q tmp =
    let rest = tail_walk k q (q.next tmp) in if q.next tmp == null then ok tmp else rest

-- "Add to new hash queue"
pub enter_queue : ℕ → Inodes → (inode : Ptr) → Res Inodes
enter_queue k q inode =
    let pos = q.number inode % inode_hash_table_size in
    let head = q.inode_hash_table pos in
    if head == null
    then (do q1 ← set_next q inode null; q2 ← set_prev q1 inode null; ok (set_slot q2 pos inode))
    else if q.next head == null
    then (do
      q1 ← set_next q head inode
      q2 ← set_prev q1 head null
      q3 ← set_next q2 inode null
      set_prev q3 inode head)
    else (do
      tmp ← tail_walk k q head
      q1 ← set_prev q inode tmp
      q2 ← set_next q1 inode null
      set_next q2 tmp inode)

pub add_inode_htable : ℕ → Inodes → (inode : Ptr) → Res Inodes
add_inode_htable k q inode = do q ← leave_queue k q inode; enter_queue k q inode

-- the i-node that get_free_inode gave, into the table
pub enter_new : ℕ → Option (Ptr × Inodes) → Res (Option (Ptr × Inodes))
enter_new k none = ok none
enter_new k (some (inode, q)) = do q ← add_inode_htable k q inode; ok (some (inode, q))

-- `n` rounds for the loop of vfs_iget and `k` for each walk; `none` where the kernel panics
pub vfs_iget : (n k : ℕ) → World → Inodes → (sb device number : ℕ) → Res (Option (Ptr × Inodes))
unfolding mutex_is_locked
vfs_iget zero k w q sb device number = out_of_fuel
vfs_iget (suc n) k w q sb device number = do
  inode ← search_inode k q device number
  if inode == null
      then (do got ← get_free_inode k w q sb device number; enter_new k got)
      else if ltb 0 (mutex_is_locked (q.lock inode))
      then vfs_iget n k w (w.sleep_on wait_inode_becomes_unlocked q) sb device number
      else (do q ← inode_remove_from_freelist k q inode; ok (some (inode, q)))
