-- ===== src/CircularList.antt =====
-- kernel/lib/clinkedl.c over explicit memory. A function that takes `c_llist **list` takes the head
-- that it points to and returns the new one, beside the C result and the memory. What kmalloc returns is
-- the argument `fresh`, with NULL for a failure. An access to memory that is not allocated is a `fault`.
-- A walk has `k` rounds.
pub mod Rings
pub mod Lookup
pub mod Edit
pub mod RemoveNth
pub mod Destroy
pub mod Remove
mod Tests
use tempos.Base.{
  ℕ, zero, suc, ◌+◌, ◌-◌, ◌%◌, ◌^◌, Bool, true, false, ◌==◌, if◌then◌else◌, update, Res, ok, fault,
  out_of_fuel, ◌>>=◌,
}

abbrev pub Ptr : Type 0
Ptr = ℕ

abbrev pub null : Ptr
null = 0

-- the fields of each `struct _c_llist`, and what is allocated
pub record Memory : Type 0 where
  pub element : Ptr → Ptr
  pub prev : Ptr → Ptr
  pub next : Ptr → Ptr
  pub live : Ptr → Bool

-- the C result, the head and the memory
abbrev pub Out : Type 0
Out = Res (ℕ × Ptr × Memory)

-- what is read at an address
abbrev pub read {ℓ} : {A : Type ℓ} → Memory → (Ptr → A) → Ptr → Res A
read h field p = if h.live p then ok (field p) else fault

pub set_next : Memory → Ptr → Ptr → Res Memory
set_next h p v = if h.live p then ok (record h { next = update h.next p v }) else fault

pub set_prev : Memory → Ptr → Ptr → Res Memory
set_prev h p v = if h.live p then ok (record h { prev = update h.prev p v }) else fault

pub kfree : Memory → Ptr → Res Memory
kfree h p = if h.live p then ok (record h { live = update h.live p false }) else fault

pub c_llist_create : Memory → Out
c_llist_create h = ok (1, null, h)

-- while(tmp != NULL) { aux = tmp->next; kfree(tmp); tmp = aux; }
pub free_walk : ℕ → Memory → Ptr → Res Memory
free_walk zero h tmp = out_of_fuel
free_walk (suc k) h tmp =
    if tmp == null then ok h else do aux ← read h h.next tmp; h1 ← kfree h tmp; free_walk k h1 aux

pub c_llist_destroy : ℕ → Memory → Ptr → Out
c_llist_destroy k h head = if head == null then ok (1, head, h) else do
  aux ← read h h.prev head
  h1 ← set_next h aux null
  h2 ← free_walk k h1 head
  ok (1, head, h2)

-- the new node, as kmalloc gave it and with its element
abbrev pub new_node : Memory → (fresh element : Ptr) → Memory
new_node h fresh element = record h {
  element = update h.element fresh element;
  live = update h.live fresh true;
}

-- "First element"
pub add_first : Memory → Ptr → Out
add_first h node = do h1 ← set_next h node node; h2 ← set_prev h1 node node; ok (1, node, h2)

-- "Add to the end"
pub add_last : Memory → (head node : Ptr) → Out
add_last h head node = do
  last ← read h h.prev head
  h1 ← set_next h last node
  h2 ← set_next h1 node head
  h3 ← set_prev h2 node last
  h4 ← set_prev h3 head node
  ok (1, head, h4)

pub c_llist_add : (fresh : Ptr) → Memory → (list element : Ptr) → Out
c_llist_add fresh h head element =
    if fresh == null
    then ok (0, head, h)
    else let h1 = new_node h fresh element in
      if head == null then add_first h1 fresh else add_last h1 head fresh

-- aux1 = tmp->next; aux2 = tmp->prev; aux1->prev = aux2; aux2->next = aux1; with `aux1` as the answer
pub unlink : Memory → Ptr → Res (Ptr × Memory)
unlink h tmp = do
  aux1 ← read h h.next tmp
  aux2 ← read h h.prev tmp
  h1 ← set_prev h aux1 aux2
  h2 ← set_next h1 aux2 aux1
  ok (aux1, h2)

-- unlink, kfree and the answer 1 with the old head
pub drop_node : Memory → (head tmp : Ptr) → Out
drop_node h head tmp = do (_, h1) ← unlink h tmp; h2 ← kfree h1 tmp; ok (1, head, h2)

-- the walk to a position: tmp != head && p < pos, with `pos - p` rounds left
pub nth_walk : Memory → (head tmp : Ptr) → (left : ℕ) → Res (Ptr × ℕ)
nth_walk h head tmp zero = ok (tmp, zero)
nth_walk h head tmp (suc left) =
    if tmp == head then ok (tmp, suc left) else do n ← read h h.next tmp; nth_walk h head n left

pub c_llist_remove_nth : Memory → (list : Ptr) → (pos : ℕ) → Out
c_llist_remove_nth h head pos =
    if head == null
    then ok (0, head, h)
    else if pos == 0
    then (do (aux1, h1) ← unlink h head; ok (1, aux1, h1))
    else (do
      n ← read h h.next head
      (behind, _) ← nth_walk h head n pos
      tmp ← read h h.prev behind
      if tmp == head then ok (0, head, h) else drop_node h head tmp)

-- for(tmp = head->next; tmp != head; tmp = tmp->next) if(tmp->element == element) break;
pub find_walk : ℕ → Memory → (head tmp element : Ptr) → Res Ptr
find_walk zero h head tmp element = out_of_fuel
find_walk (suc k) h head tmp element = if tmp == head then ok tmp else do
  e ← read h h.element tmp
  if e == element then ok tmp else do n ← read h h.next tmp; find_walk k h head n element

pub c_llist_remove : ℕ → Memory → (list element : Ptr) → Out
c_llist_remove k h head element = if head == null then ok (0, head, h) else do
  e ← read h h.element head
  if e == element
      then (do (aux1, h1) ← unlink h head; h2 ← kfree h1 head; ok (1, aux1, h2))
      else (do
        n ← read h h.next head
        tmp ← find_walk k h head n element
        if tmp == head then ok (0, head, h) else drop_node h head tmp)

pub c_llist_nth : Memory → (list : Ptr) → (index : ℕ) → Res Ptr
c_llist_nth h head index =
    if head == null then ok null else if index == 0 then read h h.element head else (do
      n ← read h h.next head
      (tmp, left) ← nth_walk h head n index
      if left == 0 then read h h.element tmp else ok null)

-- an `int32_t` is its bit pattern
abbrev pub minus_one : ℕ
minus_one = 2 ^ 32 - 1

pub index_walk : ℕ → Memory → (list tmp element : Ptr) → (p : ℕ) → Res ℕ
index_walk zero h list tmp element p = out_of_fuel
index_walk (suc k) h list tmp element p = if tmp == list then ok minus_one else do
  e ← read h h.element tmp
  if e == element
      then ok p
      else do n ← read h h.next tmp; index_walk k h list n element ((p + 1) % 2 ^ 32)

pub c_llist_index : ℕ → Memory → (list element : Ptr) → Res ℕ
c_llist_index k h list element = if list == null then ok minus_one else do
  e ← read h h.element list
  if e == element then ok 0 else do n ← read h h.next list; index_walk k h list n element 1

pub length_walk : ℕ → Memory → (head tmp : Ptr) → (size : ℕ) → Res ℕ
length_walk zero h head tmp size = out_of_fuel
length_walk (suc k) h head tmp size =
    if tmp == head
    then ok size
    else do n ← read h h.next tmp; length_walk k h head n ((size + 1) % 2 ^ 32)

pub c_llist_length : ℕ → Memory → (list : Ptr) → Res ℕ
c_llist_length k h head =
    if head == null then ok 0 else do n ← read h h.next head; length_walk k h head n 1
