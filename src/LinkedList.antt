-- ===== src/LinkedList.antt =====
-- kernel/lib/linkedl.c over an explicit heap of nodes. A function that takes `llist **list` takes the
-- head that it points to and returns the new one, beside the C result and the heap. What kmalloc
-- returns is the argument `fresh`, with NULL for a failure. An access to NULL or to memory that is
-- not allocated is a `fault`. A walk has `k` rounds.
pub mod Cells
pub mod Add
pub mod Remove
pub mod Lookup
pub mod Destroy
mod Tests
use tempos.Base.{
  ℕ, zero, suc, ◌+◌, ◌-◌, ◌%◌, ◌^◌, Option, none, some, ◌==◌, if◌then◌else◌, Res, ok, fault,
  out_of_fuel, ◌>>=◌,
}

abbrev pub Ptr : Type 0
Ptr = ℕ

-- NULL
abbrev pub null : Ptr
null = 0

-- `struct _llist`
pub record Node : Type 0 where
  pub element : Ptr
  pub next : Ptr

abbrev pub node : Ptr → Ptr → Node
node e q = record { element = e; next = q }

abbrev pub Heap : Type 0
Heap = Ptr → Option Node

unfoldable pub write : Heap → Ptr → Option Node → Heap
write h p c a = if a == p then c else h a

-- `*p`
pub load : Heap → Ptr → Res Node
load h p = if p == null then fault else elim (h p) [ none ↦ fault | some n ↦ ok n ]

-- `p->next = q`
pub set_next : Heap → Ptr → Ptr → Res Heap
unfolding load
set_next h p q = do n ← load h p; ok (write h p (some (record n { next = q })))

-- kfree: what it is given has to be allocated
pub kfree : Heap → Ptr → Res Heap
unfolding load
kfree h p = do n ← load h p; ok (write h p none)

-- the C result, the head and the heap
abbrev pub Out : Type 0
Out = Res (ℕ × Ptr × Heap)

pub llist_create : Heap → Out
llist_create h = ok (1, null, h)

-- foreach(tmp, aux) kfree(aux);
pub free_each : ℕ → Heap → Ptr → Res Heap
free_each zero h aux = out_of_fuel
free_each (suc k) h aux =
    if aux == null then ok h else do h ← kfree h aux; n ← load h aux; free_each k h n.next

pub llist_destroy : ℕ → Heap → Ptr → Out
llist_destroy k h list =
    if list == null
    then ok (1, null, h)
    else do n ← load h list; h ← free_each k h n.next; h ← kfree h n.next; ok (1, null, h)

-- for(tmp = prev = rlist; tmp != NULL; prev = tmp, tmp = tmp->next);
pub last_walk : ℕ → Heap → (prev tmp : Ptr) → Res Ptr
last_walk zero h prev tmp = out_of_fuel
last_walk (suc k) h prev tmp =
    if tmp == null then ok prev else do n ← load h tmp; last_walk k h tmp n.next

-- that walk, and what follows it
pub link_last : ℕ → Heap → (prev tmp new_node : Ptr) → Res Heap
link_last k h prev tmp new_node = do
  prev ← last_walk k h prev tmp
  if prev == null then ok h else set_next h prev new_node

pub llist_add : ℕ → (fresh : Ptr) → Heap → (list element : Ptr) → Out
llist_add k fresh h list element =
    if fresh == null
    then ok (0, list, h)
    else let h1 = write h fresh (some (node element null)) in
      if list == null
      then ok (1, fresh, h1)
      else do h2 ← link_last k h1 list list fresh; ok (1, list, h2)

-- for(tmp = prev = rlist, p = 0; tmp != NULL && p < pos; p++, prev = tmp, tmp = tmp->next);
-- with `pos - p` rounds left
pub nth_walk : Heap → (prev tmp : Ptr) → (left : ℕ) → Res (Ptr × Ptr)
nth_walk h prev tmp zero = ok (prev, tmp)
nth_walk h prev tmp (suc left) =
    if tmp == null then ok (prev, tmp) else do n ← load h tmp; nth_walk h tmp n.next left

-- `rlist->next` into `*list`, then kfree(rlist)
pub drop_first : Heap → Ptr → Out
drop_first h list = do n ← load h list; h ← kfree h list; ok (1, n.next, h)

-- prev->next = tmp->next; kfree(tmp);
pub unlink : Heap → (list prev tmp : Ptr) → Out
unlink h list prev tmp = do
  n ← load h tmp
  h ← set_next h prev n.next
  h ← kfree h tmp
  ok (1, list, h)

-- what follows the walk of `llist_remove_nth`
pub unlink_nth : Heap → Ptr → Ptr × Ptr → Out
unlink_nth h list (prev, tmp) =
    if prev == null
    then ok (0, list, h)
    else if tmp == null
    then ok (1, list, h)
    else unlink h list prev tmp

pub llist_remove_nth : Heap → (list : Ptr) → (pos : ℕ) → Out
llist_remove_nth h list pos =
    if pos == 0
    then drop_first h list
    else do found ← nth_walk h list list pos; unlink_nth h list found

-- for(tmp = prev = rlist; tmp != NULL; prev = tmp, tmp = tmp->next) if(tmp->element == element) break;
pub find_walk : ℕ → Heap → (prev tmp element : Ptr) → Res (Ptr × Ptr)
find_walk zero h prev tmp element = out_of_fuel
find_walk (suc k) h prev tmp element = if tmp == null then ok (prev, tmp) else do
  n ← load h tmp
  if n.element == element then ok (prev, tmp) else find_walk k h tmp n.next element

-- what follows the walk of `llist_remove`
pub unlink_found : Heap → Ptr → Ptr × Ptr → Out
unlink_found h list (prev, tmp) =
    if tmp == null
    then ok (0, list, h)
    else if prev == null
    then ok (0, list, h)
    else unlink h list prev tmp

pub llist_remove : ℕ → Heap → (list element : Ptr) → Out
llist_remove k h list element = if list == null then ok (0, list, h) else do
  n ← load h list
  if n.element == element
      then drop_first h list
      else do found ← find_walk k h list list element; unlink_found h list found

-- what follows the walk of `llist_nth`
pub read_element : Heap → Ptr × Ptr → Res Ptr
read_element h (_, tmp) = if tmp == null then ok null else do n ← load h tmp; ok n.element

pub llist_nth : Heap → (list : Ptr) → (index : ℕ) → Res Ptr
llist_nth h list index = do found ← nth_walk h list list index; read_element h found

-- an `int32_t` is its bit pattern
abbrev pub minus_one : ℕ
minus_one = 2 ^ 32 - 1

-- for(tmp = list, p = 0; tmp != NULL; p++, tmp = tmp->next) if(tmp->element == element) break;
pub index_walk : ℕ → Heap → (tmp element : Ptr) → (p : ℕ) → Res ℕ
index_walk zero h tmp element p = out_of_fuel
index_walk (suc k) h tmp element p = if tmp == null then ok minus_one else do
  n ← load h tmp
  if n.element == element then ok p else index_walk k h n.next element ((p + 1) % 2 ^ 32)

pub llist_index : ℕ → Heap → (list element : Ptr) → Res ℕ
llist_index k h list element =
    if list == null
    then ok minus_one
    else do n ← load h list; if n.element == element then ok 0 else index_walk k h list element 0

-- while(tmp != NULL) { size++; tmp = tmp->next; }
pub length_walk : ℕ → Heap → (tmp : Ptr) → (size : ℕ) → Res ℕ
length_walk zero h tmp size = out_of_fuel
length_walk (suc k) h tmp size =
    if tmp == null then ok size else do n ← load h tmp; length_walk k h n.next ((size + 1) % 2 ^ 32)

pub llist_length : ℕ → Heap → (list : Ptr) → Res ℕ
llist_length k h list = length_walk k h list 0
