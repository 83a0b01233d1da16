-- ===== src/Irq.antt =====
-- kernel/arch/x86/kernel/irq.c: the queues of interrupt handlers. A handler is an address; its fields are functions of the
-- address, and its queue is a list over the heap of nodes. What kmalloc returns for the handler and for the
-- node are arguments.
pub mod Request
pub mod Dispatch
mod Tests
use tempos.Base.{
  Option, none, some, ℕ, zero, suc, ◌+◌, ◌-◌, ◌%◌, ◌^◌, Bool, true, false, ◌==◌, ltb, if◌then◌else◌,
  update, List, [], ◌∷◌, ◌++◌, Res, ok, fault, out_of_fuel, ◌>>=◌,
}
use tempos.LinkedList.{Ptr, null, Heap, load, llist_add}

abbrev pub n_irq : ℕ
n_irq = 16

-- irq_list, by the number of the interrupt; `shared` is SA_SHIRQ in its flags
pub record Irqs : Type 0 where
  pub queue : ℕ → Ptr
  pub shared : ℕ → Bool
  pub heap : Heap
  -- the id of each handler
  pub id : Ptr → ℕ
  pub code : Ptr → ℕ

-- the loop of init_IRQ over the numbers below `n`
pub init_loop : (n : ℕ) → Irqs → Irqs
init_loop zero s = s
init_loop (suc n) s =
    let s1 = init_loop n s in
    record s1 { queue = update s1.queue n null; shared = update s1.shared n true }

pub init_irq : Irqs → Irqs
unfolding init_loop
init_irq s = init_loop n_irq s

-- while(tmp->next != NULL) tmp = tmp->next;
pub last_node : ℕ → Heap → (tmp : Ptr) → Res Ptr
last_node zero h tmp = out_of_fuel
last_node (suc k) h tmp = do n ← load h tmp; if n.next == null then ok tmp else last_node k h n.next

-- "Generate a ID", where the queue has a first node; `none` where the last handler is NULL
pub last_id : ℕ → Irqs → (tmp : Ptr) → Res (Option ℕ)
unfolding last_node
last_id k s tmp = do
  tmp ← last_node k s.heap tmp
  n ← load s.heap tmp
  ok (if n.element == null then none else some ((s.id n.element + 1) % 2 ^ 32))

pub new_id : ℕ → Irqs → (irq : ℕ) → Res (Option ℕ)
new_id k s irq = if s.queue irq == null then ok (some 1) else last_id k s (s.queue irq)

-- "Install handler", with the id if there is one; an `int` is its bit pattern
pub install_handler : ℕ → (newh fresh : Ptr) → Irqs → (irq : ℕ) → Option ℕ → Res (ℕ × Irqs)
install_handler k newh fresh s irq none = ok (2 ^ 32 - 1, s)
install_handler k newh fresh s irq (some id) = do
  (_, queue, heap) ← llist_add k fresh s.heap (s.queue irq) newh
  ok (1, record s { id = update s.id newh id; queue = update s.queue irq queue; heap = heap })

-- from "Create newh" on; the name of the handler is left out
pub create_handler : ℕ → (newh fresh : Ptr) → Irqs → (irq handler : ℕ) → Res (ℕ × Irqs)
create_handler k newh fresh s irq handler = if newh == null then ok (2 ^ 32 - 1, s) else do
  let s1 : Irqs = record s { code = update s.code newh handler }
  id ← new_id k s1 irq
  install_handler k newh fresh s1 irq id

-- `share` is SA_SHIRQ in the argument flags
pub request_irq :
    ℕ → (newh fresh : Ptr) → Irqs → (irq handler : ℕ) → (share : Bool) → Res (ℕ × Irqs)
request_irq k newh fresh s irq handler share =
    if ltb irq n_irq
    then if share
      then if s.shared irq then create_handler k newh fresh s irq handler else ok (2 ^ 32 - 1, s)
      else if s.queue irq == null
      then create_handler k newh fresh (record s { shared = update s.shared irq false }) irq handler
      else ok (2 ^ 32 - 1, s)
    else ok (2 ^ 32 - 1, s)

-- what do_irq does in order: a handler is called with its id, or a controller gets the end of interrupt
pub data Action : Type 0 where
  call : (handler id : ℕ) → Action
  eoi_slave : Action
  eoi_master : Action

-- the loop that calls each handler; the handlers themselves are not run here
pub call_each : ℕ → Irqs → (tmp : Ptr) → Res (List Action)
call_each zero s tmp = out_of_fuel
call_each (suc k) s tmp = if tmp == null then ok [] else do
  n ← load s.heap tmp
  rest ← call_each k s n.next
  ok (if n.element == null then rest else call (s.code n.element) (s.id n.element) ∷ rest)

-- "Send EOI"
pub eoi : (irqnum : ℕ) → List Action
eoi irqnum = if ltb 7 irqnum then eoi_slave ∷ eoi_master ∷ [] else eoi_master ∷ []

pub do_irq : ℕ → Irqs → (irqnum : ℕ) → Res (List Action)
do_irq k s irqnum =
    if ltb irqnum n_irq
    then (do calls ← call_each k s (s.queue irqnum); ok (calls ++ eoi irqnum))
    else ok []
