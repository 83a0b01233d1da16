-- ===== src/CircularList/Edit.antt =====
-- c_llist_add, c_llist_remove and c_llist_destroy.
use tempos.Base.{true, update}
use tempos.CircularList.{Ptr, Memory}

-- the memory after "Add to the end"
abbrev appended : Memory → (l fresh x : Ptr) → Memory
appended h l fresh x = record {
  element = update h.element fresh x;
  prev = update (update h.prev fresh (h.prev l)) l fresh;
  next = update (update h.next (h.prev l) fresh) fresh l;
  live = update h.live fresh true;
}
