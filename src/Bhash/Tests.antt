-- ===== src/Bhash/Tests.antt =====
-- The theorems on the cache at a queue of two buffers.
use tempos.Base.{◌≡◌, refl, some, List, [], ◌∷◌, arith, update}
use tempos.Bhash.{Ptr, null, st_unlocked, Queue, brelse}
use tempos.Bhash.Free.{FreeList, brelse-FreeList}

-- The head is 1. Buffer 2 holds block 5 of device 9, buffer 3 nothing; both are free, 3 before 2.
abbrev queue : Queue
queue = record {
  hashtable = some (update (λ i. null) 1 2);
  head = 1;
  addr = update (λ p. 0) 2 5;
  device = update (λ p. 0) 2 9;
  status = λ p. 1;
  prev = λ p. null;
  next = λ p. null;
  free_prev = update (update (update (λ p. null) 1 2) 2 3) 3 1;
  free_next = update (update (update (λ p. null) 1 3) 3 2) 2 1;
}

abbrev free : List Ptr
free = 3 ∷ 2 ∷ []

queue-FreeList : FreeList queue free
queue-FreeList = ground arith

brelse-FreeList_example :
    FreeList (brelse queue 4) (4 ∷ free) × ((brelse queue 4).status 4 ≡ st_unlocked)
brelse-FreeList_example = brelse-FreeList queue 4 free queue-FreeList refl
