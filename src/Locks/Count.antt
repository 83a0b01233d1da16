-- ===== src/Locks/Count.antt =====
-- What the value of the mutex counts.
use tempos.Base.{ℕ, ◌+◌, ◌%◌, ◌^◌, ◌≤◌, ◌≡◌, refl, List, [], ◌∷◌, ◌++◌, arith}
use tempos.Locks.{
  Place, outside, spinning, loaded, inside, Moves, mutex_spin_down, spin_loop, see, decl, mutex_up,
  Step, step, Steps, stop, then,
}

abbrev pub weight : Place → ℕ
weight outside = 0
weight spinning = 0
weight loaded = 0
weight inside = 1

-- how many processes are inside
abbrev pub holders : List Place → ℕ
holders [] = 0
holders (p ∷ ps) = weight p + holders ps

holders-append : (ps qs : List Place) → holders (ps ++ qs) ≡ holders ps + holders qs
holders-append [] qs = omega arith
holders-append (p ∷ ps) qs = omega (arith, holders-append ps qs)

abbrev pub total : ℕ × List Place → ℕ
total (v, ps) = (v + holders ps) % 2 ^ 32

Moves-total :
    {v v' : ℕ} {p p' : Place} (n : ℕ)
    → Moves v p v' p'
    → (v' + (weight p' + n)) % 2 ^ 32 ≡ (v + (weight p + n)) % 2 ^ 32
Moves-total n mutex_spin_down = refl
Moves-total n spin_loop = refl
Moves-total n (see ne) = refl
Moves-total n decl = omega arith
Moves-total n mutex_up = omega arith

Step-total : {s t : ℕ × List Place} → Step s t → total t ≡ total s
Step-total (step {v = v} {v' = v'} {p = p} {p' = p'} ps qs m) = omega (
  arith,
  holders-append ps (p ∷ qs),
  holders-append ps (p' ∷ qs),
  Moves-total (holders ps + holders qs) m,
)

-- Whatever the order of the steps, the value of the mutex and the number of processes between
-- mutex_spin_down and mutex_up keep their sum, on words of 32 bits.
pub Steps-total : {s t : ℕ × List Place} → Steps s t → total t ≡ total s
Steps-total stop = refl
Steps-total (then ss x) = omega (arith, Steps-total ss, Step-total x)

abbrev pub load : Place → ℕ
load outside = 0
load spinning = 0
load loaded = 1
load inside = 0

-- how many processes are between the load and the decrement
abbrev pub loads : List Place → ℕ
loads [] = 0
loads (p ∷ ps) = load p + loads ps

loads-append : (ps qs : List Place) → loads (ps ++ qs) ≡ loads ps + loads qs
loads-append [] qs = omega arith
loads-append (p ∷ ps) qs = omega (arith, loads-append ps qs)

-- Runs in which at no time two processes are between the load of the mutex and its decrement.
pub data Spaced : ℕ × List Place → ℕ × List Place → Type 0 where
  start : {s : ℕ × List Place} → Spaced s s
  moved : {s t u : ℕ × List Place} → Spaced s t → Step t u → loads u.1 ≤ 1 → Spaced s u

-- the value 1 is with the mutex or with the process inside, and no other process has left the loop meanwhile
abbrev pub Exclusive : ℕ × List Place → Type 0
Exclusive (v, ps) = (v + holders ps ≡ 1) × (loads ps + holders ps ≤ 1)

-- a move of one process, with `h` others inside and `l` others behind the load
Moves-Exclusive :
    {v v' : ℕ} {p p' : Place} (h l : ℕ)
    → Moves v p v' p'
    → v + (weight p + h) ≡ 1
    → load p + l + (weight p + h) ≤ 1
    → load p' + l ≤ 1
    → (v' + (weight p' + h) ≡ 1) × (load p' + l + (weight p' + h) ≤ 1)
Moves-Exclusive h l mutex_spin_down one few spaced = (omega arith, omega arith)
Moves-Exclusive h l spin_loop one few spaced = (omega arith, omega arith)
Moves-Exclusive h l (see ne) one few spaced = (omega arith, omega arith)
Moves-Exclusive h l decl one few spaced = (omega arith, omega arith)
Moves-Exclusive h l mutex_up one few spaced = (omega arith, omega arith)

Step-Exclusive : {s t : ℕ × List Place} → Step s t → Exclusive s → loads t.1 ≤ 1 → Exclusive t
Step-Exclusive (step {v = v} {v' = v'} {p = p} {p' = p'} ps qs m) (one, few) spaced =
    let h = holders-append ps (p ∷ qs) in
    let h' = holders-append ps (p' ∷ qs) in
    let l = loads-append ps (p ∷ qs) in
    let l' = loads-append ps (p' ∷ qs) in
    let (one', few') =
      Moves-Exclusive (holders ps + holders qs) (loads ps + loads qs) m (omega arith) (omega arith)
        (omega arith) in
    (omega arith, omega arith)

-- Where the value of the mutex and the number of processes inside have the sum 1 at the start, with no other process behind the load, and at no
-- time two processes are between the load and the decrement, the sum stays 1, so never two are inside, and while one is inside no other leaves the loop.
pub Spaced-Exclusive : {s t : ℕ × List Place} → Exclusive s → Spaced s t → Exclusive t
Spaced-Exclusive first start = first
Spaced-Exclusive first (moved before x spaced) =
    Step-Exclusive x (Spaced-Exclusive first before) spaced
