-- ===== src/Ring/Member.antt =====
-- The members of a circular list: the first one that passes a test, and taking one out.
use tempos.Base.{
  ℕ, ◌≡◌, refl, ap, ◌⊎◌, Bool, true, false, List, [], ◌∷◌, ◌++◌, arith, ◌==◌, if◌then◌else◌,
  Bool-cases, inl, inr,
}
use tempos.Ring.Links.{mem, Ring, Distinct}
use tempos.Ring.Edit.{Ring-without, nxt_without, prv_without}

-- the first member that passes the test, else `d`
abbrev pub find : (ℕ → Bool) → List ℕ → ℕ → ℕ
find test [] d = d
find test (p ∷ ps) d = if test p then p else find test ps d

pub find-mem :
    (test : ℕ → Bool) (ps : List ℕ) (d : ℕ)
    → ((mem (find test ps d) ps ≡ true) × (test (find test ps d) ≡ true)) ⊎ (find test ps d ≡ d)
find-mem test [] d = inr refl
find-mem test (p ∷ ps) d = ground (arith, find-mem test ps d)

-- another answer where no member passes
pub find-default :
    (test : ℕ → Bool) (ps : List ℕ) (d d' : ℕ)
    → mem d ps ≡ false
    → let found = find test ps d in (if found == d then d' else found) ≡ find test ps d'
find-default test [] d d' o = ground arith
find-default test (p ∷ ps) d d' o = ground (arith, find-default test ps d d')

-- the list without the first `x`
abbrev pub without : ℕ → List ℕ → List ℕ
without x [] = []
without x (p ∷ ps) = if p == x then ps else p ∷ without x ps

-- a list at one of its members
pub record Split (x : ℕ) (ps : List ℕ) : Type 0 where
  pub xs : List ℕ
  pub ys : List ℕ
  pub whole : ps ≡ xs ++ (x ∷ ys)
  pub rest : without x ps ≡ xs ++ ys

pub mem-Split : (x : ℕ) (ps : List ℕ) → mem x ps ≡ true → Split x ps
mem-Split x [] m = cc
mem-Split x (p ∷ ps) m = elim (Bool-cases (p == x)) [
  | inl here ↦
      let e : p ≡ x = ground arith in record { xs = []; ys = ps; whole = rw e; rest = rw here }
  | inr there ↦
      let s = mem-Split x ps (ground arith) in
      record {
        xs = p ∷ s.xs;
        ys = s.ys;
        whole = ap (λ r. p ∷ r) s.whole;
        rest = rw there (ap (λ r. p ∷ r) s.rest);
      }
]

-- Unlinking a member takes it out and leaves the others in their order.
pub Ring-remove :
    (nxt prv : ℕ → ℕ) (h x : ℕ) (ps : List ℕ)
    → Ring nxt prv h ps
    → mem x ps ≡ true
    → Ring (nxt_without nxt prv x) (prv_without nxt prv x) h (without x ps)
Ring-remove nxt prv h x ps l m =
    let s = mem-Split x ps m in rw s.rest (Ring-without nxt prv h x s.xs s.ys (rw s.whole at l))

pub mem-without : (x y : ℕ) (ps : List ℕ) → mem y ps ≡ false → mem y (without x ps) ≡ false
mem-without x y [] o = refl
mem-without x y (p ∷ ps) o = ground (arith, mem-without x y ps)

pub without-gone : (x : ℕ) (ps : List ℕ) → Distinct ps → mem x (without x ps) ≡ false
without-gone x [] d = refl
without-gone x (p ∷ ps) d = ground (arith, without-gone x ps d.1)
