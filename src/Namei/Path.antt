-- ===== src/Namei/Path.antt =====
-- vfs_namei against the components of a path.
use tempos.Base.{
  ℕ, suc, ◌+◌, ◌-◌, ◌<◌, ◌≡◌, ◌≢◌, refl, sym, ap, ◌∙◌, Bool, Bool-cases, inl, inr, true, false,
  ◌&&◌, ◌||◌, not, List, [], ◌∷◌, ◌++◌, arith, ◌==◌, ==_of_ne, leb, if◌then◌else◌, length,
  length-append, Res, ok, fault, ◌>>=◌,
}
use tempos.Vfs.{Ptr, null}
use tempos.Namei.{char_at, slice, same_text, enter, name_loop, vfs_namei, vfs_name_len}
use tempos.Namei.Split.{
  NoZero, split, char_at-middle, char_at-nil, char_at-cons, length_with, split-slash, split-other,
  slice-middle, length_back, push, push_done,
}

module _ {ℓ} {S : Type ℓ} (find : S → Ptr → List ℕ → Res (Ptr × S)) where
  -- the components one after the other, until one is not found; those that are empty are left out, and ".." where the path starts at the root
  abbrev pub follow : (isroot : Bool) → List (List ℕ) → Ptr → S → Res (Ptr × S)
  follow isroot [] inode s = ok (inode, s)
  follow isroot (comp ∷ comps) inode s =
      if (length comp == 0) || (same_text comp (46 ∷ 46 ∷ []) && isroot)
      then follow isroot comps inode s
      else (do
        (inode, s) ← find s inode comp
        if inode == null then ok (null, s) else follow isroot comps inode s)

  -- what a component does before the rest of the loop
  abbrev step :
      (isroot : Bool) → (comp : List ℕ) → (next : Ptr → S → Res (Ptr × S)) → Ptr → S → Res (Ptr × S)
  step isroot comp next inode s =
      if (length comp == 0) || (same_text comp (46 ∷ 46 ∷ []) && isroot)
      then next inode s
      else (do (inode, s) ← find s inode comp; if inode == null then ok (null, s) else next inode s)

  found-next :
      (r : Res (Ptr × S)) (next : Ptr → S → Res (Ptr × S))
      → ((do (inode, s) ← r; ok (not (inode == null), inode, s))
          >>= (λ (goes_on, inode, s). if goes_on then next inode s else ok (null, s)))
        ≡ (do (inode, s) ← r; if inode == null then ok (null, s) else next inode s)
  found-next (ok (inode, s)) next = elim (Bool-cases (inode == null)) [
    | inl gone ↦ rw gone refl
    | inr there ↦ rw there refl
  ]
  found-next fault next = refl
  found-next Res.out_of_fuel next = refl

  enter-step :
      (isroot : Bool) (comp : List ℕ) (next : Ptr → S → Res (Ptr × S)) (inode : Ptr) (s : S)
      → length comp < vfs_name_len
      → (enter find isroot comp inode s
          >>= (λ (goes_on, inode, s). if goes_on then next inode s else ok (null, s)))
        ≡ step isroot comp next inode s
  unfolding enter
  enter-step isroot comp next inode s small =
      let room : leb vfs_name_len (length comp) ≡ false = ground arith in
      rw room (elim (Bool-cases ((length comp == 0) || (same_text comp (46 ∷ 46 ∷ []) && isroot))) [
        | inl left_out ↦ rw left_out refl
        | inr entered ↦ rw entered (found-next (find s inode comp) next)
      ])

  step-next :
      (isroot : Bool) (comp : List ℕ) {next next' : Ptr → S → Res (Ptr × S)}
      → ((inode : Ptr) (s : S) → next inode s ≡ next' inode s)
      → (inode : Ptr) (s : S) → step isroot comp next inode s ≡ step isroot comp next' inode s
  step-next isroot comp same inode s = λ t. step isroot comp (λ inode s. same inode s t) inode s

  -- a round at a slash or at the end, and one within a component
  name_loop-cut :
      (isroot : Bool) (path comp : List ℕ) (n i start : ℕ) (inode : Ptr) (s : S)
      → (char_at path i == 47 || (char_at path i == 0)) ≡ true
      → slice path start (i - start) ≡ comp
      → length comp < vfs_name_len
      → name_loop find isroot path (suc n) i start inode s
        ≡ step isroot comp (name_loop find isroot path n (i + 1) (i + 1)) inode s
  unfolding name_loop
  name_loop-cut isroot path comp n i start inode s ends piece small =
      rw (ends, piece)
        (enter-step isroot comp (name_loop find isroot path n (i + 1) (i + 1)) inode s small)

  name_loop-skip :
      (isroot : Bool) (path : List ℕ) (n i start : ℕ) (inode : Ptr) (s : S)
      → (char_at path i == 47 || (char_at path i == 0)) ≡ false
      → name_loop find isroot path (suc n) i start inode s
        ≡ name_loop find isroot path n (i + 1) start inode s
  unfolding name_loop
  name_loop-skip isroot path n i start inode s within = rw within refl

  name_loop-end :
      (isroot : Bool) (path : List ℕ) (i start : ℕ) (inode : Ptr) (s : S)
      → name_loop find isroot path 0 i start inode s ≡ ok (inode, s)
  unfolding name_loop
  name_loop-end isroot path i start inode s = refl

  -- the bytes `done` are behind the loop, `acc` is the component so far
  name_loop-follow :
      (isroot : Bool) (done acc rest : List ℕ) (i start : ℕ) (inode : Ptr) (s : S)
      → NoZero rest
      → length acc + length rest < vfs_name_len
      → start ≡ length done
      → i ≡ length done + length acc
      → name_loop find isroot (done ++ (acc ++ rest)) (suc (length rest)) i start inode s
        ≡ follow isroot (split acc rest) inode s
  name_loop-follow isroot done acc [] i start inode s nonzero small at_start at =
      name_loop-cut isroot (done ++ (acc ++ [])) acc 0 i start inode s
        (rw (at, char_at-middle done acc [], char_at-nil) refl)
        (rw (at, at_start, length_back done acc) (slice-middle done acc [])) (omega arith)
      ∙ step-next isroot acc
          (λ inode s. name_loop-end isroot (done ++ (acc ++ [])) (i + 1) (i + 1) inode s) inode s
  name_loop-follow isroot done acc (c ∷ rest) i start inode s nonzero small at_start at =
      let path : List ℕ = done ++ (acc ++ (c ∷ rest)) in
      let head : char_at path i ≡ c =
        rw (at, char_at-middle done acc (c ∷ rest)) (char_at-cons c rest) in
      elim (Bool-cases (c == 47)) [
        | inl slash ↦
            name_loop-cut isroot path acc (suc (length rest)) i start inode s
              (rw (head, slash) refl)
              (rw (at, at_start, length_back done acc) (slice-middle done acc (c ∷ rest)))
              (omega arith)
            ∙ step-next isroot acc
                (λ inode s.
                  ap
                    (λ (t : List ℕ).
                      name_loop find isroot t (suc (length rest)) (i + 1) (i + 1) inode s)
                    (push_done done acc c rest)
                  ∙ name_loop-follow isroot (done ++ (acc ++ (c ∷ []))) [] rest (i + 1) (i + 1)
                      inode s nonzero.1 (omega arith) (omega (arith, length_with done acc c))
                      (omega (arith, length_with done acc c)))
                inode s
            ∙ ap (λ (l : List (List ℕ)). follow isroot l inode s)
                (sym (split-slash acc c rest slash))
        | inr other ↦
            name_loop-skip isroot path (suc (length rest)) i start inode s
              (rw (head, other) (==_of_ne c 0 nonzero.0))
            ∙ ap
                (λ (t : List ℕ).
                  name_loop find isroot (done ++ t) (suc (length rest)) (i + 1) start inode s)
                (push acc c rest)
            ∙ name_loop-follow isroot done (acc ++ (c ∷ [])) rest (i + 1) start inode s nonzero.1
                (omega (arith, length-append acc (c ∷ []))) at_start
                (omega (arith, length-append acc (c ∷ [])))
            ∙ ap (λ (l : List (List ℕ)). follow isroot l inode s)
                (sym (split-other acc c rest other))
      ]

  -- An absolute path of less than 512 bytes is looked up component by component from the root, with the empty components and
  -- every ".." left out; any other path that is not empty loses its first byte and is looked up in the same way from the current directory, with ".." kept.
  pub vfs_namei-follow :
      (i_root i_cdir : Ptr) (c : ℕ) (rest : List ℕ) (s : S)
      → c ≢ 0
      → NoZero rest
      → length rest < vfs_name_len
      → vfs_namei find i_root i_cdir (c ∷ rest) s ≡ (
          if c == 47
          then follow true (split [] rest) i_root s
          else follow false (split [] rest) i_cdir s)
  unfolding vfs_namei
  vfs_namei-follow i_root i_cdir c rest s some_byte nonzero small =
      rw (char_at-cons c rest) (elim (Bool-cases (c == 47)) [
        | inl slash ↦
            rw slash
              (name_loop-follow true (c ∷ []) [] rest 1 1 i_root s nonzero (omega arith) refl refl)
        | inr other ↦
            rw other
              (name_loop-follow false (c ∷ []) [] rest 1 1 i_cdir s nonzero (omega arith) refl refl)
      ])
