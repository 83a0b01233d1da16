-- ===== src/Vfs/Register.antt =====
-- register_all_fs_types and register_fs_type.
use tempos.Base.{
  ℕ, zero, suc, ◌+◌, ◌-◌, ◌≤◌, ◌≡◌, refl, ap, ◌∙◌, ◌≢◌, false, List, [], ◌∷◌, ◌++◌, arith, leb,
  if◌then◌else◌, update, append-nil,
}
use mathlib.Core.List.{append_assoc}
use tempos.Ring.Links.{mem, Ring, mem-append}
use tempos.Ring.Edit.{Ring-back}
use tempos.Vfs.{Ptr, null, Inodes, iflag_list_head}
use tempos.Vfs.Table.{IsTable}

-- the head of the free list, alone
pub init_head : (inode_at : ℕ → Ptr) → Inodes → Inodes
init_head inode_at q =
    let head = inode_at 0 in
    record q { free_next = update q.free_next head head; free_prev = update q.free_prev head head }

-- the loop over `n` i-nodes of the array from the index `i` on
pub link_inodes : (n i : ℕ) → (inode_at : ℕ → Ptr) → Inodes → (head prev : Ptr) → Inodes
link_inodes zero i inode_at q head prev = q
link_inodes (suc n) i inode_at q head prev =
    let inode = inode_at i in
    link_inodes n (suc i) inode_at
      (record q {
        free_prev = update (update q.free_prev inode prev) head inode;
        free_next = update (update q.free_next inode head) prev inode;
      })
      head inode

-- the hash table cleared and the free list made; `inode_at i` is &free_inodes[i]
pub init_inodes : (size : ℕ) → (inode_at : ℕ → Ptr) → Inodes → Inodes
unfolding init_head
init_inodes size inode_at q =
    let head = inode_at 0 in
    let q0 : Inodes = record q { inode_hash_table = λ _. null } in
    let q1 = link_inodes (size - 1) 1 inode_at (init_head inode_at q0) head head in
    record q1 { flags = update q1.flags head iflag_list_head; free_inodes_head = head }

-- the addresses of `n` i-nodes from the index `i` on
abbrev pub inode_list : (n i : ℕ) → (inode_at : ℕ → Ptr) → List Ptr
inode_list zero i inode_at = []
inode_list (suc n) i inode_at = inode_at i ∷ inode_list n (suc i) inode_at

module _ (inode_at : ℕ → Ptr) (inj : (i j : ℕ) → inode_at i ≡ inode_at j → i ≡ j) where
  link_inodes-Ring :
      (n i : ℕ) (q : Inodes) (head : Ptr) (ps : List Ptr)
      → Ring q.free_next q.free_prev head ps
      → ((j : ℕ) → i ≤ j → mem (inode_at j) (head ∷ ps) ≡ false)
      → let q' = link_inodes n i inode_at q head (q.free_prev head) in
        Ring q'.free_next q'.free_prev head (ps ++ inode_list n i inode_at)
        × (q'.inode_hash_table ≡ q.inode_hash_table)
  unfolding link_inodes
  link_inodes-Ring zero i q head ps l new = (rw (append-nil ps) l, refl)
  link_inodes-Ring (suc n) i q head ps l new =
      let b = inode_at i in
      let q' : Inodes = record q {
        free_prev = update (update q.free_prev b (q.free_prev head)) head b;
        free_next = update (update q.free_next b head) (q.free_prev head) b;
      } in
      let l' : Ring q'.free_next q'.free_prev head (ps ++ (b ∷ [])) =
        Ring-back q.free_next q.free_prev head b ps l (new i (omega arith)) in
      let last : q'.free_prev head ≡ b = ground arith in
      let rest = link_inodes-Ring n (suc i) q' head (ps ++ (b ∷ [])) l' (λ j le.
        ground (arith, new j (omega arith), mem-append (inode_at j) ps (b ∷ []), inj j i)) in
      rw (last, append_assoc ps (b ∷ []) (inode_list n (suc i) inode_at)) at rest

  inode_list-null :
      (n i : ℕ) → ((j : ℕ) → inode_at j ≢ null) → mem null (inode_list n i inode_at) ≡ false
  inode_list-null zero i ne = refl
  inode_list-null (suc n) i ne = ground (arith, ne i, inode_list-null n (suc i) ne)

  -- `register_all_fs_types` makes a table whose queues are empty, and a free list of all i-nodes of the array but the
  -- first, each once and in their order; the first is the head.
  pub init_inodes-IsTable :
      (size : ℕ) (q : Inodes)
      → ((j : ℕ) → inode_at j ≢ null)
      → IsTable (init_inodes size inode_at q) (inode_list (size - 1) 1 inode_at)
        × ((init_inodes size inode_at q).free_inodes_head ≡ inode_at 0)
  unfolding init_inodes
  init_inodes-IsTable size q ne =
      let head = inode_at 0 in
      let q0 : Inodes = record q { inode_hash_table = λ _. null } in
      let h0 = init_head inode_at q0 in
      let start : h0.free_prev head ≡ head = ground arith in
      let (ring, table) = rw start at (
        link_inodes-Ring (size - 1) 1 h0 head [] (ground arith)
          (λ j le. ground (arith, inj j 0))) in
      let empty = λ (i : ℕ). ap (λ (f : ℕ → Ptr). f i) table in
      let no_null : mem null (head ∷ inode_list (size - 1) 1 inode_at) ≡ false =
        ground (arith, ne 0, inode_list-null (size - 1) 1 ne) in
      (
        record {
          free = ring;
          no_null = no_null;
          single = λ i small held. absurd (held (empty i));
          busy = λ i small.
              ap (λ (p : Ptr). mem p (head ∷ inode_list (size - 1) 1 inode_at)) (empty i) ∙ no_null;
          numbered = λ i small held. absurd (held (empty i));
        },
        refl,
      )

-- VFS_SUPPORTED_FS
abbrev vfs_supported_fs : ℕ
vfs_supported_fs = 1

-- vfs_filesystems and vfs_reg_types
pub record FsTypes : Type 0 where
  pub vfs_filesystems : ℕ → Ptr
  pub vfs_reg_types : ℕ

pub register_fs_type : FsTypes → (type : Ptr) → FsTypes
register_fs_type s type = if leb vfs_supported_fs s.vfs_reg_types then s else record s {
  vfs_filesystems = update s.vfs_filesystems s.vfs_reg_types type;
  vfs_reg_types = s.vfs_reg_types + 1;
}

-- The table of file systems has one place: the first type that is registered stays there, and every
-- further one is refused.
pub register_fs_type-twice :
    (s : FsTypes) (type other : Ptr)
    → s.vfs_reg_types ≡ 0
    → let s1 = register_fs_type s type in
      (s1.vfs_filesystems 0 ≡ type) × (register_fs_type s1 other ≡ s1)
unfolding register_fs_type
register_fs_type-twice s type other none_yet = ground arith
