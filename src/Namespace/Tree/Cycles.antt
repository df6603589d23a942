-- ===== src/Namespace/Tree/Cycles.antt =====
-- Renames of a directory to a name in itself (beryl-metadata/src/raft/state_machine/namespace.rs).
use vecton.Prelude.{
  ℕ, ◌≡◌, refl, sym, ap, ◌∙◌, false, not, Option, none, some, String, List, [], ◌∷◌, nat_eq,
  string_eq, pair_eq, option_eq, inl, inr, arith, Bool-cases, eqb, eqb_iff, pair_eqb_iff,
}
use vecton.Prelude.Maps.{get}
use vecton.Prelude.Result.{ok}
use vecton.Types.Values.{InodeId}
use vecton.Inode.{Inode, dir}
use vecton.Storage.{Store, get_dentry}
use vecton.Storage.Batches.{rename_atomic}
use vecton.Namespace.{touched}
use vecton.Namespace.Rename.{
  RenameRequest, apply_rename, prepare_rename, prepare_move, touched_parents, rename_update,
}
use vecton.Namespace.Tree.{IsNamespace}
use vecton.Namespace.Tree.Walks.{Leads}
use vecton.Namespace.Tree.Moves.{Aims}
use vecton.Namespace.Tree.Renames.{rename-Since, apply_rename-renamed}

-- The request that moves the directory `c` under a free name in itself.
abbrev pub into_itself : InodeId → String → InodeId → String → ℕ → RenameRequest
into_itself p n c x flags = record {
  src_parent_inode_id = p;
  src_name = n;
  expected_src_inode_id = c;
  dst_parent_inode_id = c;
  dst_name = x;
  expected_dst_inode_id = none;
  expected_dst_lease_epoch = none;
  flags = flags;
}

-- Where a directory is its own only parent, a path to it begins at it.
loops :
    (s : Store) (c : InodeId) (x : String)
    → IsNamespace s
    → get (c, x) s.dentries ≡ some c
    → (k : InodeId) (components : List String) → Leads s.dentries k components c
    → k ≡ c
loops s c x t self k [] h = h
loops s c x t self k (n ∷ components) (j, named, rest) =
    let at : j ≡ c = loops s c x t self j components rest in
    ap (λ (z : InodeId × String). z.0) (t.single k n c x c (named ∙ ap some at) self)

touches :
    (s : Store) (q : RenameRequest) (now : ℕ) (o i : Inode)
    → get q.src_parent_inode_id s.inodes ≡ some o
    → get q.dst_parent_inode_id s.inodes ≡ some i
    → (x : Option Inode × Option Inode) × (touched_parents s q now ≡ ok x)
unfolding touched_parents
touches s q now o i found found' =
    elim (Bool-cases (eqb q.src_parent_inode_id q.dst_parent_inode_id)) [
      | inl same ↦ ((some (touched o now), none), rw (touched_parents, same, found) refl)
      | inr other ↦ (
        (some (touched o now), some (touched i now)),
        rw (touched_parents, other, found, found') refl,
      )
    ]

accepted :
    (s : Store) (q : RenameRequest) (now : ℕ) (i : Inode) (x : Option Inode × Option Inode)
    → get_dentry s q.src_parent_inode_id q.src_name ≡ some q.expected_src_inode_id
    → get_dentry s q.dst_parent_inode_id q.dst_name ≡ none
    → q.expected_dst_inode_id ≡ none
    → get q.expected_src_inode_id s.inodes ≡ some i
    → touched_parents s q now ≡ ok x
    → prepare_rename s q now ≡ ok (rename_update q q.expected_src_inode_id none x.0 x.1)
unfolding prepare_rename prepare_move
accepted s q now i x named free expected found touch =
    let same : not (eqb q.expected_src_inode_id q.expected_src_inode_id) ≡ false =
      ground (arith, eqb_iff q.expected_src_inode_id q.expected_src_inode_id) in
    rw (named, same, free, expected, found, touch) refl

-- On a namespace, a Rename of any directory that has a name, to a free name in that directory
-- itself, succeeds, and afterwards no path of names from another inode leads to the directory.
pub rename_into_itself :
    (s : Store) (p : InodeId) (n : String) (c : InodeId) (x : String) (flags now r : ℕ) (i : Inode)
    → IsNamespace s
    → get (p, n) s.dentries ≡ some c
    → get c s.inodes ≡ some i
    → i.kind ≡ dir
    → get (c, x) s.dentries ≡ none
    → (s' : Store) × (apply_rename s (into_itself p n c x flags) now r ≡ ok s')
      × ((k : InodeId) (components : List String) → Leads s'.dentries k components c → k ≡ c)
unfolding apply_rename
rename_into_itself s p n c x flags now r i t named found kind free =
    let q = into_itself p n c x flags in
    let j = t.entry p n c named in
    let (parents, touch) = touches s q now j.parent.inode i j.parent.found found in
    let prepared = accepted s q now i parents named free refl found touch in
    let s' = rename_atomic s (rename_update q c none parents.0 parents.1) r in
    let done : apply_rename s q now r ≡ ok s' = rw (apply_rename, prepared) refl in
    let aims : Aims s q = record {
      directory = λ o d above below.
          let is : i ≡ d = ground (arith, found, below) in
          let as_child : i ≡ j.child.inode = ground (arith, found, j.child.found) in
          let as_parent : j.parent.inode ≡ o = ground (arith, above, j.parent.found) in
          (
            ap (λ (z : Inode). z.kind) (sym is) ∙ kind,
            ap (λ (z : Inode). z.mount_id) (sym is ∙ as_child)
                ∙ j.child.mount
                ∙ sym j.parent.mount
                ∙ ap (λ (z : Inode). z.mount_id) as_parent,
          );
    } in
    let t' = rename-Since s s' q now r done aims t in
    let self : get (c, x) s'.dentries ≡ some c =
      apply_rename-renamed s s' q now r done t (c, x)
      ∙ ground (arith, pair_eqb_iff (c, x) (c, x), named) in
    (s', done, λ k components h. loops s' c x t' self k components h)
