-- ===== src/Namespace/Tree/Histories.antt =====
-- What has become of the inodes of an earlier store, and what a Rename may rely on
-- (beryl-metadata/src/raft/state_machine/namespace.rs).
use vecton.Prelude.{◌≡◌, sym, ◌∙◌, some, nat_eq, string_eq, pair_eq, arith}
use vecton.Prelude.Maps.{get}
use vecton.Inode.{Inode, dir}
use vecton.Storage.{Store}
use vecton.Namespace.Rename.{RenameRequest}
use vecton.Namespace.Tree.{Past, Steady, Since, IsNamespace}
use vecton.Namespace.Tree.Remaining.{Remains-same}
use vecton.Namespace.Tree.Moves.{Aims}

abbrev pub past_of : (s : Store) → IsNamespace s → Past
past_of s t = record { inodes = s.inodes; next = t.next; bounded = λ k i g. (t.key k i g).1 }

itself-Steady : (s : Store) (t : IsNamespace s) → Steady (past_of s t) s.inodes t.next
itself-Steady s t = record {
  grows = omega arith;
  kept = λ k o i g h. Remains-same o i (ground (arith, g, h));
  gone = λ k lt g. g;
}

pub itself-Since : (s : Store) (t : IsNamespace s) → Since (past_of s t) s
itself-Since s t = record {
  next = t.next;
  steady = itself-Steady s t;
  next_is = t.next_is;
  unique = t.unique;
  names_unique = t.names_unique;
  key = t.key;
  valid = t.valid;
  entry = t.entry;
  single = t.single;
  detached_root = t.detached_root;
  mounted = t.mounted;
}

-- What the service finds in its store when it proposes a Rename: both parents, the destination a
-- directory of the mount of the source.
pub record Resolved (o : Store) (q : RenameRequest) : Type 0 where
  pub source : Inode
  pub source_found : get q.src_parent_inode_id o.inodes ≡ some source
  pub destination : Inode
  pub destination_found : get q.dst_parent_inode_id o.inodes ≡ some destination
  pub kind : destination.kind ≡ dir
  pub mount : destination.mount_id ≡ source.mount_id

pub Resolved-Aims :
    (o s : Store) (q : RenameRequest) (t : IsNamespace o)
    → Since (past_of o t) s
    → Resolved o q
    → Aims s q
Resolved-Aims o s q t since resolved = record {
  directory = λ a i g h.
      let above =
        since.steady.kept q.src_parent_inode_id resolved.source a resolved.source_found g in
      let below =
        since.steady.kept q.dst_parent_inode_id resolved.destination i resolved.destination_found
          h in
      (below.directory resolved.kind, below.mount ∙ resolved.mount ∙ sym above.mount);
}
