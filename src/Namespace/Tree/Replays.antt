-- ===== src/Namespace/Tree/Replays.antt =====
-- The repetition of a CreateFile request (beryl-metadata/src/raft/state_machine/namespace.rs).
use vecton.Prelude.{
  ℕ, ◌≡◌, ◌<◌, refl, sym, subst, ap, ◌∙◌, true, false, not, none, some, String, [], nat_eq,
  string_eq, pair_eq, list_eq, option_eq, arith, eqb, eqb_iff, leb, ◌||◌, ◌==◌, test_refl,
}
use vecton.Prelude.Maps.{get, insert, get-insert, get-insert_self}
use vecton.Prelude.Result.{ok}
use vecton.Types.Values.{InodeId}
use vecton.Types.Layout.{FileLayout, file_layout_eqb}
use vecton.Types.Layout
use vecton.Inode.{Inode, file, initialize}
use vecton.Registry.{operation_eq}
use vecton.Storage.{
  Store, CreateFileReplayRecord, is_dir, get_dentry, get_layout, get_layout_optional,
  get_create_file_replay,
}
use vecton.Storage.Batches.{commit_applied_state}
use vecton.Namespace.{touched}
use vecton.Namespace.Create.{
  CreateFileRequest, apply_create, replay_create, leased, resolve_create_parent, replay_record,
  validate_create_file_replay, check_initial_file, same_request,
}
use vecton.Namespace.Tree.{nothing_past, IsNamespace}
use vecton.Namespace.Tree.Files.{resolve_create_parent-directory}
use vecton.Namespace.Tree.Creates.{Created, create_new-Created}
use vecton.Namespace.Tree.Growth.{Created-Grown, resolve-Grown}

layout_eqb_refl : (l : FileLayout) → file_layout_eqb l l ≡ true
layout_eqb_refl l = ground arith

-- The initial state of the file that a record promises.
record Initial (i : Inode) (r : CreateFileReplayRecord) : Type 0 where
  id : i.inode_id ≡ r.inode_id
  mount : i.mount_id ≡ r.mount_id
  kind :
      i.kind
      ≡ file (record {
        layout = r.layout;
        len = 0;
        generation = r.generation;
        blocks = [];
        next_index = 0;
        lease_epoch = r.lease_epoch;
        last_commit = none;
      })

get_layout-Initial :
    (s : Store) (i : Inode) (r : CreateFileReplayRecord)
    → get r.inode_id s.inodes ≡ some i
    → Initial i r
    → Layout.validate r.layout ≡ ok tt
    → get_layout s r.inode_id ≡ ok r.layout
unfolding get_layout get_layout_optional
get_layout-Initial s i r found e valid =
    rw (get_layout, get_layout_optional, found, e.kind, valid) refl

validate_create_file_replay-Initial :
    (s : Store) (r : CreateFileReplayRecord) (later : ℕ) (parent i : Inode)
    → later < r.expires_at_ms
    → resolve_create_parent s r.mount_id r.expected_mount_epoch r.mount_root_inode_id
        r.relative_components
      ≡ ok (r.parent_inode_id, r.name, parent)
    → get (r.parent_inode_id, r.name) s.dentries ≡ some r.inode_id
    → get r.inode_id s.inodes ≡ some i
    → Initial i r
    → Layout.validate r.layout ≡ ok tt
    → validate_create_file_replay s r later ≡ ok tt
unfolding validate_create_file_replay check_initial_file
validate_create_file_replay-Initial s r later parent i early resolved named found e valid =
    let in_time : leb r.expires_at_ms later ≡ false = ground (arith, early) in
    let place : (not (eqb r.parent_inode_id r.parent_inode_id) || not (r.name == r.name)) ≡ false =
      ground
        (arith, eqb_iff r.parent_inode_id r.parent_inode_id, string_eq.test_iff r.name r.name) in
    let leads : not (get_dentry s r.parent_inode_id r.name == some r.inode_id) ≡ false =
      ground (arith, named, eqb_iff r.inode_id r.inode_id) in
    let own : (not (eqb i.inode_id r.inode_id) || not (eqb i.mount_id r.mount_id) || is_dir i)
        ≡ false =
      ground (
        arith,
        e.id,
        e.mount,
        e.kind,
        eqb_iff i.inode_id r.inode_id,
        eqb_iff i.mount_id r.mount_id,
      ) in
    let epochs : not (eqb r.lease_epoch r.lease_epoch) ≡ false =
      ground (arith, eqb_iff r.lease_epoch r.lease_epoch) in
    let content : (not (eqb r.generation r.generation) || not true || not true) ≡ false =
      ground (arith, eqb_iff r.generation r.generation) in
    rw
      (
        in_time,
        resolved,
        place,
        leads,
        found,
        own,
        e.kind,
        epochs,
        content,
        get_layout-Initial s i r found e valid,
        layout_eqb_refl r.layout,
      )
      refl

replay_answers :
    (s : Store) (q : CreateFileRequest) (later state : ℕ) (p : InodeId) (n : String) (c : InodeId)
    → validate_create_file_replay s (replay_record q p n c) later ≡ ok tt
    → replay_create s (replay_record q p n c) q later state
      ≡ ok (commit_applied_state s state, replay_record q p n c)
unfolding replay_create
replay_answers s q later state p n c valid =
    let same : same_request (replay_record q p n c) q ≡ true = ground (
      arith,
      eqb_iff q.request_deadline_ms q.request_deadline_ms,
      test_refl q.normalized_path,
      eqb_iff q.mount_id q.mount_id,
      eqb_iff q.expected_mount_epoch q.expected_mount_epoch,
      eqb_iff q.mount_root_inode_id q.mount_root_inode_id,
      test_refl q.relative_components,
    ) in
    rw (same, valid) refl

-- The repetition of the request finds its record, its name, its inode and its layout.
Created-replays :
    (s s' : Store) (q : CreateFileRequest) (now later state : ℕ) (r : CreateFileReplayRecord)
    → IsNamespace s
    → Created nothing_past s s' q now r
    → later < r.expires_at_ms
    → replay_create s' r q later state ≡ ok (commit_applied_state s' state, r)
Created-replays s s' q now later state r t c early =
    let new = replay_record q r.parent_inode_id r.name c.next in
    let (parent', resolved) =
      resolve-Grown s s' q.mount_id q.expected_mount_epoch q.mount_root_inode_id
        q.relative_components r.parent_inode_id r.name c.parent (Created-Grown s s' q now r t c)
        c.resolved in
    let (there, _, mount) =
      resolve_create_parent-directory s q.mount_id q.expected_mount_epoch q.mount_root_inode_id
        q.relative_components r.parent_inode_id r.name c.parent c.resolved in
    let i = leased c.next (initialize q.attrs now) c.parent.mount_id q.layout in
    let apart : eqb c.parent.inode_id c.next ≡ false = ground (
      arith,
      t.next_is,
      c.next_is,
      (t.key r.parent_inode_id c.parent there).0,
      (t.key r.parent_inode_id c.parent there).1,
    ) in
    let found : get c.next s'.inodes ≡ some i =
      ap (get c.next) c.inodes
      ∙ get-insert c.parent.inode_id c.next (touched c.parent now) (insert c.next i s.inodes)
      ∙ rw apart (get-insert_self c.next i s.inodes) in
    let named : get (r.parent_inode_id, r.name) s'.dentries ≡ some c.next =
      ap (get (r.parent_inode_id, r.name)) c.dentries
      ∙ get-insert_self (r.parent_inode_id, r.name) c.next s.dentries in
    let in_time : later < q.session_expires_at_ms =
      subst (λ (x : CreateFileReplayRecord). later < x.expires_at_ms) c.record_is early in
    let valid =
      validate_create_file_replay-Initial s' new later parent' i in_time resolved named found
        (record { id = refl; mount = mount; kind = refl }) c.layout_ok in
    subst
      (λ (x : CreateFileReplayRecord).
        replay_create s' x q later state ≡ ok (commit_applied_state s' state, x))
      (sym c.record_is) (replay_answers s' q later state r.parent_inode_id r.name c.next valid)

-- In a namespace, a CreateFile of an operation without a record that has succeeded can be repeated
-- right after, until its session expires: the repetition answers with the same record, and changes
-- nothing but the applied state.
pub create-replay :
    (s s' : Store) (q : CreateFileRequest) (now later state state' : ℕ) (r : CreateFileReplayRecord)
    → IsNamespace s
    → get_create_file_replay s q.operation_id ≡ ok none
    → apply_create s q now state ≡ ok (s', r)
    → later < r.expires_at_ms
    → apply_create s' q later state' ≡ ok (commit_applied_state s' state', r)
unfolding apply_create get_create_file_replay
create-replay s s' q now later state state' r t new h early =
    let c = create_new-Created s s' q now state r (rw (apply_create, new) at h) t in
    let again = Created-replays s s' q now later state' r t c early in
    let id : not (r.operation_id == q.operation_id) ≡ false = ground (
      arith,
      operation_eq.test_iff r.operation_id q.operation_id,
      ap (λ (x : CreateFileReplayRecord). x.operation_id) c.record_is,
    ) in
    let found : get_create_file_replay s' q.operation_id ≡ ok (some r) =
      rw (get_create_file_replay, c.replays, id) refl in
    rw (apply_create, found) again
