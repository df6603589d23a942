-- ===== src/Namespace/Tree/Creates.antt =====
-- The commands that create the root and a file keep the invariant of the namespace
-- (beryl-metadata/src/raft/state_machine/namespace.rs).
use vecton.Prelude.{
  ℕ, ◌≡◌, refl, subst, ap, ◌∙◌, not, none, some, [], ◌∷◌, nat_eq, string_eq, pair_eq, inl, inr,
  arith, Option-cases, ltb, leb,
}
use vecton.Prelude.Maps.{get, insert}
use vecton.Registry.{operation_eq}
use vecton.Prelude.Checked.{is_some}
use vecton.Prelude.Result.{ok, map_err, >>=-eq-ok, check_passed, ok_inj}
use vecton.Types.Values.{InodeId}
use vecton.Types.Layout.{FileLayout}
use vecton.Types.Layout
use vecton.MetadataError.{invalid_argument}
use vecton.Inode.{Inode, initialize}
use vecton.Storage.{
  Store, CreateFileReplayRecord, get_dentry, get_create_file_replay, prepare_inode_allocation,
}
use vecton.Storage.Batches.{
  create_batch, create_file_atomic, validate_inode_allocation_targets, batch_put_create_file_replay,
  commit_applied_state,
}
use vecton.Namespace.{touched}
use vecton.Namespace.Create.{
  CreateFileRequest, apply_create, create_new, replay_create, leased, resolve_create_parent,
  replay_record, validate_create_file_replay, same_request,
}
use vecton.Namespace.Tree.{Past, Since}
use vecton.Namespace.Tree.Commands.{is_dir-dir, prepare_inode_allocation-next, grow}
use vecton.Namespace.Tree.Files.{
  leased-valid, map_err-ok, put_record-SameNamespace, put_record-get,
  resolve_create_parent-directory,
}

-- What a CreateFile of a new operation has found and done.
pub record Created (past : Past) (s s' : Store) (q : CreateFileRequest) (now : ℕ)
    (r : CreateFileReplayRecord) : Type 0 where
  pub next : InodeId
  pub next_is : s.next_inode_id ≡ some next
  pub record_is : r ≡ replay_record q r.parent_inode_id r.name next
  pub layout_ok : Layout.validate q.layout ≡ ok tt
  pub parent : Inode
  pub resolved :
      resolve_create_parent s q.mount_id q.expected_mount_epoch q.mount_root_inode_id
        q.relative_components
      ≡ ok (r.parent_inode_id, r.name, parent)
  pub free : get (r.parent_inode_id, r.name) s.dentries ≡ none
  pub inodes :
      s'.inodes
      ≡ insert parent.inode_id
          (touched parent now)
          (insert next (leased next (initialize q.attrs now) parent.mount_id q.layout) s.inodes)
  pub dentries : s'.dentries ≡ insert (r.parent_inode_id, r.name) next s.dentries
  pub mounts : s'.mounts ≡ s.mounts
  pub replays : get q.operation_id s'.create_file_replays ≡ some r
  pub namespace : Since past s'

pub create_new-Created :
    {past : Past} (s s' : Store) (q : CreateFileRequest) (now state : ℕ)
    (r : CreateFileReplayRecord)
    → create_new s q now state ≡ ok (s', r)
    → Since past s
    → Created past s s' q now r
unfolding create_new create_file_atomic create_batch touched
create_new-Created {past} s s' q now state r h t =
    let (_, h1) = check_passed (ltb q.request_deadline_ms now) _ _ h in
    let (_, h2) = check_passed (leb q.session_expires_at_ms now) _ _ h1 in
    let (_, checked, h3) =
      >>=-eq-ok
        (map_err (λ _. invalid_argument "invalid CreateFile layout") (Layout.validate q.layout)) _
        h2 in
    let ((p, n, parent), resolved, h4) =
      >>=-eq-ok
        (resolve_create_parent s q.mount_id q.expected_mount_epoch q.mount_root_inode_id
          q.relative_components)
        _ h3 in
    let (found, directory, _) =
      resolve_create_parent-directory s q.mount_id q.expected_mount_epoch q.mount_root_inode_id
        q.relative_components p n parent resolved in
    let (free, h5) = check_passed (is_some (get_dentry s p n)) _ _ h4 in
    let (a, prepared, h6) = >>=-eq-ok (prepare_inode_allocation s) _ h5 in
    let (now_is, next_is) = prepare_inode_allocation-next s a prepared in
    let i = leased a.inode_id (initialize q.attrs now) parent.mount_id q.layout in
    let (s1, made, h7) =
      >>=-eq-ok
        (create_file_atomic s a p n i (touched parent now) (replay_record q p n a.inode_id) now
          state)
        _ h6 in
    let (_, _, h8) = >>=-eq-ok (validate_inode_allocation_targets s a (i.inode_id ∷ [])) _ made in
    let (s2, put, h9) =
      >>=-eq-ok (batch_put_create_file_replay s (replay_record q p n a.inode_id) now) _ h8 in
    let id : a.inode_id ≡ t.next = ground (arith, now_is, t.next_is) in
    let layout_ok : Layout.validate q.layout ≡ ok tt =
      map_err-ok _ (Layout.validate q.layout) checked in
    let e = put_record-SameNamespace s s2 (replay_record q p n a.inode_id) now put in
    let at : s1 ≡ s' = ground (arith, h7) in
    let is : replay_record q p n a.inode_id ≡ r = ground (arith, h7) in
    let new = replay_record q p n a.inode_id in
    subst (λ (x : CreateFileReplayRecord). Created past s s' q now x) is
      (subst (λ (x : Store). Created past s x q now new) (ok_inj h9 ∙ at)
        (record {
          next = a.inode_id;
          next_is = now_is;
          record_is = refl;
          layout_ok = layout_ok;
          parent = parent;
          resolved = resolved;
          free = ground (arith, free);
          inodes =
              ap (λ m. insert parent.inode_id (touched parent now) (insert a.inode_id i m))
                e.inodes;
          dentries = ap (insert (p, n) a.inode_id) e.dentries;
          mounts = e.mounts;
          replays = put_record-get s s2 new now put;
          namespace =
              rw (e.inodes, e.dentries, e.detached, e.mounts)
                (grow t p n parent (touched parent now) i a.next_inode_id found
                  (is_dir-dir parent directory) refl refl refl (ground (arith, free)) id refl
                  (omega (arith, id, next_is))
                  (λ f e.
                    leased-valid t.next (initialize q.attrs now) parent.mount_id q.layout f
                      layout_ok e));
        }))

pub create-Since :
    {past : Past} (s s' : Store) (q : CreateFileRequest) (now state : ℕ)
    (r : CreateFileReplayRecord)
    → apply_create s q now state ≡ ok (s', r)
    → Since past s
    → Since past s'
unfolding apply_create replay_create commit_applied_state
create-Since {past} s s' q now state r h t =
    let (found, looked, h1) = >>=-eq-ok (get_create_file_replay s q.operation_id) _ h in
    elim (Option-cases found) [
      | inl new ↦ (create_new-Created s s' q now state r (rw new at h1) t).namespace
      | inr (x, old) ↦ replayed x (rw old at h1)
    ]
  where
    replayed :
        (x : CreateFileReplayRecord) → replay_create s x q now state ≡ ok (s', r) → Since past s'
    replayed x h2 =
        let (_, h3) = check_passed (not (same_request x q)) _ _ h2 in
        let (_, _, h4) = >>=-eq-ok (validate_create_file_replay s x now) _ h3 in
        let at : commit_applied_state s state ≡ s' = ground (arith, h4) in subst (Since _) at t
