-- ===== src/Namespace/Tree/Directories.antt =====
-- CreateDirectory with all missing components in one batch
-- (beryl-metadata/src/raft/state_machine/namespace.rs).
use vecton.Prelude.{
  ℕ, ◌≡◌, refl, subst, ap, ◌∙◌, not, some, String, List, [], ◌∷◌, nat_eq, string_eq, pair_eq, inl,
  arith, if◌then◌else◌, ◌||◌, is_empty, map,
}
use vecton.Prelude.Maps.{get}
use vecton.Prelude.Result.{ok, ◌>>=◌, >>=-eq-ok, check_passed, value_found, ok_inj}
use vecton.Types.Values.{InodeId}
use vecton.Inode.{Inode, InodeAttrs, dir}
use vecton.Storage.{Store, InodeAllocation, is_dir, prepare_inode_allocation}
use vecton.Storage.Batches.{
  create_batches, create_directories_atomic, validate_inode_allocation_targets, RecursiveMkdirEntry,
  inode_id_of, commit_applied_state,
}
use vecton.Namespace.{apply_create_directory, walk_components, has_empty_component}
use vecton.Namespace.Tree.{Past, IsForest, Since}
use vecton.Namespace.Tree.Commands.{is_dir-dir, prepare_inode_allocation-next}
use vecton.Namespace.Tree.Walks.{Extends, Leads, Stands, walk_components-Ends}

-- What a directory command that succeeds leaves: the path leads from the root to the inode of the
-- answer, which is a directory, and every name of before leads where it led.
pub record Made (past : Past) (s s' : Store) (root : InodeId) (components : List String)
    (c : InodeId) : Type 0 where
  pub namespace : Since past s'
  pub leads : Leads s'.dentries root components c
  pub extends : Extends s.dentries s'.dentries
  pub inode : Inode
  pub found : get c s'.inodes ≡ some inode
  pub kind : inode.kind ≡ dir

-- The end of the command, after the loop.
written :
    {past : Past} (s s' : Store) {first : InodeId} (root : InodeId) (components : List String)
    (r : ℕ) (c : InodeId) (at : InodeAttrs) (a : InodeAllocation)
    (x : Inode × ℕ × List RecursiveMkdirEntry)
    → Stands past s (create_batches x.2 s) first x.0 x.1 x.2
    → Extends s.dentries (create_batches x.2 s).dentries
    → Leads (create_batches x.2 s).dentries root components x.0.inode_id
    → ◌>>=◌ {B = Store × InodeId × InodeAttrs}
        (if is_empty x.2
          then ok (commit_applied_state s r)
          else create_directories_atomic s (record a { next_inode_id = x.1 }) x.2 r)
        (λ s''. ok (s'', x.0.inode_id, x.0.attrs))
      ≡ ok (s', c, at)
    → Since past s
    → Made past s s' root components c
unfolding create_directories_atomic commit_applied_state create_batches
written {past} s s' root components r c at a (last, next', []) st extends leads h t =
    let same : commit_applied_state s r ≡ s' = ap (λ z. z.0) (ok_inj h) in
    let id : last.inode_id ≡ c = ap (λ z. z.1) (ok_inj h) in
    subst (λ w. Made past s w root components c) same
      (subst (Made past s (commit_applied_state s r) root components) id (record {
        namespace = t;
        leads = leads;
        extends = extends;
        inode = st.here;
        found = st.found;
        kind = st.kind;
      }))
written {past} s s' root components r c at a (last, next', e ∷ entries) st extends leads h t =
    let allocation = record a { next_inode_id = next' } in
    let (s1, made, h1) = >>=-eq-ok (create_directories_atomic s allocation (e ∷ entries) r) _ h in
    let (_, _, h2) =
      >>=-eq-ok (validate_inode_allocation_targets s allocation (map inode_id_of (e ∷ entries))) _
        made in
    let id : last.inode_id ≡ c = ap (λ z. z.1) (ok_inj h1) in
    subst (λ w. Made past s w root components c) (ok_inj h2 ∙ ap (λ z. z.0) (ok_inj h1))
      (subst (Made past s _ root components) id (record {
        namespace = st.forest;
        leads = leads;
        extends = extends;
        inode = st.here;
        found = st.found;
        kind = st.kind;
      }))

-- A recursive CreateDirectory that succeeds on a namespace leaves a namespace in which its
-- components lead from its root to the inode of the answer, which is a directory, and every name
-- of before leads where it did. What the namespace keeps of the inodes of an earlier store stays so.
pub apply_create_directory-Made :
    {past : Past} (s s' : Store) (root : InodeId) (components : List String) (attrs at : InodeAttrs)
    (now r : ℕ) (c : InodeId)
    → apply_create_directory s root components attrs now r ≡ ok (s', c, at)
    → Since past s
    → Made past s s' root components c
unfolding apply_create_directory create_directories_atomic create_batches
apply_create_directory-Made {past} s s' root components attrs at now r c h t =
    let (_, h1) = check_passed (is_empty components || has_empty_component components) _ _ h in
    let (parent, found, h2) = value_found _ (get root s.inodes) _ h1 in
    let (d, h3) = check_passed (not (is_dir parent)) _ _ h2 in
    let (a, prepared, h4) = >>=-eq-ok (prepare_inode_allocation s) _ h3 in
    let (now_is, _) = prepare_inode_allocation-next s a prepared in
    let kind = is_dir-dir parent (ground (arith, d)) in
    let id : a.inode_id ≡ t.next = ground (arith, now_is, t.next_is) in
    let key = (t.key root parent found).0 in
    let (x, walked, h5) =
      >>=-eq-ok (walk_components s attrs now parent a.inode_id [] components) _ h4 in
    let st : Stands past s s t.next parent a.inode_id [] = record {
      forest = subst (IsForest _ s.inodes s.dentries s.detached_roots s.mounts) now_is t;
      directory = kind;
      here = parent;
      found = ap (λ (k : InodeId). get k s.inodes) key ∙ found;
      kind = kind;
      mount = refl;
      fresh = inl (refl, refl);
    } in
    let ends =
      walk_components-Ends s t attrs now components [] parent a.inode_id st (omega (arith, id))
        walked in
    let leads =
      subst (λ k. Leads (create_batches x.2 s).dentries k components x.0.inode_id) key ends.2 in
    written s s' root components r c at a x ends.0 ends.1 leads h5 t
