-- ===== src/StateMachine/Invariant.antt =====
-- The invariant of the namespace along the committed commands
-- (beryl-metadata/src/raft/state_machine/mod.rs).
use vecton.Prelude.{
  ℕ, ◌≡◌, refl, sym, subst, ◌⊎◌, inl, inr, Bool, true, false, String, List, [], ◌∷◌, arith, nat_eq,
  string_eq, pair_eq, option_eq,
}
use vecton.Prelude.Result.{Result, ok, err, panic, >>=-eq-ok}
use vecton.Types.Values.{InodeId}
use vecton.Types.Watermark.{GroupName}
use vecton.MetadataError.{MetadataError}
use vecton.Inode.{InodeAttrs}
use vecton.Storage.{Store, MountEntry}
use vecton.Storage.Batches.{commit_applied_state}
use vecton.Apply.{from_metadata_error}
use vecton.Apply.Command as FileCommand
use vecton.Namespace.{apply_bootstrap_namespace}
use vecton.Namespace.Create.{apply_create}
use vecton.Namespace.Delete.{apply_delete}
use vecton.Namespace.Rename.{apply_rename}
use vecton.Namespace.Tree.{Past, Since, IsNamespace}
use vecton.Namespace.Tree.Histories.{past_of, itself-Since, Resolved, Resolved-Aims}
use vecton.Namespace.Tree.Commands.{mkdir-Since}
use vecton.Namespace.Tree.Directories.{apply_create_directory-Made}
use vecton.Namespace.Tree.Removals.{delete-Since}
use vecton.Namespace.Tree.Moves.{Aims}
use vecton.Namespace.Tree.Renames.{rename-Since}
use vecton.Namespace.Tree.Creates.{create-Since}
use vecton.StateMachine.{
  Command, bootstrap_namespace, create_directory, create_file, delete, rename, on_file,
  ApplySuccess, CommittedApply, apply_command, apply_committed, apply_directory, respond,
}
use vecton.StateMachine.Changes.{file-Since}
use vecton.StateMachine.Bootstrap.{IsBlank, bootstrap-Since, bootstrap_blank-Since}

directory-Since :
    {past : Past} (s s' : Store) (root : InodeId) (components : List String) (attrs at : InodeAttrs)
    (recursive : Bool) (now r : ℕ) (c : InodeId)
    → apply_directory s root components attrs recursive now r ≡ ok (s', c, at)
    → Since past s
    → Since past s'
unfolding apply_directory
directory-Since s s' root components attrs at true now r c h t =
    (apply_create_directory-Made s s' root components attrs at now r c h t).namespace
directory-Since s s' root [] attrs at false now r c h t = cc
directory-Since s s' root (n ∷ []) attrs at false now r c h t =
    mkdir-Since s s' root n attrs at now r c h t
directory-Since s s' root (n ∷ _ ∷ _) attrs at false now r c h t = cc

-- What a Rename needs of the place that it names; the other commands need nothing.
abbrev pub Proper : Store → Command → Type 0
Proper s (rename now q) = Aims s q
Proper s _ = Unit

apply_command-Since :
    {past : Past} (s s' : Store) (c : Command) (r : ℕ) (a : ApplySuccess)
    → apply_command s c r ≡ ok (s', a)
    → Proper s c
    → Since past s
    → Since past s'
unfolding apply_command
apply_command-Since s s' (bootstrap_namespace now g) r a h p t =
    let ((s1, e), h1, h2) = >>=-eq-ok (apply_bootstrap_namespace s g now r) _ h in
    let at : s1 ≡ s' = ground (arith, h2) in
    subst (Since _) at (bootstrap-Since s s1 g now r e h1 t)
apply_command-Since s s' (create_directory now root components attrs recursive) r a h p t =
    let ((s1, c, as'), h1, h2) =
      >>=-eq-ok (apply_directory s root components attrs recursive now r) _ h in
    let at : s1 ≡ s' = ground (arith, h2) in
    subst (Since _) at (directory-Since s s1 root components attrs as' recursive now r c h1 t)
apply_command-Since s s' (create_file now q) r a h p t =
    let ((s1, x), h1, h2) = >>=-eq-ok (apply_create s q now r) _ h in
    let at : s1 ≡ s' = ground (arith, h2) in subst (Since _) at (create-Since s s1 q now r x h1 t)
apply_command-Since s s' (delete now q) r a h p t =
    let (s1, h1, h2) =
      >>=-eq-ok
        (apply_delete s q.mount_id q.expected_mount_epoch q.mount_root_inode_id
          q.relative_components q.expected_inode_id q.expected_file_lease_epoch q.recursive now r)
        _ h in
    let at : s1 ≡ s' = ground (arith, h2) in
    subst (Since _) at (
      delete-Since s s1 q.mount_id q.expected_mount_epoch q.mount_root_inode_id
        q.relative_components q.expected_inode_id q.expected_file_lease_epoch q.recursive now r h1
        t)
apply_command-Since s s' (rename now q) r a h p t =
    let (s1, h1, h2) = >>=-eq-ok (apply_rename s q now r) _ h in
    let at : s1 ≡ s' = ground (arith, h2) in subst (Since _) at (rename-Since s s1 q now r h1 p t)
apply_command-Since s s' (on_file c) r a h p t =
    let ((s1, x), h1, h2) = >>=-eq-ok (FileCommand.apply_command s c r) _ h in
    let at : s1 ≡ s' = ground (arith, h2) in subst (Since _) at (file-Since s s1 c r x h1 t)

-- A committed entry keeps the invariant, also where the command is rejected.
pub apply_committed-Since :
    {past : Past} (s s' : Store) (c : Command) (r : ℕ) (a : CommittedApply)
    → apply_committed s c r ≡ ok (s', a)
    → Proper s c
    → Since past s
    → Since past s'
unfolding apply_committed respond commit_applied_state
apply_committed-Since {past} s s' c r a h p t = go (apply_command s c r) refl h
  where
    go :
        (m : Result MetadataError (Store × ApplySuccess))
        → apply_command s c r ≡ m
        → respond s c r m ≡ ok (s', a)
        → Since past s'
    go (ok (s1, b)) e q =
        let at : s1 ≡ s' = ground (arith, q) in
        subst (Since _) at (apply_command-Since s s1 c r b e p t)
    go (err x) e q =
        let (y, _, q1) = >>=-eq-ok (from_metadata_error x) _ q in
        let at : commit_applied_state s r ≡ s' = ground (arith, q1) in subst (Since _) at t
    go panic e q = cc

-- One of these stores.
abbrev pub Among : Store → List Store → Type 0
Among o [] = ⊥
Among o (s ∷ stores) = (o ≡ s) ⊎ Among o stores

-- A Rename is proposed with what one of these stores holds.
abbrev pub Proposed : List Store → Command → Type 0
Proposed stores (rename now q) = (o : Store) × Among o stores × Resolved o q
Proposed stores _ = Unit

-- The stores of a node, with those before it: a bootstrap of a blank store, then committed commands
-- other than RegisterWorkerDescriptor and ReclaimDetachedRoots, each Rename proposed by a service
-- that has read one of the stores so far.
pub data Reaches : List Store → Store → Type 0 where
  bootstrapped :
      (s s' : Store) (g : GroupName) (now r : ℕ) (e : MountEntry)
      → IsBlank s
      → apply_bootstrap_namespace s g now r ≡ ok (s', e)
      → Reaches [] s'
  commits :
      (past : List Store) (s s' : Store) (c : Command) (r : ℕ) (a : CommittedApply)
      → Reaches past s
      → Proposed (s ∷ past) c
      → apply_committed s c r ≡ ok (s', a)
      → Reaches (s ∷ past) s'

-- An earlier store was a namespace, and its inodes are what they were, or gone.
abbrev pub Remembers : Store → Store → Type 0
Remembers o s = (t : IsNamespace o) × Since (past_of o t) s

abbrev pub RemembersAll : List Store → Store → Type 0
RemembersAll [] s = Unit
RemembersAll (o ∷ past) s = Remembers o s × RemembersAll past s

recall : (past : List Store) (o s : Store) → Among o past → RemembersAll past s → Remembers o s
recall [] o s among known = elim among [ ]
recall (p ∷ past) o s (inl same) (first, rest) = subst (λ x. Remembers x s) (sym same) first
recall (p ∷ past) o s (inr later) (first, rest) = recall past o s later rest

proper :
    (past : List Store) (s : Store) (c : Command)
    → Proposed past c
    → RemembersAll past s
    → Proper s c
proper past s (rename now q) (o, among, resolved) known =
    let (t, since) = recall past o s among known in Resolved-Aims o s q t since resolved
proper past s (bootstrap_namespace _ _) p known = tt
proper past s (create_directory _ _ _ _ _) p known = tt
proper past s (create_file _ _) p known = tt
proper past s (delete _ _) p known = tt
proper past s (on_file _) p known = tt

remember :
    (past : List Store) (s s' : Store) (c : Command) (r : ℕ) (a : CommittedApply)
    → apply_committed s c r ≡ ok (s', a)
    → Proper s c
    → RemembersAll past s
    → RemembersAll past s'
remember [] s s' c r a h p known = tt
remember (o ∷ past) s s' c r a h p ((t, since), rest) =
    ((t, apply_committed-Since s s' c r a h p since), remember past s s' c r a h p rest)

-- A store that committed commands, rejected ones included, reach from a bootstrapped one is a
-- namespace, and so was each store before it. An inode of an earlier store is gone, or it has the
-- same mount and is a directory if it was one, or a file if it was one, of the same layout and with
-- a lease epoch, content generation and allocation cursor that have not gone back. An identity below
-- the allocator of an earlier store that no inode had then has none. A Rename is assumed to be
-- proposed from one of the stores so far, in which its parents are inodes of one mount and the
-- destination parent is a directory.
pub Reaches-RemembersAll :
    (past : List Store) (s : Store) → Reaches past s → IsNamespace s × RemembersAll past s
Reaches-RemembersAll _ s (bootstrapped o _ g now r e b h) =
    (bootstrap_blank-Since o s g now r e h b, tt)
Reaches-RemembersAll _ s (commits past o _ c r a reached p h) =
    let (t, known) = Reaches-RemembersAll past o reached in
    let all : RemembersAll (o ∷ past) o = ((t, itself-Since o t), known) in
    let fit = proper (o ∷ past) o c p all in
    (apply_committed-Since o s c r a h fit t, remember (o ∷ past) o s c r a h fit all)

-- What a store has left of one that it came from, or of itself.
pub earlier :
    (past : List Store) (o s : Store) → Reaches past s → Among o (s ∷ past) → Remembers o s
earlier past o s reached among =
    let (t, known) = Reaches-RemembersAll past s reached in
    recall (s ∷ past) o s among ((t, itself-Since s t), known)

-- Every store that committed commands, rejected ones included, reach from a bootstrapped one is a
-- namespace: every name leads from a directory to an inode of the same mount that is not detached,
-- no inode has two names, the root of a mount is a directory of it without a name, detached roots
-- are directories, every inode stands under its own identity below the allocator and every file is
-- valid. A Rename is assumed to be proposed from one of the stores so far, in which its parents are
-- inodes of one mount and the destination parent is a directory.
pub Reaches-IsNamespace : (past : List Store) (s : Store) → Reaches past s → IsNamespace s
Reaches-IsNamespace past s reached = (Reaches-RemembersAll past s reached).0
