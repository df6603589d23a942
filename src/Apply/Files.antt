-- ===== src/Apply/Files.antt =====
-- What each file command of the state machine writes
-- (beryl-metadata/src/raft/state_machine/write.rs and mod.rs).
use vecton.Prelude.{ℕ, ◌≡◌, inl, inr, Option, none, some, arith, nat_eq, subst}
use vecton.Prelude.Result.{ok, >>=-eq-ok, ok_or}
use vecton.Types.Values.{InodeId, ClientId, CallId, ContentGeneration, checked_next}
use vecton.MetadataError.{invalid_argument}
use vecton.Inode.{Inode, FileData, FilePublication, resolve_commit}
use vecton.Apply.{
  Store, load_file, apply_allocate_block, apply_acquire_write_lease, apply_end_write_lease,
  apply_publish_file, apply_commit_file, commit_new, commit_applied_state,
}
use vecton.Apply.Command.{
  Command, ApplySuccess, acquire_write_lease, allocate_block, end_write_lease, publish_file,
  commit_file, apply_command,
}
use vecton.Apply.Step.{Loads, load_file-Loads, Writes, Step, allocate-Step, acquire-Step, end-Step}
use vecton.Apply.Publication.{publish-Step, commit_new-Commits}

pub commit-Step :
    (s s' : Store) (k : InodeId) (o : ClientId × CallId) (p : FilePublication) (now r : ℕ)
    (g : ContentGeneration)
    → apply_commit_file s k o p now r ≡ ok (s', g)
    → Step s s' k
unfolding apply_commit_file
commit-Step s s' k o p now r g h =
    let ((i, f), hl, h1) = >>=-eq-ok (load_file s k) _ h in
    let (done, hr, h2) = >>=-eq-ok (resolve_commit p i o.0 o.1) _ h1 in
    branch i f (load_file-Loads s k i f hl) done h2
  where
    branch :
        (i : Inode) (f : FileData)
        → Loads s k i f
        → (done : Option ContentGeneration)
        → elim done [
          | some generation ↦ ok (commit_applied_state s r, generation)
          | none ↦ commit_new s i f o p now r
        ]
          ≡ ok (s', g)
        → Step s s' k
    branch i f l (some x) e = inl (ground arith)
    branch i f l none e = inr (commit_new-Commits s s' k i f o p now r g l e).write

-- The inode that a command is about.
abbrev pub target : Command → InodeId
target (acquire_write_lease _ k _) = k
target (allocate_block k _) = k
target (end_write_lease k _) = k
target (publish_file _ k _) = k
target (commit_file _ k _ _ _) = k

pub apply_command-Step :
    (s s' : Store) (c : Command) (r : ℕ) (a : ApplySuccess)
    → apply_command s c r ≡ ok (s', a)
    → Step s s' (target c)
unfolding apply_command
apply_command-Step s s' (acquire_write_lease now k e) r a h =
    let ((s1, n), h1, h2) = >>=-eq-ok (apply_acquire_write_lease s k e now r) _ h in
    let w = acquire-Step s s1 k e now r n h1 in
    inr (subst (λ t. Writes s t k) (ground (arith, h2)) w)
apply_command-Step s s' (allocate_block k e) r a h =
    let ((s1, b), h1, h2) = >>=-eq-ok (apply_allocate_block s k e r) _ h in
    let w = allocate-Step s s1 k e r b h1 in inr (subst (λ t. Writes s t k) (ground (arith, h2)) w)
apply_command-Step s s' (end_write_lease k e) r a h =
    let ((s1, n), h1, h2) = >>=-eq-ok (apply_end_write_lease s k e r) _ h in
    subst (λ t. Step s t k) (ground (arith, h2)) (end-Step s s1 k e r n h1)
apply_command-Step s s' (publish_file now k p) r a h =
    let ((s1, g), h1, h2) = >>=-eq-ok (apply_publish_file s k p now r) _ h in
    subst (λ t. Step s t k) (ground (arith, h2)) (publish-Step s s1 k p now r g h1)
apply_command-Step s s' (commit_file now k ci ca p) r a h =
    let (_, _, h0) =
      >>=-eq-ok (ok_or (invalid_argument "write lease epoch overflow") (checked_next p.lease_epoch))
        _ h in
    let ((s1, g), h1, h2) = >>=-eq-ok (apply_commit_file s k (ci, ca) p now r) _ h0 in
    subst (λ t. Step s t k) (ground (arith, h2)) (commit-Step s s1 k (ci, ca) p now r g h1)
