-- ===== src/StateMachine/Changes.antt =====
-- The file commands leave the names alone, and keep the invariant of the namespace
-- (beryl-metadata/src/raft/state_machine/write.rs).
use vecton.Prelude.{
  ℕ, ◌≡◌, refl, subst, inl, inr, not, some, arith, nat_eq, Bool-cases, Option-cases, eqb,
  if◌then◌else◌,
}
use vecton.Prelude.Result.{ok, >>=-eq-ok, check_passed, value_found}
use vecton.Types.Values.{InodeId, ClientId, CallId, ContentGeneration, checked_next}
use vecton.Inode.{Inode, FileData, FilePublication, file_of, validate, resolve_commit}
use vecton.Storage.{Store}
use vecton.Apply.{
  load_file, with_file, apply_allocate_block, apply_acquire_write_lease, apply_end_write_lease,
  apply_publish_file, apply_commit_file, commit_new, prepare_file_publication, commit_evidence,
  put_inode_atomic, commit_applied_state,
}
use vecton.Apply.Command.{
  Command, ApplySuccess, acquire_write_lease, allocate_block, end_write_lease, publish_file,
  commit_file, apply_command,
}
use vecton.Apply.Files.{apply_command-Step, target}
use vecton.Inode.Advances.{Advances}
use vecton.Apply.Step.{Writes}
use vecton.Namespace.Tree.{Past, Since, Remains}
use vecton.Namespace.Tree.Remaining.{Remains-same, Remains-trans}
use vecton.Namespace.Tree.Changes.{put_inode}

-- A store with the same names, markers and mounts.
pub record SameNames (s s' : Store) : Type 0 where
  pub dentries : s'.dentries ≡ s.dentries
  pub detached : s'.detached_roots ≡ s.detached_roots
  pub mounts : s'.mounts ≡ s.mounts
  pub next : s'.next_inode_id ≡ s.next_inode_id

put-SameNames : (s : Store) (i : Inode) (r : ℕ) → SameNames s (put_inode_atomic s i r)
unfolding put_inode_atomic
put-SameNames s i r = record { dentries = refl; detached = refl; mounts = refl; next = refl }

commit-SameNames : (s : Store) (r : ℕ) → SameNames s (commit_applied_state s r)
unfolding commit_applied_state
commit-SameNames s r = record { dentries = refl; detached = refl; mounts = refl; next = refl }

publish-SameNames :
    (s s' : Store) (k : InodeId) (p : FilePublication) (now r : ℕ) (g : ContentGeneration)
    → apply_publish_file s k p now r ≡ ok (s', g)
    → SameNames s s'
unfolding apply_publish_file
publish-SameNames s s' k p now r g h =
    let ((i, _), _, h1) = >>=-eq-ok (load_file s k) _ h in
    let ((i', x, changed), _, h2) = >>=-eq-ok (prepare_file_publication i p now) _ h1 in
    let at : (if changed then put_inode_atomic s i' r else commit_applied_state s r) ≡ s' =
      ground (arith, h2) in
    subst (SameNames s) at (elim (Bool-cases changed) [
      | inl new ↦ rw new (put-SameNames s i' r)
      | inr old ↦ rw old (commit-SameNames s r)
    ])

commit_new-SameNames :
    (s s' : Store) (i : Inode) (f : FileData) (o : ClientId × CallId) (p : FilePublication)
    (now r : ℕ) (g : ContentGeneration)
    → commit_new s i f o p now r ≡ ok (s', g)
    → SameNames s s'
unfolding commit_new
commit_new-SameNames s s' i f o p now r g h =
    let (_, h1) = check_passed (not (eqb f.generation p.expected_generation)) _ _ h in
    let (n, _, h2) = value_found _ (checked_next p.lease_epoch) _ h1 in
    let ((i', x, _), _, h3) = >>=-eq-ok (prepare_file_publication i p now) _ h2 in
    let (f', _, h4) = >>=-eq-ok (file_of i') _ h3 in
    let j =
      with_file i' (record f' { lease_epoch = n; last_commit = some (commit_evidence o p x) }) in
    let at : put_inode_atomic s j r ≡ s' = ground (arith, h4) in
    subst (SameNames s) at (put-SameNames s j r)

commit_file-SameNames :
    (s s' : Store) (k : InodeId) (ci : ClientId) (ca : CallId) (p : FilePublication) (now r : ℕ)
    (g : ContentGeneration)
    → apply_commit_file s k (ci, ca) p now r ≡ ok (s', g)
    → SameNames s s'
unfolding apply_commit_file
commit_file-SameNames s s' k ci ca p now r g h =
    let ((i, f), _, h1) = >>=-eq-ok (load_file s k) _ h in
    let (done, _, h2) = >>=-eq-ok (resolve_commit p i ci ca) _ h1 in
    elim (Option-cases done) [
      | inl new ↦ commit_new-SameNames s s' i f (ci, ca) p now r g (rw new at h2)
      | inr (x, old) ↦
          let at : commit_applied_state s r ≡ s' = ground (arith, h2, old) in
          subst (SameNames s) at (commit-SameNames s r)
    ]

file-SameNames :
    (s s' : Store) (c : Command) (r : ℕ) (a : ApplySuccess)
    → apply_command s c r ≡ ok (s', a)
    → SameNames s s'
unfolding apply_command apply_acquire_write_lease apply_allocate_block apply_end_write_lease
    put_inode_atomic commit_applied_state
file-SameNames s s' (acquire_write_lease now k e) r a h = record {
  dentries = ground (arith, h);
  detached = ground (arith, h);
  mounts = ground (arith, h);
  next = ground (arith, h);
}
file-SameNames s s' (allocate_block k e) r a h = record {
  dentries = ground (arith, h);
  detached = ground (arith, h);
  mounts = ground (arith, h);
  next = ground (arith, h);
}
file-SameNames s s' (end_write_lease k e) r a h = record {
  dentries = ground (arith, h);
  detached = ground (arith, h);
  mounts = ground (arith, h);
  next = ground (arith, h);
}
file-SameNames s s' (publish_file now k p) r a h =
    let ((s1, g), h1, h2) = >>=-eq-ok (apply_publish_file s k p now r) _ h in
    subst (SameNames s) (ground (arith, h2)) (publish-SameNames s s1 k p now r g h1)
file-SameNames s s' (commit_file now k ci ca p) r a h =
    let (_, _, h0) = value_found _ (checked_next p.lease_epoch) _ h in
    let ((s1, g), h1, h2) = >>=-eq-ok (apply_commit_file s k (ci, ca) p now r) _ h0 in
    subst (SameNames s) (ground (arith, h2)) (commit_file-SameNames s s1 k ci ca p now r g h1)

written : {s s' : Store} {k : InodeId} (w : Writes s s' k) → Remains w.old w.new
written w = record {
  directory = λ d. absurd (ground (arith, w.loads.kind, d));
  file_advances = λ f e.
      let same : w.before ≡ f = ground (arith, w.loads.kind, e) in
      (w.after, w.kind, subst (λ x. Advances x w.after) same w.advances);
  mount = w.mount;
}

pub file-Since :
    {past : Past} (s s' : Store) (c : Command) (r : ℕ) (a : ApplySuccess)
    → apply_command s c r ≡ ok (s', a)
    → Since past s
    → Since past s'
file-Since s s' c r a h t =
    let e = file-SameNames s s' c r a h in
    rw (e.dentries, e.detached, e.mounts, e.next)
      (elim (apply_command-Step s s' c r a h) [
        | inl same ↦ rw same t
        | inr w ↦
            rw (w.stored, t.next_is)
              (put_inode t (target c) w.new t.next t.next w.key
                (t.key (target c) w.old w.loads.found).1 (omega arith) (omega arith)
                (λ free. absurd (ground (arith, free, w.loads.found)))
                (λ f is.
                  subst (λ (x : FileData). validate (target c) x ≡ ok tt)
                    (ground (arith, w.kind, is)) w.valid)
                (λ o g.
                  Remains-trans (Remains-same o w.old (ground (arith, g, w.loads.found)))
                    (written w)))
      ])
