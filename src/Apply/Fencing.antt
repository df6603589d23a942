-- ===== src/Apply/Fencing.antt =====
-- Old writers, block identities and repeated commits
-- (beryl-metadata/src/raft/state_machine/write.rs).
use vecton.Prelude.{
  ℕ, ◌≡◌, Bool, true, Option, none, some, arith, nat_eq, eqb_iff, subst, sym, ◌∙◌, ap,
}
use vecton.Prelude.Maps.{get, get-insert_self}
use vecton.Prelude.Result.{ok, >>=-eq-ok}
use vecton.Types.Values.{
  InodeId, LeaseEpoch, ClientId, CallId, ContentGeneration, BlockId, checked_next,
}
use vecton.Inode.{
  Inode, FileData, FilePublication, file, resolve_commit, file_of, matches_visible, start_index,
}
use vecton.Apply.{
  Store, load_file, apply_allocate_block, apply_commit_file, commit_new, commit_applied_state,
  prepare_file_publication, commit_evidence, ensure_file_inode_authority,
}
use vecton.Apply.Step.{load_file-Loads, Writes}
use vecton.Apply.Publication.{commit_new-Commits}

-- What an allocation returns and writes.
pub allocate-index :
    (s s' : Store) (k : InodeId) (e : LeaseEpoch) (r : ℕ) (b : BlockId)
    → apply_allocate_block s k e r ≡ ok (s', b)
    → (i : Inode) × (f : FileData) × (load_file s k ≡ ok (i, f))
      × (f.lease_epoch ≡ e)
      × (b.index ≡ f.next_index)
      × (b.inode_id ≡ k)
unfolding apply_allocate_block
allocate-index s s' k e r b h =
    let ((i, f), hl, h1) = >>=-eq-ok (load_file s k) _ h in
    (i, f, hl, ground (arith, h1), ground (arith, h1), ground (arith, h1))

pub prepare-owner :
    (j : Inode) (g : FileData) (p : FilePublication) (now : ℕ)
    (x : Inode × ContentGeneration × Bool)
    → j.kind ≡ file g
    → prepare_file_publication j p now ≡ ok x
    → g.lease_epoch ≡ p.lease_epoch
unfolding prepare_file_publication file_of
prepare-owner j g p now x e h = ground arith

-- A file that a write has stored is loaded again.
Writes-load :
    (s s' : Store) (k : InodeId) (w : Writes s s' k) → load_file s' k ≡ ok (w.new, w.after)
unfolding load_file ensure_file_inode_authority
Writes-load s s' k w =
    let found : get k s'.inodes ≡ some w.new =
      ap (get k) w.stored ∙ get-insert_self k w.new s.inodes in
    ground (arith, found, w.kind, w.valid, eqb_iff w.new.inode_id k, w.key)

matches_visible-len :
    (p : FilePublication) (f : FileData) → matches_visible p f ≡ ok true → f.len ≡ p.target_size
unfolding matches_visible
matches_visible-len p f h =
    let (start, _, h1) = >>=-eq-ok (start_index p f) _ h in ground (arith, h1)

-- The evidence in an inode answers its own operation.
resolve_commit-evidence :
    (p : FilePublication) (i : Inode) (f : FileData) (o : ClientId × CallId) (g : ContentGeneration)
    → i.kind ≡ file f
    → f.last_commit ≡ some (commit_evidence o p g)
    → f.generation ≡ g
    → checked_next p.lease_epoch ≡ some f.lease_epoch
    → matches_visible p f ≡ ok true
    → resolve_commit p i o.0 o.1 ≡ ok (some g)
unfolding resolve_commit commit_evidence
resolve_commit-evidence p i f (ci, ca) g k c e n m = ground (arith, matches_visible-len p f m)

resolved :
    (s : Store) (k : InodeId) (i : Inode) (f : FileData) (o : ClientId × CallId)
    (p : FilePublication) (now r : ℕ) (g : ContentGeneration)
    → load_file s k ≡ ok (i, f)
    → resolve_commit p i o.0 o.1 ≡ ok (some g)
    → apply_commit_file s k o p now r ≡ ok (commit_applied_state s r, g)
unfolding apply_commit_file
resolved s k i f o p now r g l e = rw (l, e)

load_file-applied :
    (s : Store) (k : InodeId) (r : ℕ) (i : Inode) (f : FileData)
    → load_file s k ≡ ok (i, f)
    → load_file (commit_applied_state s r) k ≡ ok (i, f)
unfolding load_file commit_applied_state
load_file-applied s k r i f h = h

-- A commit that is repeated after it was applied returns its generation again and changes no inode.
pub commit_twice :
    (s s' : Store) (k : InodeId) (o : ClientId × CallId) (p : FilePublication) (now r now' r' : ℕ)
    (g : ContentGeneration)
    → apply_commit_file s k o p now r ≡ ok (s', g)
    → apply_commit_file s' k o p now' r' ≡ ok (commit_applied_state s' r', g)
unfolding apply_commit_file
commit_twice s s' k o p now r now' r' g h =
    let ((i, f), hl, h1) = >>=-eq-ok (load_file s k) _ h in
    let (done, hr, h2) = >>=-eq-ok (resolve_commit p i o.0 o.1) _ h1 in branch i f hl done hr h2
  where
    branch :
        (i : Inode) (f : FileData)
        → load_file s k ≡ ok (i, f)
        → (done : Option ContentGeneration) → resolve_commit p i o.0 o.1 ≡ ok done
        → elim done [
          | some generation ↦ ok (commit_applied_state s r, generation)
          | none ↦ commit_new s i f o p now r
        ]
          ≡ ok (s', g)
        → apply_commit_file s' k o p now' r' ≡ ok (commit_applied_state s' r', g)
    branch i f l (some x) hr e =
        let same : s' ≡ commit_applied_state s r = ground (arith, e) in
        let gen : x ≡ g = ground (arith, e) in
        resolved s' k i f o p now' r' g
          (subst (λ t. load_file t k ≡ ok (i, f)) (sym same) (load_file-applied s k r i f l))
          (hr ∙ ap (λ y. ok (some y)) gen)
    branch i f l none hr e =
        let c = commit_new-Commits s s' k i f o p now r g (load_file-Loads s k i f l) e in
        resolved s' k c.write.new c.write.after o p now' r' g (Writes-load s s' k c.write) (
          resolve_commit-evidence p c.write.new c.write.after o g c.write.kind c.evidence
            c.generation c.ended c.visible)
