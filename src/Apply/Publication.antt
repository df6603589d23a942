-- ===== src/Apply/Publication.antt =====
-- What SyncWrite and CommitFile do to the inode that they publish to
-- (beryl-metadata/src/raft/state_machine/write.rs).
use vecton.Prelude.{
  ℕ, ◌≤◌, ◌≡◌, refl, ◌⊎◌, inl, inr, Bool, true, false, Option, none, some, List, arith, nat_eq,
  Bool-cases, eqb, not, subst, sym, ◌∙◌, option_eq,
}
use mathlib.Core.Bool.{false≢true}
use vecton.Prelude.Maps.{insert}
use vecton.Prelude.Result.{ok, >>=-eq-ok, reject_if, ok_or}
use vecton.Types.Values.{
  InodeId, LeaseEpoch, ClientId, CallId, ContentGeneration, BlockId, checked_next,
}
use vecton.MetadataError.{again, invalid_argument}
use vecton.Inode.{
  FileCommit, Inode, FileData, FilePublication, file, validate, merged_blocks, file_of,
  matches_visible, start_index,
}
use vecton.Inode.Publish.{published, merged_blocks-validate, merged_blocks-matches_visible}
use vecton.Apply.{
  Store, load_file, with_file, apply_publish_file, publish_content, prepare_file_publication,
  commit_new, commit_evidence,
}
use vecton.Inode.Advances.{Advances}
use vecton.Apply.Step.{
  Loads, load_file-Loads, Writes, Step, write-Writes, lease-valid, checked_next-lt,
}

-- The content that a publication leaves behind, new or already visible.
pub record Publishes (p : FilePublication) (i i' : Inode) (f f' : FileData) : Type 0 where
  pub kind : i'.kind ≡ file f'
  pub id : i'.inode_id ≡ i.inode_id
  pub mount : i'.mount_id ≡ i.mount_id
  pub valid : validate i.inode_id f' ≡ ok tt
  pub layout : f'.layout ≡ f.layout
  pub lease_epoch : f'.lease_epoch ≡ f.lease_epoch
  pub generation : f.generation ≤ f'.generation
  pub next_index : f'.next_index ≡ f.next_index
  pub visible : matches_visible p f' ≡ ok true
  pub owner : f.lease_epoch ≡ p.lease_epoch

published-valid :
    (p : FilePublication) (k : InodeId) (f : FileData) (r : List BlockId) (g : ContentGeneration)
    → validate k (published p f r) ≡ ok tt
    → validate k (record f { blocks = r; len = p.target_size; generation = g; last_commit = none })
      ≡ ok tt
unfolding validate
published-valid p k f r g h = h

published-visible :
    (p : FilePublication) (f : FileData) (r : List BlockId) (g : ContentGeneration)
    → matches_visible p (published p f r) ≡ ok true
    → matches_visible p
        (record f { blocks = r; len = p.target_size; generation = g; last_commit = none })
      ≡ ok true
unfolding matches_visible start_index
published-visible p f r g h = h

publish_content-Publishes :
    (i i' : Inode) (f : FileData) (p : FilePublication) (now : ℕ) (g : ContentGeneration) (c : Bool)
    → f.lease_epoch ≡ p.lease_epoch
    → publish_content i f p now ≡ ok (i', g, c)
    → (f' : FileData) × Publishes p i i' f f' × (f'.generation ≡ g)
unfolding publish_content with_file
publish_content-Publishes i i' f p now g c o h =
    let (r, hm, h1) = >>=-eq-ok (merged_blocks p i.inode_id f) _ h in
    let next : checked_next f.generation ≡ some g = ground arith in
    (
      record f { blocks = r; len = p.target_size; generation = g; last_commit = none },
      record {
        kind = ground arith;
        id = ground arith;
        mount = ground arith;
        valid = published-valid p i.inode_id f r g (merged_blocks-validate p i.inode_id f r hm);
        layout = refl;
        lease_epoch = refl;
        generation = omega (arith, checked_next-lt f.generation g next);
        next_index = refl;
        visible = published-visible p f r g (merged_blocks-matches_visible p i.inode_id f r hm);
        owner = o;
      },
      refl,
    )

unchanged-Publishes :
    (i : Inode) (f : FileData) (p : FilePublication)
    → i.kind ≡ file f
    → validate i.inode_id f ≡ ok tt
    → f.lease_epoch ≡ p.lease_epoch
    → matches_visible p f ≡ ok true
    → Publishes p i i f f
unchanged-Publishes i f p k v o m = record {
  kind = k;
  id = refl;
  mount = refl;
  valid = v;
  layout = refl;
  lease_epoch = refl;
  generation = omega arith;
  next_index = refl;
  visible = m;
  owner = o;
}

-- The two ways in which a publication is accepted.
prepare_cases :
    (i i' : Inode) (f : FileData) (p : FilePublication) (now : ℕ) (g : ContentGeneration) (c : Bool)
    → i.kind ≡ file f
    → prepare_file_publication i p now ≡ ok (i', g, c)
    → (f.lease_epoch ≡ p.lease_epoch)
      × (((i' ≡ i) × (g ≡ f.generation) × (matches_visible p f ≡ ok true))
          ⊎ ((publish_content i f p now ≡ ok (i', g, c))
              × (f.generation ≡ p.expected_generation)
              × (f.len ≡ p.expected_file_size)))
unfolding prepare_file_publication file_of
prepare_cases i i' f p now g c k h = ground arith

publish_content-changed :
    (i i' : Inode) (f : FileData) (p : FilePublication) (now : ℕ) (g : ContentGeneration) (c : Bool)
    → publish_content i f p now ≡ ok (i', g, c)
    → c ≡ true
unfolding publish_content
publish_content-changed i i' f p now g c h = ground arith

-- A publication that is accepted leaves exactly its content visible.
pub prepare-Publishes :
    (i i' : Inode) (f : FileData) (p : FilePublication) (now : ℕ) (g : ContentGeneration) (c : Bool)
    → i.kind ≡ file f
    → validate i.inode_id f ≡ ok tt
    → prepare_file_publication i p now ≡ ok (i', g, c)
    → (f' : FileData) × Publishes p i i' f f' × (f'.generation ≡ g) × (c ≡ false → i' ≡ i)
prepare-Publishes i i' f p now g c k v h =
    let (owner, how) = prepare_cases i i' f p now g c k h in
    elim how [
      | inl (same, gen, seen) ↦ (
        f,
        subst (λ t. Publishes p i t f f) (sym same) (unchanged-Publishes i f p k v owner seen),
        sym gen,
        λ _. same,
      )
      | inr (new, _, _) ↦
          let (f', up, gen) = publish_content-Publishes i i' f p now g c owner new in
          (
            f',
            up,
            gen,
            λ no. absurd (false≢true (sym no ∙ publish_content-changed i i' f p now g c new)),
          )
    ]

Publishes-Advances :
    {p : FilePublication} {i i' : Inode} {f f' : FileData} → Publishes p i i' f f' → Advances f f'
Publishes-Advances u = record {
  layout = u.layout;
  lease_epoch = omega (arith, u.lease_epoch);
  generation = u.generation;
  next_index = omega (arith, u.next_index);
}

pub publish-Step :
    (s s' : Store) (k : InodeId) (p : FilePublication) (now r : ℕ) (g : ContentGeneration)
    → apply_publish_file s k p now r ≡ ok (s', g)
    → Step s s' k
unfolding apply_publish_file
publish-Step s s' k p now r g h =
    let ((i, f), hl, h1) = >>=-eq-ok (load_file s k) _ h in
    let ((i', g', c), hp, h2) = >>=-eq-ok (prepare_file_publication i p now) _ h1 in
    let l = load_file-Loads s k i f hl in
    let v : validate i.inode_id f ≡ ok tt = subst (λ t. validate t f ≡ ok tt) (sym l.key) l.valid in
    let (f', u, _, _) = prepare-Publishes i i' f p now g' c l.kind v hp in
    elim (Bool-cases c) [
      | inl changed ↦ inr (
          write-Writes s s' k i i' f f' l u.kind u.id u.mount
            (subst (λ t. validate t f' ≡ ok tt) l.key u.valid) (Publishes-Advances u)
            (ground arith))
      | inr same ↦ inl (ground arith)
    ]

lease-visible :
    (p : FilePublication) (f : FileData) (e : LeaseEpoch) (c : Option FileCommit)
    → matches_visible p f ≡ ok true
    → matches_visible p (record f { lease_epoch = e; last_commit = c }) ≡ ok true
unfolding matches_visible start_index
lease-visible p f e c h = h

file_of-kind : (i : Inode) (f g : FileData) → file_of i ≡ ok f → i.kind ≡ file g → g ≡ f
unfolding file_of
file_of-kind i f g h k = ground arith

-- The file that a commit writes, from the one that the publication leaves.
abbrev committed : FileData → LeaseEpoch → FileCommit → FileData
committed f ended c = record f { lease_epoch = ended; last_commit = some c }

-- A commit that finds no evidence of its operation writes the inode with the published content, the
-- evidence of the operation and the epoch after that of the writer.
pub record Commits (s s' : Store) (k : InodeId) (o : ClientId × CallId) (p : FilePublication)
    (g : ContentGeneration) : Type 0 where
  pub write : Writes s s' k
  pub evidence : write.after.last_commit ≡ some (commit_evidence o p g)
  pub generation : write.after.generation ≡ g
  pub ended : checked_next p.lease_epoch ≡ some write.after.lease_epoch
  pub visible : matches_visible p write.after ≡ ok true

commit_write-Commits :
    (s s' : Store) (k : InodeId) (i i' : Inode) (f f' : FileData) (o : ClientId × CallId)
    (p : FilePublication) (g : ContentGeneration) (ended : LeaseEpoch)
    → Loads s k i f
    → Publishes p i i' f f'
    → f'.generation ≡ g
    → checked_next p.lease_epoch ≡ some ended
    → s'.inodes
      ≡ insert i'.inode_id (with_file i' (committed f' ended (commit_evidence o p g))) s.inodes
    → Commits s s' k o p g
unfolding with_file
commit_write-Commits s s' k i i' f f' o p g ended l u e next st =
    let after : FileData = committed f' ended (commit_evidence o p g) in
    record {
      write =
          write-Writes s s' k i (with_file i' after) f after l refl u.id u.mount
            (lease-valid k f' ended (some (commit_evidence o p g))
              (subst (λ t. validate t f' ≡ ok tt) l.key u.valid))
            (record {
              layout = u.layout;
              lease_epoch = omega (arith, checked_next-lt p.lease_epoch ended next, u.owner);
              generation = u.generation;
              next_index = omega (arith, u.next_index);
            })
            st;
      evidence = refl;
      generation = e;
      ended = next;
      visible = lease-visible p f' ended (some (commit_evidence o p g)) u.visible;
    }

pub commit_new-Commits :
    (s s' : Store) (k : InodeId) (i : Inode) (f : FileData) (o : ClientId × CallId)
    (p : FilePublication) (now r : ℕ) (g : ContentGeneration)
    → Loads s k i f
    → commit_new s i f o p now r ≡ ok (s', g)
    → Commits s s' k o p g
unfolding commit_new
commit_new-Commits s s' k i f o p now r g l h =
    let (_, _, h1) =
      >>=-eq-ok
        (reject_if (not (eqb f.generation p.expected_generation))
          (again "CommitFile generation changed without completion evidence"))
        _ h in
    let (ended, he, h2) =
      >>=-eq-ok (ok_or (invalid_argument "write lease epoch overflow") (checked_next p.lease_epoch))
        _ h1 in
    let ((i', g', c), hp, h3) = >>=-eq-ok (prepare_file_publication i p now) _ h2 in
    let (fx, hf, h4) = >>=-eq-ok (file_of i') _ h3 in
    let v : validate i.inode_id f ≡ ok tt = subst (λ t. validate t f ≡ ok tt) (sym l.key) l.valid in
    let (f', u, e, _) = prepare-Publishes i i' f p now g' c l.kind v hp in
    let same = file_of-kind i' fx f' hf u.kind in
    let gg : g' ≡ g = ground (arith, h4) in
    commit_write-Commits s s' k i i' f fx o p g ended l (subst (Publishes p i i' f) same u)
      (ground (arith, e, same, gg)) (ground (arith, he)) (ground arith)
