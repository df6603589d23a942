-- ===== src/StateMachine/Answers.antt =====
-- Which errors a command on a file can end in
-- (beryl-metadata/src/raft/state_machine/write.rs and raft/response.rs).
use vecton.Prelude.{
  ◌++◌, option_eq, ℕ, ◌≡◌, refl, sym, subst, Bool, true, false, some, List, [], ◌∷◌, suc, arith,
  nat_eq, eqb_iff, inl, inr, Option-cases,
}
use vecton.Prelude.Maps.{get}
use vecton.Prelude.Result.{Result, ok, err, panic, ◌>>=◌}
use vecton.Types.Values.{InodeId, LeaseEpoch, BlockId, CommittedBlock}
use vecton.MetadataError.{MetadataError}
use vecton.Inode.{
  Inode, FileData, FilePublication, PublishMode, file, validate, block_count, check_lens,
  start_index, kept_blocks, push_blocks, first_changed, merged_blocks, matches_visible, file_of,
}
use vecton.Storage.{Store}
use vecton.Apply.{
  ApplyRejection, FatalApplyError, from_metadata_error, load_file, ensure_file_inode_authority,
  apply_allocate_block, apply_end_write_lease, apply_publish_file, prepare_file_publication,
  publish_content, commit_applied_state,
}
use vecton.Apply.Command as FileCommand
use vecton.Apply.Step.{load_file-Loads}
use vecton.Namespace.Tree.{IsNamespace}
use vecton.StateMachine.Invariant.{Among, Reaches, earlier, Reaches-IsNamespace}
use vecton.StateMachine.{
  committed, routing_intent, rejection, Command, on_file, CommittedApply, apply_command,
  apply_committed, respond, ApplySuccess,
}

abbrev is_rejection : MetadataError → Bool
is_rejection e = elim (from_metadata_error e) [ ok _ ↦ true | err _ ↦ false | panic ↦ false ]

-- A success, or an error that is a rejection.
unfoldable answered : {A : Type 0} → Result MetadataError A → Bool
answered panic = false
answered (err e) = is_rejection e
answered (ok a) = true

answered-bind :
    {A B : Type 0} (m : Result MetadataError A) (next : A → Result MetadataError B)
    → answered m ≡ true
    → ((a : A) → m ≡ ok a → answered (next a) ≡ true)
    → answered (m >>= next) ≡ true
unfolding answered
answered-bind panic next h more = h
answered-bind (err e) next h more = h
answered-bind (ok a) next h more = more a refl

block_count-answered : (len capacity : ℕ) → answered (block_count len capacity) ≡ true
unfolding answered block_count from_metadata_error
block_count-answered len capacity = ground arith

check_lens-answered :
    (target_size capacity ordinal : ℕ) (blocks : List CommittedBlock)
    → answered (check_lens target_size capacity ordinal blocks) ≡ true
unfolding answered check_lens from_metadata_error
check_lens-answered target_size capacity ordinal [] = refl
check_lens-answered target_size capacity ordinal (b ∷ bs) =
    ground (arith, check_lens-answered target_size capacity (suc ordinal) bs)

first_changed-answered :
    (p : FilePublication) (capacity count : ℕ) → answered (first_changed p capacity count) ≡ true
unfolding answered first_changed from_metadata_error
first_changed-answered p capacity count = ground arith

start_index-answered : (p : FilePublication) (f : FileData) → answered (start_index p f) ≡ true
unfolding answered start_index from_metadata_error
start_index-answered p f =
    answered-bind (block_count p.target_size f.layout.block_size) _
      (block_count-answered p.target_size f.layout.block_size)
      (λ count _.
        answered-bind (first_changed p f.layout.block_size count) _
          (first_changed-answered p f.layout.block_size count)
          (λ start _.
            ground (arith, check_lens-answered p.target_size f.layout.block_size start p.blocks)))

kept_blocks-answered :
    (p : FilePublication) (f : FileData) (start : ℕ) → answered (kept_blocks p f start) ≡ true
unfolding answered kept_blocks from_metadata_error
kept_blocks-answered p f start = ground arith

push_blocks-answered :
    (k : InodeId) (f : FileData) (mode : PublishMode) (seen blocks : List BlockId)
    (bs : List CommittedBlock)
    → answered (push_blocks k f mode seen blocks bs) ≡ true
unfolding answered push_blocks from_metadata_error
push_blocks-answered k f mode seen blocks [] = refl
push_blocks-answered k f mode seen blocks (b ∷ bs) =
    ground (arith, push_blocks-answered k f mode (b.block_id ∷ seen) (blocks ++ b.block_id ∷ []) bs)

merged_blocks-answered :
    (p : FilePublication) (k : InodeId) (f : FileData)
    → validate k f ≡ ok tt
    → answered (merged_blocks p k f) ≡ true
unfolding merged_blocks
merged_blocks-answered p k f valid = rw valid (
    answered-bind (start_index p f) _ (start_index-answered p f) (λ start _.
      answered-bind (kept_blocks p f start) _ (kept_blocks-answered p f start)
        (λ blocks _. push_blocks-answered k f p.mode blocks blocks p.blocks)))

matches_visible-answered :
    (p : FilePublication) (f : FileData) → answered (matches_visible p f) ≡ true
unfolding answered matches_visible
matches_visible-answered p f =
    answered-bind (start_index p f) _ (start_index-answered p f) (λ start _. refl)

publish_content-answered :
    (i : Inode) (f : FileData) (p : FilePublication) (now : ℕ)
    → validate i.inode_id f ≡ ok tt
    → answered (publish_content i f p now) ≡ true
unfolding answered publish_content from_metadata_error
publish_content-answered i f p now valid =
    answered-bind (merged_blocks p i.inode_id f) _ (merged_blocks-answered p i.inode_id f valid)
      (λ blocks _. ground arith)

prepare-answered :
    (i : Inode) (f : FileData) (p : FilePublication) (now : ℕ)
    → i.kind ≡ file f
    → validate i.inode_id f ≡ ok tt
    → answered (prepare_file_publication i p now) ≡ true
unfolding answered prepare_file_publication file_of from_metadata_error
prepare-answered i f p now kind valid =
    rw kind (ground (arith, matches_visible-answered p f, publish_content-answered i f p now valid))

-- Where an inode is not a directory, it passes the checks with which each command begins.
abbrev NoDir : Store → InodeId → Type 0
NoDir s k = (i : Inode) → get k s.inodes ≡ some i → (f : FileData) × (i.kind ≡ file f)

load_file-answered :
    (s : Store) (k : InodeId) → IsNamespace s → NoDir s k → answered (load_file s k) ≡ true
unfolding answered load_file ensure_file_inode_authority from_metadata_error
load_file-answered s k t only = elim (Option-cases (get k s.inodes)) [
  | inl absent ↦ ground (arith, absent)
  | inr (i, found) ↦
      let (f, kind) = only i found in
      ground
        (arith, found, kind, (t.key k i found).0, eqb_iff i.inode_id k, t.valid k i f found kind)
]

module _ (s : Store) (k : InodeId) (t : IsNamespace s) (only : NoDir s k) where
  allocate-answered : (e : LeaseEpoch) (r : ℕ) → answered (apply_allocate_block s k e r) ≡ true
  unfolding answered apply_allocate_block from_metadata_error
  allocate-answered e r =
      answered-bind (load_file s k) _ (load_file-answered s k t only) (λ x _. ground arith)

  end-answered : (e : LeaseEpoch) (r : ℕ) → answered (apply_end_write_lease s k e r) ≡ true
  unfolding answered apply_end_write_lease from_metadata_error
  end-answered e r =
      answered-bind (load_file s k) _ (load_file-answered s k t only) (λ x _. ground arith)

  publish-answered :
      (p : FilePublication) (now r : ℕ) → answered (apply_publish_file s k p now r) ≡ true
  unfolding answered apply_publish_file
  publish-answered p now r = answered-bind (load_file s k) _ (load_file-answered s k t only) (λ x h.
      let l = load_file-Loads s k x.0 x.1 h in
      answered-bind (prepare_file_publication x.0 p now) _
        (prepare-answered x.0 x.1 p now l.kind
          (subst (λ j. validate j x.1 ≡ ok tt) (sym l.key) l.valid))
        (λ y _. refl))

-- The node goes on with a response.
abbrev pub Responds : Store → FileCommand.Command → ℕ → Type 0
Responds s c r = (x : Store × CommittedApply) × (apply_committed s (on_file c) r ≡ ok x)

respond-answered :
    (s : Store) (c : Command) (r : ℕ) (m : Result MetadataError (Store × ApplySuccess))
    → answered m ≡ true
    → (x : Store × CommittedApply) × (respond s c r m ≡ ok x)
unfolding answered respond
respond-answered s c r panic h = cc
respond-answered s c r (ok (s', a)) h = (_, refl)
respond-answered s c r (err e) h = go (from_metadata_error e) refl h
  where
    go :
        (m : Result FatalApplyError ApplyRejection)
        → from_metadata_error e ≡ m
        → elim m [ ok _ ↦ true | err _ ↦ false | panic ↦ false ] ≡ true
        → (x : Store × CommittedApply) × (respond s c r (err e) ≡ ok x)
    go (ok y) at h =
        ((commit_applied_state s r, committed (routing_intent c) (rejection y)), rw at refl)
    go (err y) at h = cc
    go panic at h = cc

command-Responds :
    (s : Store) (c : FileCommand.Command) (r : ℕ)
    → answered (FileCommand.apply_command s c r) ≡ true
    → Responds s c r
unfolding apply_committed apply_command answered
command-Responds s c r h =
    respond-answered s (on_file c) r (apply_command s (on_file c) r)
      (answered-bind (FileCommand.apply_command s c r) _ h (λ x _. refl))

-- Where a store so far holds a file, an AllocateBlock, an EndWriteLease and a PublishFile of that
-- inode, whatever they carry, are each answered with a success or a rejection and do not stop the
-- node, also where the file is gone. The commands since are any but RegisterWorkerDescriptor and
-- ReclaimDetachedRoots. A Rename is assumed to be proposed from one of the stores so far, in which
-- its parents are inodes of one mount and the destination parent is a directory.
pub file_commands-Responds :
    (past : List Store) (s t : Store) (k : InodeId) (i : Inode) (f : FileData)
    → Reaches past t
    → Among s (t ∷ past)
    → get k s.inodes ≡ some i
    → i.kind ≡ file f
    → (e : LeaseEpoch) (p : FilePublication) (now r : ℕ)
    → Responds t (FileCommand.allocate_block k e) r
      × Responds t (FileCommand.end_write_lease k e) r
      × Responds t (FileCommand.publish_file now k p) r
unfolding FileCommand.apply_command answered
file_commands-Responds past s t k i f reached among found kind e p now r =
    let (_, since) = earlier past s t reached among in
    let tree = Reaches-IsNamespace past t reached in
    let only : NoDir t k = λ j g.
      let (f', kind', _) = (since.steady.kept k i j found g).file_advances f kind in (f', kind') in
    (
      command-Responds t (FileCommand.allocate_block k e) r (
          answered-bind (apply_allocate_block t k e r) _ (allocate-answered t k tree only e r)
            (λ x _. refl)),
      command-Responds t (FileCommand.end_write_lease k e) r (
          answered-bind (apply_end_write_lease t k e r) _ (end-answered t k tree only e r)
            (λ x _. refl)),
      command-Responds t (FileCommand.publish_file now k p) r (
          answered-bind (apply_publish_file t k p now r) _ (publish-answered t k tree only p now r)
            (λ x _. refl)),
    )
