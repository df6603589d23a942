-- ===== src/StateMachine/Fencing.antt =====
-- Old writers and block identities along the committed commands
-- (beryl-metadata/src/raft/state_machine/mod.rs and write.rs).
use vecton.Prelude.{ℕ, ◌<◌, ◌≡◌, ◌≢◌, List, ◌∷◌, some, arith, nat_eq, subst, ap, ◌∙◌}
use vecton.Prelude.Maps.{get, get-insert_self}
use vecton.Prelude.Result.{ok}
use vecton.Types.Values.{InodeId, LeaseEpoch, BlockId}
use vecton.Inode.{Inode, FileData, file}
use vecton.Inode.Advances.{Advances}
use vecton.Storage.{Store}
use vecton.Apply.{load_file, apply_allocate_block}
use vecton.Apply.Step.{load_file-Loads, allocate-Writes}
use vecton.Apply.Fencing.{allocate-index}
use vecton.StateMachine.Invariant.{Among, Reaches, earlier}

-- A file that a later store loads is the file of an earlier one, further on.
module _ (past : List Store) (s t : Store) (k : InodeId) (i : Inode) (f : FileData)
    (reached : Reaches past t) (among : Among s (t ∷ past)) (found : get k s.inodes ≡ some i)
    (kind : i.kind ≡ file f) where
  load_file-Advances : (j : Inode) (g : FileData) → load_file t k ≡ ok (j, g) → Advances f g
  load_file-Advances j g h =
      let l = load_file-Loads t k j g h in
      let (_, since) = earlier past s t reached among in
      let (g', kind', advances) = (since.steady.kept k i j found l.found).file_advances f kind in
      subst (Advances f) (ground (arith, kind', l.kind)) advances

  -- Once a store so far holds a file whose lease epoch has passed that of a writer, no block
  -- allocation of that writer in the file is accepted, whatever commands but
  -- RegisterWorkerDescriptor and ReclaimDetachedRoots were committed since, also where the file is
  -- gone. A Rename is assumed to be proposed from one of the stores so far, in which its parents
  -- are inodes of one mount and the destination parent is a directory.
  pub fenced_allocate :
      (e : LeaseEpoch) (r : ℕ) (x : Store × BlockId)
      → e < f.lease_epoch
      → apply_allocate_block t k e r ≢ ok x
  fenced_allocate e r (t', b) lt h =
      let (j, g, hl, owner, _, _) = allocate-index t t' k e r b h in
      absurd (omega (arith, (load_file-Advances j g hl).lease_epoch, owner, lt))

-- A later allocation under the inode of an earlier one, in a store that commands other than
-- RegisterWorkerDescriptor and ReclaimDetachedRoots have reached from the store that the earlier
-- one left, returns a block with a greater index. A Rename is assumed to be proposed from one of
-- the stores so far, in which its parents are inodes of one mount and the destination parent is a
-- directory.
pub allocate-fresh :
    (past : List Store) (s s1 s2 s3 : Store) (k : InodeId) (e e' : LeaseEpoch) (r r' : ℕ)
    (b b' : BlockId)
    → apply_allocate_block s k e r ≡ ok (s1, b)
    → Reaches past s2
    → Among s1 (s2 ∷ past)
    → apply_allocate_block s2 k e' r' ≡ ok (s3, b')
    → b.index < b'.index
allocate-fresh past s s1 s2 s3 k e e' r r' b b' h reached among h' =
    let (w, lt) = allocate-Writes s s1 k e r b h in
    let found : get k s1.inodes ≡ some w.new =
      ap (get k) w.stored ∙ get-insert_self k w.new s.inodes in
    let (i, f, hl, _, at, _) = allocate-index s2 s3 k e' r' b' h' in
    let advances =
      load_file-Advances past s1 s2 k w.new w.after reached among found w.kind i f hl in
    omega (arith, lt, at, advances.next_index)
