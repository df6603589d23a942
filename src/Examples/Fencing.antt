-- ===== src/Examples/Fencing.antt =====
-- A file whose writer changes and that is renamed
-- (beryl-metadata/src/raft/state_machine/write.rs and namespace.rs).
use vecton.Prelude.{
  ℕ, ◌≡◌, ◌≢◌, ◌<◌, refl, List, [], ◌∷◌, inl, inr, arith, nat_eq, string_eq, pair_eq, contains,
}
use vecton.Prelude.Maps.{get, insert, remove}
use vecton.Prelude.Result.{ok}
use vecton.Types.Values.{BlockId}
use vecton.Types.Layout.{spec, new_shape}
use vecton.Types.Layout
use vecton.Inode.{FileData, file, dir, validate, invalid_identities, set_modify_time}
use vecton.Storage.{
  Store, get_create_file_replay_for_inode, get_create_file_replay, get_layout_optional,
}
use vecton.Storage.Batches.{rename_atomic}
use vecton.Apply.{
  load_file, ensure_file_inode_authority, apply_allocate_block, put_inode_atomic, with_file,
  apply_acquire_write_lease, replay_owns,
}
use vecton.Apply.Command as FileCommand
use vecton.Namespace.{touched}
use vecton.Namespace.Rename.{
  check_destination, touched_parents, prepare_move, prepare_rename, apply_rename,
}
use vecton.Namespace.Tree.Histories.{Resolved}
use vecton.StateMachine.{
  rename, on_file, success, rename_applied, file_changed, keep, committed, delta, apply_command,
  apply_committed, respond,
}
use vecton.StateMachine.Invariant.{Reaches, commits}
use vecton.StateMachine.Fencing.{fenced_allocate, allocate-fresh}
use vecton.StateMachine.Answers.{Responds, file_commands-Responds}
use vecton.Examples.Values.{append}
use vecton.Examples.Tree.{
  inode_of, booted, with_directories, empty_file, created_file, move_request,
}
use vecton.Examples.Namespace.{created_file-Reaches}

-- The second writer of /a/f: its epoch, and the first block.
abbrev written : ℕ → FileData
written next = record empty_file { next_index = next; lease_epoch = 2 }

abbrev leased : ℕ → ℕ → Store
leased next raft_state = record created_file {
  inodes =
      (1, inode_of 1 dir 10 20)
      ∷ (2, inode_of 2 dir 20 30)
      ∷ (3, inode_of 3 dir 20 20)
      ∷ (4, inode_of 4 (file (written next)) 30 30)
      ∷ [];
  applied = raft_state;
}

abbrev moved : ℕ → ℕ → Store
moved next raft_state = record created_file {
  inodes =
      (1, inode_of 1 dir 10 20)
      ∷ (2, inode_of 2 dir 20 97)
      ∷ (3, inode_of 3 dir 20 97)
      ∷ (4, inode_of 4 (file (written next)) 30 30)
      ∷ [];
  dentries = ((1, "a"), 2) ∷ ((2, "b"), 3) ∷ ((3, "g"), 4) ∷ [];
  applied = raft_state;
}

abbrev first_block : BlockId
first_block = record { inode_id = 4; index = 0 }

acquires : apply_acquire_write_lease created_file 4 1 95 4 ≡ ok (leased 0 4, 2)
unfolding apply_acquire_write_lease replay_owns get_create_file_replay_for_inode
    get_create_file_replay load_file ensure_file_inode_authority validate Layout.validate
    invalid_identities contains put_inode_atomic with_file get insert
acquires = refl

allocates : apply_allocate_block (leased 0 4) 4 2 5 ≡ ok (leased 1 5, first_block)
unfolding apply_allocate_block load_file ensure_file_inode_authority validate Layout.validate
    invalid_identities contains put_inode_atomic with_file get insert
allocates = refl

moves : apply_rename (leased 1 5) move_request 97 6 ≡ ok (moved 1 6)
unfolding apply_rename prepare_rename prepare_move touched_parents touched rename_atomic
    check_destination set_modify_time get insert remove get_layout_optional Layout.validate
moves = refl

allocates_again :
    apply_allocate_block (moved 1 6) 4 2 7 ≡ ok (moved 2 7, record { inode_id = 4; index = 1 })
unfolding apply_allocate_block load_file ensure_file_inode_authority validate Layout.validate
    invalid_identities contains put_inode_atomic with_file get insert
allocates_again = refl

entry-acquire :
    apply_committed created_file (on_file (FileCommand.acquire_write_lease 95 4 1)) 4
    ≡ ok
        (leased 0 4, committed keep (success (file_changed (FileCommand.write_lease_acquired 4 2))))
unfolding apply_committed apply_command FileCommand.apply_command respond delta
entry-acquire = rw acquires refl

entry-allocate :
    apply_committed (leased 0 4) (on_file (FileCommand.allocate_block 4 2)) 5
    ≡ ok (
      leased 1 5,
      committed keep (success (file_changed (FileCommand.block_allocated first_block))),
    )
unfolding apply_committed apply_command FileCommand.apply_command respond delta
entry-allocate = rw allocates refl

entry-move :
    apply_committed (leased 1 5) (rename 97 move_request) 6
    ≡ ok (moved 1 6, committed keep (success rename_applied))
unfolding apply_committed apply_command respond delta
entry-move = rw moves refl

abbrev history : List Store
history = leased 1 5 ∷ leased 0 4 ∷ created_file ∷ with_directories ∷ booted ∷ []

move-Resolved : Resolved (leased 1 5) move_request
unfolding get
move-Resolved = record {
  source = inode_of 2 dir 20 30;
  source_found = refl;
  destination = inode_of 3 dir 20 20;
  destination_found = refl;
  kind = refl;
  mount = refl;
}

leased-Reaches : Reaches (created_file ∷ with_directories ∷ booted ∷ []) (leased 0 4)
leased-Reaches =
    commits (with_directories ∷ booted ∷ []) created_file (leased 0 4)
      (on_file (FileCommand.acquire_write_lease 95 4 1)) 4 _ created_file-Reaches tt entry-acquire

moved-Reaches : Reaches history (moved 1 6)
moved-Reaches =
    commits (leased 0 4 ∷ created_file ∷ with_directories ∷ booted ∷ []) (leased 1 5) (moved 1 6)
      (rename 97 move_request) 6 _
      (commits (created_file ∷ with_directories ∷ booted ∷ []) (leased 0 4) (leased 1 5)
        (on_file (FileCommand.allocate_block 4 2)) 5 _ leased-Reaches tt entry-allocate)
      (leased 1 5, inl refl, move-Resolved) entry-move

-- The first writer, of epoch 1, is shut out.
fenced_allocate_example : apply_allocate_block (moved 1 6) 4 1 8 ≢ ok (moved 2 8, first_block)
unfolding get
fenced_allocate_example =
    fenced_allocate history (leased 0 4) (moved 1 6) 4 (inode_of 4 (file (written 0)) 30 30)
      (written 0) moved-Reaches (inr (inr (inl refl))) refl refl 1 8 (moved 2 8, first_block)
      (omega arith)

allocate-fresh_example : 0 < 1
allocate-fresh_example =
    allocate-fresh history (leased 0 4) (leased 1 5) (moved 1 6) (moved 2 7) 4 2 2 5 7 first_block
      (record { inode_id = 4; index = 1 }) allocates moved-Reaches (inr (inl refl)) allocates_again

file_commands-Responds_example :
    Responds (moved 1 6) (FileCommand.allocate_block 4 1) 8
    × Responds (moved 1 6) (FileCommand.end_write_lease 4 1) 8
    × Responds (moved 1 6) (FileCommand.publish_file 98 4 append) 8
unfolding get
file_commands-Responds_example =
    file_commands-Responds history (leased 0 4) (moved 1 6) 4 (inode_of 4 (file (written 0)) 30 30)
      (written 0) moved-Reaches (inr (inr (inl refl))) refl refl 1 append 98 8
