-- ===== src/Examples/Namespace.antt =====
-- Tests and examples for the namespace (beryl-metadata/src/raft/state_machine/namespace.rs).
use vecton.Prelude.{
  ◌≡◌, refl, true, false, [], ◌∷◌, none, some, inl, arith, nat_eq, string_eq, pair_eq,
}
use vecton.Prelude.Text.{text_len, text_contains, join, strip_prefix}
use vecton.Prelude.Maps.{get, insert, remove}
use vecton.Prelude.Result.{ok}
use vecton.Types.Layout.{spec, new_shape}
use vecton.Types.Layout
use vecton.Inode.{dir, initialize, set_modify_time}
use vecton.Storage.{
  get_create_file_replay, get_layout_optional, max_key, max_inode_id, prepare_inode_allocation,
  has_entry, is_directory_empty, list_mounts, matching_inode, matching_mount,
  bootstrap_namespace_state, namespace_has_any_state,
}
use vecton.Storage.Batches.{
  commit_applied_state, bootstrap_namespace_atomic, validate_targets,
  validate_inode_allocation_targets, create_batch, put_replay, batch_put_create_file_replay,
  create_file_atomic, create_batches, create_directories_atomic, detach_directory_atomic,
  rename_atomic,
}
use vecton.Namespace.{
  touched, apply_bootstrap_namespace, walk_components, apply_create_directory, new_attrs,
  root_mount,
}
use vecton.Namespace.Paths.{
  validate_components, validate_relative_components, mount_prefix_matches_path, add_lengths,
  target_path_bytes, target_path,
}
use vecton.Namespace.Create.{
  walk_to_parent, resolve_create_parent, replay_create, create_new, apply_create,
}
use vecton.Namespace.Delete.{
  find_mount, contains_mount, is_mount_root, walk_to_target, resolve_delete_target,
  apply_delete_empty_dir, apply_detach_directory, apply_delete,
}
use vecton.Namespace.Rename.{
  check_destination, touched_parents, prepare_move, prepare_rename, apply_rename,
}
use vecton.Namespace.Tree.{nothing_past, IsNamespace}
use vecton.Namespace.Tree.Directories.{Made, apply_create_directory-Made}
use vecton.Namespace.Tree.Histories.{Resolved}
use vecton.Namespace.Tree.Renames.{renamed, apply_rename-renamed}
use vecton.Namespace.Tree.Replays.{create-replay}
use vecton.Namespace.Tree.Deletes.{Deleted, apply_delete-Deleted}
use vecton.Apply.{ApplyRejectionKind, ApplyRejection, from_metadata_error}
use vecton.StateMachine.{
  Command, bootstrap_namespace, create_directory, create_file, delete, rename, success, rejection,
  mount_upserted, directory_ensured, file_created, delete_applied, rename_applied, keep, upsert,
  committed, delta, apply_command, apply_committed, apply_directory, respond,
}
use vecton.StateMachine.Bootstrap.{IsBlank}
use vecton.StateMachine.Invariant.{
  Reaches, bootstrapped, commits, RemembersAll, Reaches-RemembersAll, Reaches-IsNamespace,
}
use vecton.StateMachine.Guarantees.{delta-stored}
use vecton.Examples.Tree.{
  inode_of, blank, booted, with_directories, file_layout, new_request, new_record, created_file,
  move_request, with_move, delete_request, without_directory,
}

-- The commands from one store to the next.
boots : apply_bootstrap_namespace blank "root" 10 1 ≡ ok (booted, root_mount "root")
unfolding apply_bootstrap_namespace bootstrap_namespace_state namespace_has_any_state
    bootstrap_namespace_atomic max_inode_id max_key list_mounts matching_inode matching_mount
    initialize get insert
boots = refl

makes :
    apply_create_directory booted 1 ("a" ∷ "b" ∷ []) new_attrs 20 2
    ≡ ok (with_directories, 3, record { create_time = 20; modify_time = 20 })
unfolding apply_create_directory walk_components touched prepare_inode_allocation max_inode_id
    max_key create_directories_atomic create_batches create_batch validate_inode_allocation_targets
    validate_targets initialize set_modify_time get insert commit_applied_state
makes = refl

creates : apply_create with_directories new_request 30 3 ≡ ok (created_file, new_record)
unfolding apply_create create_new replay_create resolve_create_parent walk_to_parent
    validate_relative_components validate_components get_create_file_replay touched
    prepare_inode_allocation max_inode_id max_key create_file_atomic create_batch
    batch_put_create_file_replay put_replay validate_inode_allocation_targets validate_targets
    initialize set_modify_time get insert Layout.validate spec new_shape text_len text_contains join
creates = refl

moves : apply_rename created_file move_request 40 4 ≡ ok with_move
unfolding apply_rename prepare_rename prepare_move touched_parents touched rename_atomic
    check_destination set_modify_time get insert remove get_layout_optional Layout.validate
moves = refl

deletes : apply_delete with_move 1 1 1 ("a" ∷ []) 2 none true 50 5 ≡ ok without_directory
unfolding apply_delete resolve_delete_target walk_to_target find_mount contains_mount is_mount_root
    list_mounts mount_prefix_matches_path add_lengths target_path_bytes target_path
    validate_relative_components validate_components apply_detach_directory get_layout_optional
    detach_directory_atomic touched set_modify_time get insert remove text_len text_contains join
    strip_prefix
deletes = refl

-- The same commands as committed entries.
abbrev make_command : Command
make_command = create_directory 20 1 ("a" ∷ "b" ∷ []) new_attrs true

entry-make :
    apply_committed booted make_command 2
    ≡ ok (
      with_directories,
      committed keep
          (success (directory_ensured 3 (record { create_time = 20; modify_time = 20 }))),
    )
unfolding apply_committed apply_command apply_directory respond delta
entry-make = rw makes refl

entry-create :
    apply_committed with_directories (create_file 30 new_request) 3
    ≡ ok (created_file, committed keep (success (file_created 4 file_layout 1 90 0)))
unfolding apply_committed apply_command respond delta
entry-create = rw creates refl

entry-move :
    apply_committed created_file (rename 40 move_request) 4
    ≡ ok (with_move, committed keep (success rename_applied))
unfolding apply_committed apply_command respond delta
entry-move = rw moves refl

entry-delete :
    apply_committed with_move (delete 50 delete_request) 5
    ≡ ok (without_directory, committed keep (success delete_applied))
unfolding apply_committed apply_command respond delta
entry-delete = rw deletes refl

-- The move is proposed from the store that it finds.
move-Resolved : Resolved created_file move_request
unfolding get
move-Resolved = record {
  source = inode_of 2 dir 20 30;
  source_found = refl;
  destination = inode_of 3 dir 20 20;
  destination_found = refl;
  kind = refl;
  mount = refl;
}

blank-IsBlank : IsBlank blank
blank-IsBlank = record {
  inodes = refl;
  dentries = refl;
  detached = refl;
  mounts = refl;
  next = refl;
}

booted-Reaches : Reaches [] booted
booted-Reaches = bootstrapped blank booted "root" 10 1 (root_mount "root") blank-IsBlank boots

pub with_directories-Reaches : Reaches (booted ∷ []) with_directories
with_directories-Reaches =
    commits [] booted with_directories make_command 2 _ booted-Reaches tt entry-make

pub created_file-Reaches : Reaches (with_directories ∷ booted ∷ []) created_file
created_file-Reaches =
    commits (booted ∷ []) with_directories created_file (create_file 30 new_request) 3 _
      with_directories-Reaches tt entry-create

with_move-Reaches : Reaches (created_file ∷ with_directories ∷ booted ∷ []) with_move
with_move-Reaches =
    commits (with_directories ∷ booted ∷ []) created_file with_move (rename 40 move_request) 4 _
      created_file-Reaches (created_file, inl refl, move-Resolved) entry-move

without_directory-Reaches :
    Reaches (with_move ∷ created_file ∷ with_directories ∷ booted ∷ []) without_directory
without_directory-Reaches =
    commits (created_file ∷ with_directories ∷ booted ∷ []) with_move without_directory
      (delete 50 delete_request) 5 _ with_move-Reaches tt entry-delete

Reaches-RemembersAll_example :
    IsNamespace with_move × RemembersAll (created_file ∷ with_directories ∷ booted ∷ []) with_move
Reaches-RemembersAll_example =
    Reaches-RemembersAll (created_file ∷ with_directories ∷ booted ∷ []) with_move with_move-Reaches

Reaches-IsNamespace_example : IsNamespace without_directory
Reaches-IsNamespace_example =
    Reaches-IsNamespace (with_move ∷ created_file ∷ with_directories ∷ booted ∷ [])
      without_directory without_directory-Reaches

apply_create_directory-Made_example : Made nothing_past booted with_directories 1 ("a" ∷ "b" ∷ []) 3
apply_create_directory-Made_example =
    apply_create_directory-Made booted with_directories 1 ("a" ∷ "b" ∷ []) new_attrs
      (record { create_time = 20; modify_time = 20 }) 20 2 3 makes
      (Reaches-IsNamespace [] booted booted-Reaches)

no_record : get_create_file_replay with_directories new_request.operation_id ≡ ok none
unfolding get_create_file_replay get
no_record = refl

create-replay_example :
    apply_create created_file new_request 60 9
    ≡ ok (record created_file { applied = 9 }, new_record)
unfolding commit_applied_state
create-replay_example =
    create-replay with_directories created_file new_request 30 60 3 9 new_record
      (Reaches-IsNamespace (booted ∷ []) with_directories with_directories-Reaches) no_record
      creates (omega arith)

apply_rename-renamed_example :
    get (2, "f") with_move.dentries
    ≡ renamed (λ x. get x created_file.dentries) (2, "f") (3, "g") (2, "f")
apply_rename-renamed_example =
    apply_rename-renamed created_file with_move move_request 40 4 moves
      (Reaches-IsNamespace (with_directories ∷ booted ∷ []) created_file created_file-Reaches)
      (2, "f")

apply_delete-Deleted_example : Deleted with_move without_directory 1 ("a" ∷ []) 2
apply_delete-Deleted_example =
    apply_delete-Deleted with_move without_directory 1 1 1 ("a" ∷ []) 2 none true 50 5 deletes (
      Reaches-IsNamespace (created_file ∷ with_directories ∷ booted ∷ []) with_move
        with_move-Reaches)

-- A recursive delete keeps the directory for the reclaimer, and another one finds it full.
abbrev full : ApplyRejection
full = record { kind = ApplyRejectionKind.directory_not_empty; message = "Directory not empty" }

refuses :
    apply_committed with_directories (delete 50 (record delete_request { recursive = false })) 5
    ≡ ok (record with_directories { applied = 5 }, committed keep (rejection full))
unfolding apply_committed apply_command respond delta from_metadata_error commit_applied_state
    apply_delete resolve_delete_target walk_to_target find_mount contains_mount is_mount_root
    list_mounts mount_prefix_matches_path add_lengths target_path_bytes target_path
    validate_relative_components validate_components apply_delete_empty_dir is_directory_empty
    has_entry get text_len text_contains join strip_prefix
refuses = refl

boots_again :
    apply_committed booted (bootstrap_namespace 70 "root") 8
    ≡ ok (
      record booted { applied = 8 },
      committed upsert (success (mount_upserted (root_mount "root"))),
    )
unfolding apply_committed apply_command respond delta apply_bootstrap_namespace
    bootstrap_namespace_state namespace_has_any_state commit_applied_state max_inode_id max_key
    list_mounts matching_inode matching_mount get
boots_again = refl

delta-stored_example :
    (success (mount_upserted (root_mount "root")) ≡ success (mount_upserted (root_mount "root")))
    × (get 1 (record booted { applied = 8 }).mounts ≡ some (root_mount "root"))
unfolding delta
delta-stored_example =
    delta-stored booted (record booted { applied = 8 }) (bootstrap_namespace 70 "root") 8
      (committed upsert (success (mount_upserted (root_mount "root")))) (root_mount "root")
      (Reaches-IsNamespace [] booted booted-Reaches) boots_again refl
