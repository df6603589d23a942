-- ===== src/Examples/Commands.antt =====
-- Tests and examples for the commands on a file (beryl-metadata/src/raft/state_machine/write.rs).
use vecton.Prelude.{ℕ, ◌≡◌, refl, [], ◌∷◌, some, contains}
use vecton.Prelude.Maps.{get, insert}
use vecton.Prelude.Result.{ok}
use vecton.Types.Layout.{spec, new_shape}
use vecton.Types.Layout
use vecton.Inode.{
  validate, merged_blocks, start_index, kept_blocks, push_blocks, check_lens, visible_block_len,
  invalid_identities, FileData, Inode, file, file_of, resolve_commit, matches_visible,
  set_modify_time,
}
use vecton.Apply.{
  Store, load_file, ensure_file_inode_authority, apply_commit_file, prepare_file_publication,
  publish_content, put_inode_atomic, with_file, commit_evidence, commit_new, commit_applied_state,
}
use vecton.Apply.Fencing.{commit_twice}
use vecton.Examples.Values.{block, file_data, append, inode, store}

abbrev committed_file : FileData
committed_file = record file_data {
  blocks = block 0 ∷ block 1 ∷ block 2 ∷ [];
  len = 9;
  generation = 2;
  next_index = 5;
  lease_epoch = 2;
  last_commit = some (commit_evidence (5, 6) append 2);
}

abbrev committed_inode : Inode
committed_inode = record inode {
  attrs = record { create_time = 1; modify_time = 7 };
  kind = file committed_file;
}

abbrev committed : Store
committed = record store { inodes = (42, committed_inode) ∷ []; applied = 2 }

abbrev allocated : ℕ → ℕ → ℕ → Store
allocated next epoch raft_state = record store {
  inodes =
      (
        42,
        record inode { kind = file (record file_data { next_index = next; lease_epoch = epoch }) },
      )
      ∷ [];
  applied = raft_state;
}

abbrev before_commit : Store
before_commit = allocated 5 1 1

first_commit : apply_commit_file before_commit 42 (5, 6) append 7 2 ≡ ok (committed, 2)
unfolding load_file ensure_file_inode_authority apply_commit_file prepare_file_publication
    publish_content put_inode_atomic with_file commit_evidence commit_new validate Layout.validate
    invalid_identities contains merged_blocks start_index check_lens visible_block_len kept_blocks
    push_blocks get insert file_of resolve_commit matches_visible set_modify_time
first_commit = refl

commit_twice_example :
    apply_commit_file committed 42 (5, 6) append 20 9 ≡ ok (commit_applied_state committed 9, 2)
commit_twice_example = commit_twice before_commit committed 42 (5, 6) append 7 2 20 9 2 first_commit
