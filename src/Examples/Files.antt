-- ===== src/Examples/Files.antt =====
-- Tests and examples for publication and the file commands (beryl-metadata/src/inode.rs and
-- beryl-metadata/src/raft/state_machine/write.rs).
use vecton.Prelude.{◌≡◌, refl, [], ◌∷◌, some, arith, get_elem?, contains, All, false, true}
use vecton.Prelude.Result.{ok}
use vecton.Types.Layout.{spec, new_shape}
use vecton.Types.Layout
use vecton.Inode.{
  validate, merged_blocks, start_index, kept_blocks, push_blocks, check_lens, matches_visible,
  visible_block_len, invalid_identities,
}
use vecton.Types.Values.{block_id_eq}
use vecton.Inode.Coverage.{block_len-sum, sum_lens}
use vecton.Inode.Publish.{
  published, merged_blocks-validate, merged_blocks-append, merged_blocks-replace,
  merged_blocks-matches_visible,
}
use vecton.Examples.Values.{block, file_data, append, replace}

pub file_data-valid : validate 42 file_data ≡ ok tt
unfolding validate Layout.validate invalid_identities contains
file_data-valid = refl

append-merges : merged_blocks append 42 file_data ≡ ok (block 0 ∷ block 1 ∷ block 2 ∷ [])
unfolding merged_blocks validate Layout.validate start_index check_lens visible_block_len
    kept_blocks push_blocks invalid_identities contains
append-merges = refl

replace-merges : merged_blocks replace 42 file_data ≡ ok (block 2 ∷ block 3 ∷ [])
unfolding merged_blocks validate Layout.validate start_index check_lens visible_block_len
    kept_blocks push_blocks invalid_identities contains
replace-merges = refl

block_len-sum_example : sum_lens 6 4 2 ≡ 6
block_len-sum_example = block_len-sum 42 file_data file_data-valid

merged_blocks-validate_example :
    validate 42 (published append file_data (block 0 ∷ block 1 ∷ block 2 ∷ [])) ≡ ok tt
merged_blocks-validate_example = merged_blocks-validate append 42 file_data _ append-merges

merged_blocks-append_example : get_elem? (block 0 ∷ block 1 ∷ block 2 ∷ []) 1 ≡ some (block 1)
merged_blocks-append_example =
    merged_blocks-append append 42 file_data _ refl append-merges 1 (omega arith)

merged_blocks-replace_example :
    All (λ b. contains b file_data.blocks ≡ false) (block 2 ∷ block 3 ∷ [])
merged_blocks-replace_example = merged_blocks-replace replace 42 file_data _ refl replace-merges

merged_blocks-matches_visible_example :
    matches_visible append (published append file_data (block 0 ∷ block 1 ∷ block 2 ∷ [])) ≡ ok true
merged_blocks-matches_visible_example =
    merged_blocks-matches_visible append 42 file_data _ append-merges
