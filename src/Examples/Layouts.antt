-- ===== src/Examples/Layouts.antt =====
-- Tests and examples for layouts and rejections (beryl-types/src/layout.rs and
-- beryl-metadata/src/raft/response.rs).
use vecton.Prelude.{◌≡◌, ◌≢◌, ◌↔◌, refl, ◌<◌, ◌≤◌, arith}
use vecton.Prelude.Result.{ok}
use vecton.MetadataError.{MetadataError}
use vecton.Types.Layout.{FileLayout, BlockShape, validate, new_shape, for_effective_len}
use vecton.Types.Layout.Laws.{IsShape, new_shape-eq-ok, validate-eq-ok, for_effective_len-eq-ok}
use vecton.Apply.{from_metadata_error, into_metadata_error, ApplyRejection}
use vecton.Apply.Outcome.{into-from_metadata_error, lease_fenced}

abbrev layout : FileLayout
layout = record { block_size = 8388608; block_format_id = 2 }

abbrev old_format : FileLayout
old_format = record { block_size = 8388608; block_format_id = 1 }

layout-valid : validate layout ≡ ok tt
unfolding validate
layout-valid = refl

old_format-invalid : validate old_format ≢ ok tt
unfolding validate
old_format-invalid h = ground arith

abbrev shape : BlockShape
shape = record { block_format_id = 2; block_size = 8; chunk_size = 4194304; effective_len = 5 }

new_shape-eq-ok_example :
    (new_shape 2 8 4194304 5 ≡ ok shape) ↔ (IsShape 2 8 4194304 5 × (shape ≡ shape))
new_shape-eq-ok_example = new_shape-eq-ok 2 8 4194304 5 shape

validate-eq-ok_example :
    (validate layout ≡ ok tt)
    ↔ ((layout.block_format_id ≡ 2) × (0 < layout.block_size) × (layout.block_size ≤ 1073741824))
validate-eq-ok_example = validate-eq-ok layout

for_effective_len-eq-ok_example :
    ((s : BlockShape) × (for_effective_len layout 7 ≡ ok s)) ↔ ((0 < 7) × (7 ≤ 8388608))
for_effective_len-eq-ok_example = for_effective_len-eq-ok layout 7 layout-valid

abbrev fenced : ApplyRejection
fenced = record { kind = lease_fenced 3 2; message = "lease fenced" }

into-from_metadata_error_example :
    into_metadata_error (record { kind = lease_fenced 3 2; message = "lease fenced" })
    ≡ MetadataError.lease_fenced 3 2
unfolding from_metadata_error
into-from_metadata_error_example =
    into-from_metadata_error (MetadataError.lease_fenced 3 2) fenced refl
