-- ===== src/Types/Layout.antt =====
-- beryl-types/src/layout.rs: block formats, file layouts and the validated shape of a block.
-- A `BlockFormatId` is its raw u32.
pub mod Laws
use vecton.Prelude.{ℕ, Bool, not, ◌&&◌, eqb, ltb, if◌then◌else◌}
use vecton.Prelude.Result.{Result, ok, err, panic, ◌>>=◌, ◌>>◌, map_err, reject_if}

abbrev pub max_block_size : ℕ
max_block_size = 1073741824

abbrev pub durable_prefix_storage_chunk_size : ℕ
durable_prefix_storage_chunk_size = 4194304

pub record BlockFormatSpec : Type 0 where
  pub storage_chunk_size : ℕ

abbrev pub durable_prefix : ℕ
durable_prefix = 2

pub record BlockFormatIdError : Type 0 where
  pub raw : ℕ

unfoldable pub from_raw : ℕ → Result BlockFormatIdError ℕ
from_raw value = if eqb value 2 then ok durable_prefix else err (record { raw = value })

-- The arm of the source that is `unreachable!` is the panic.
unfoldable pub spec : ℕ → Result BlockFormatIdError BlockFormatSpec
unfolding from_raw
spec id = do
  from_raw id
  if eqb id durable_prefix
      then ok (record { storage_chunk_size = durable_prefix_storage_chunk_size })
      else panic

pub record FileLayout : Type 0 where
  pub block_size : ℕ
  pub block_format_id : ℕ

abbrev pub file_layout_eqb : FileLayout → FileLayout → Bool
file_layout_eqb a b = eqb a.block_size b.block_size && eqb a.block_format_id b.block_format_id

pub record BlockShape : Type 0 where
  pub block_format_id : ℕ
  pub block_size : ℕ
  pub chunk_size : ℕ
  pub effective_len : ℕ

pub data BlockShapeError : Type 0 where
  zero_block_size : BlockShapeError
  block_too_large : ℕ → ℕ → BlockShapeError
  storage_chunk_size_mismatch : ℕ → ℕ → BlockShapeError
  unknown_block_format : BlockFormatIdError → BlockShapeError
  zero_effective_len effective_len_exceeds_block : BlockShapeError

pub data FileLayoutError : Type 0 where
  zero_block_size : FileLayoutError
  block_too_large : ℕ → ℕ → FileLayoutError
  unknown_block_format : BlockFormatIdError → FileLayoutError

unfoldable pub validate_effective_len : ℕ → ℕ → Result BlockShapeError Unit
validate_effective_len block_size effective_len = do
  reject_if (eqb effective_len 0) zero_effective_len
  reject_if (ltb block_size effective_len) effective_len_exceeds_block

unfoldable pub validate_block_layout_parts : ℕ → ℕ → ℕ → Result BlockShapeError Unit
unfolding spec
validate_block_layout_parts block_format_id block_size chunk_size = do
  reject_if (eqb block_size 0) BlockShapeError.zero_block_size
  reject_if (ltb max_block_size block_size)
      (BlockShapeError.block_too_large block_size max_block_size)
  format ← map_err BlockShapeError.unknown_block_format (spec block_format_id)
  reject_if (not (eqb chunk_size format.storage_chunk_size))
      (storage_chunk_size_mismatch format.storage_chunk_size chunk_size)

-- BlockShape::new
unfoldable pub new_shape : ℕ → ℕ → ℕ → ℕ → Result BlockShapeError BlockShape
unfolding validate_effective_len validate_block_layout_parts
new_shape block_format_id block_size chunk_size effective_len = do
  validate_block_layout_parts block_format_id block_size chunk_size
  validate_effective_len block_size effective_len
  ok (record {
    block_format_id = block_format_id;
    block_size = block_size;
    chunk_size = chunk_size;
    effective_len = effective_len;
  })

unfoldable pub for_effective_len : FileLayout → ℕ → Result BlockShapeError BlockShape
unfolding new_shape
for_effective_len layout effective_len = do
  format ← map_err BlockShapeError.unknown_block_format (spec layout.block_format_id)
  new_shape layout.block_format_id layout.block_size format.storage_chunk_size effective_len

-- Two arms are `unreachable!`.
unfoldable pub from_block_shape_error : BlockShapeError → Result FileLayoutError Unit
from_block_shape_error BlockShapeError.zero_block_size = err FileLayoutError.zero_block_size
from_block_shape_error (BlockShapeError.block_too_large actual maximum) =
    err (FileLayoutError.block_too_large actual maximum)
from_block_shape_error (storage_chunk_size_mismatch _ _) = panic
from_block_shape_error (BlockShapeError.unknown_block_format e) =
    err (FileLayoutError.unknown_block_format e)
from_block_shape_error zero_effective_len = panic
from_block_shape_error effective_len_exceeds_block = panic

layout_result : Result BlockShapeError BlockShape → Result FileLayoutError Unit
unfolding from_block_shape_error
layout_result (ok _) = ok tt
layout_result (err e) = from_block_shape_error e
layout_result panic = panic

-- FileLayout::validate
unfoldable pub validate : FileLayout → Result FileLayoutError Unit
unfolding spec new_shape layout_result
validate l = do
  format ← map_err FileLayoutError.unknown_block_format (spec l.block_format_id)
  layout_result (new_shape l.block_format_id l.block_size format.storage_chunk_size l.block_size)
