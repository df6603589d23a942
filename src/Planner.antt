-- ===== src/Planner.antt =====
-- beryl-client/src/planner.rs: from the block locations of a layout to block reads.
pub mod Tiling
pub mod Sources
pub mod Range
use vecton.Prelude.{
  ℕ, zero, suc, ◌+◌, ◌-◌, min, max, Bool, true, false, not, ◌&&◌, ◌||◌, Option, none, some, List,
  [], ◌∷◌, ◌++◌, String, eqb, ltb, leb, if◌then◌else◌, checked_add, checked_sub, try_u32, is_empty,
}
use vecton.Prelude.Result.{Result, ok, err, panic, ◌>>=◌, ◌>>◌, ok_or, map_err, reject_if}
use vecton.Types.Layout.{new_shape}
use vecton.Types.Values.{InodeId, BlockId, FileBlockLocation, WorkerEndpointInfo, ContentGeneration}

-- The kinds of ClientError that planning returns, with their text.
pub data PlanError : Type 0 where
  invalid_argument invalid_layout stale_handle block_location_unavailable : String → PlanError
  generation_mismatch : ContentGeneration → ContentGeneration → PlanError

pub record RequestedReadRange : Type 0 where
  pub file_offset : ℕ
  pub len : ℕ

-- The sum stays below the file size, so it does not wrap.
unfoldable pub end_file_offset : RequestedReadRange → ℕ
end_file_offset r = r.file_offset + r.len

pub record PlannedBlockRead : Type 0 where
  pub file_offset : ℕ
  pub len : ℕ
  pub end_file_offset : ℕ
  pub block_id : BlockId
  pub block_offset : ℕ
  pub block_format_id : ℕ
  pub block_size : ℕ
  pub chunk_size : ℕ
  pub effective_len : ℕ
  pub workers : List WorkerEndpointInfo

unfoldable pub requested_range : ℕ → ℕ → ℕ → Result PlanError (Option RequestedReadRange)
requested_range offset len file_size = if eqb len 0 || leb file_size offset then ok none else do
  requested_end ← ok_or (invalid_argument "read range offset overflow") (checked_add offset len)
  effective ←
      ok_or (invalid_argument "read range end precedes offset")
        (checked_sub (min requested_end file_size) offset)
  effective_len ← ok_or (invalid_argument "read range length exceeds u32") (try_u32 effective)
  if eqb effective_len 0
      then ok none
      else ok (some (record { file_offset = offset; len = effective_len }))

-- A location with the end of its range in the file.
pub record Located : Type 0 where
  pub end : ℕ
  pub location : FileBlockLocation

abbrev pub start_of : Located → ℕ
start_of l = l.location.file_offset

-- The checks on one location, and its end.
unfoldable pub check_location : InodeId → FileBlockLocation → Result PlanError ℕ
check_location expected_inode_id l = do
  reject_if (eqb l.len 0) (invalid_layout "zero-length block location")
  end ← ok_or (invalid_layout "block location range overflow") (checked_add l.file_offset l.len)
  reject_if (not (eqb l.block_id.inode_id expected_inode_id))
      (invalid_layout "block location inode_id does not match handle")
  map_err (λ _. invalid_layout "invalid block shape")
      (new_shape l.block_format_id l.block_size l.chunk_size l.effective_len)
  reject_if (is_empty l.workers) (block_location_unavailable "block location unavailable")
  ok end

-- The first loop of `plan_block_reads`: all locations are checked, those that meet the range stay.
unfoldable pub normalize :
    InodeId → RequestedReadRange → List FileBlockLocation → Result PlanError (List Located)
normalize inode_id range [] = ok []
normalize inode_id range (l ∷ ls) = do
  end ← check_location inode_id l
  rest ← normalize inode_id range ls
  if leb end range.file_offset || leb (end_file_offset range) l.file_offset
      then ok rest
      else ok (record { end = end; location = l } ∷ rest)

-- (start, index) of the one is at most that of the other.
abbrev pub key_le : Located → Located → Bool
key_le a b =
    ltb (start_of a) (start_of b)
    || (eqb (start_of a) (start_of b) && leb a.location.block_id.index b.location.block_id.index)

unfoldable pub insert_sorted : Located → List Located → List Located
insert_sorted a [] = a ∷ []
insert_sorted a (b ∷ bs) = if key_le a b then a ∷ b ∷ bs else b ∷ insert_sorted a bs

-- sort_by_key: the stable sort of the standard library.
unfoldable pub sort_by_key : List Located → List Located
sort_by_key [] = []
sort_by_key (a ∷ as') = insert_sorted a (sort_by_key as')

abbrev pub overlaps : Option ℕ → ℕ → Bool
overlaps none start = false
overlaps (some prev_end) start = ltb start prev_end

-- One block read of the second loop.
unfoldable pub planned : Located → ℕ → ℕ → ℕ → PlannedBlockRead
planned l len read_start read_end = record {
  file_offset = read_start;
  len = len;
  end_file_offset = read_end;
  block_id = l.location.block_id;
  block_offset = read_start - start_of l;
  block_format_id = l.location.block_format_id;
  block_size = l.location.block_size;
  chunk_size = l.location.chunk_size;
  effective_len = l.location.effective_len;
  workers = l.location.workers;
}

-- What one round of the second loop does, when it does not return an error.
pub data Round : Type 0 where
  skip : Round
  push : PlannedBlockRead → Round

unfoldable pub round : ℕ → ℕ → Option ℕ → Located → Result PlanError Round
unfolding planned
round requested_end cursor previous_end l = do
  reject_if (overlaps previous_end (start_of l)) (invalid_layout "layout overlap at file offset")
  reject_if (ltb cursor (start_of l)) (invalid_layout "layout gap at file offset")
  if leb l.end cursor
      then ok skip
      else if leb (min requested_end l.end) (max cursor (start_of l))
      then ok skip
      else do
        len ←
            ok_or (invalid_layout "planned block read length exceeds u32")
              (try_u32 (min requested_end l.end - max cursor (start_of l)))
        reject_if (eqb len 0) (invalid_layout "zero-length planned block read")
        ok (push (planned l len (max cursor (start_of l)) (min requested_end l.end)))

-- The second loop, and the final test on the cursor.
unfoldable pub plan_rounds :
    ℕ → ℕ → Option ℕ → List Located → Result PlanError (List PlannedBlockRead)
plan_rounds requested_end cursor previous_end [] =
    if ltb cursor requested_end then err (invalid_layout "layout gap at file offset") else ok []
plan_rounds requested_end cursor previous_end (l ∷ ls) = do
  step ← round requested_end cursor previous_end l
  elim step [
    | skip ↦ plan_rounds requested_end cursor (some l.end) ls
    | push read ↦ if eqb read.end_file_offset requested_end then ok (read ∷ []) else do
      rest ← plan_rounds requested_end read.end_file_offset (some l.end) ls
      ok (read ∷ rest)
  ]

unfoldable pub plan_block_reads :
    InodeId → RequestedReadRange → List FileBlockLocation → Result PlanError (List PlannedBlockRead)
plan_block_reads expected_inode_id range locations = do
  normalized ← normalize expected_inode_id range locations
  plan_rounds (end_file_offset range) range.file_offset none (sort_by_key normalized)

pub record ReadLayout : Type 0 where
  pub group_name : String
  pub inode_id : InodeId
  pub file_size : ℕ
  pub generation : Option ContentGeneration
  pub locations : List FileBlockLocation

unfoldable pub plan_block_reads_from_layout :
    InodeId
    → ContentGeneration
    → ℕ
    → RequestedReadRange
    → ReadLayout
    → Result PlanError (String × List PlannedBlockRead)
plan_block_reads_from_layout expected_inode_id expected_generation expected_file_size range
      response =
    do
      reject_if (not (eqb response.inode_id expected_inode_id))
          (stale_handle "layout inode_id does not match handle")
      generation ←
          ok_or (invalid_layout "GetBlockLocationsResponseProto.generation missing")
            response.generation
      reject_if (not (eqb generation expected_generation))
          (generation_mismatch expected_generation generation)
      reject_if (not (eqb response.file_size expected_file_size))
          (stale_handle "layout file size does not match opened length")
      block_reads ← plan_block_reads expected_inode_id range response.locations
      ok (response.group_name, block_reads)
