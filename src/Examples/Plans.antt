-- ===== src/Examples/Plans.antt =====
-- Tests and examples for the read planner (beryl-client/src/planner.rs).
use vecton.Prelude.{◌≡◌, refl, List, [], ◌∷◌, some, arith, All, ◌+◌, ℕ}
use vecton.Prelude.Result.{ok}
use vecton.Types.Layout.{new_shape}
use vecton.Types.Values.{FileBlockLocation, WorkerEndpointInfo, grpc}
use vecton.Planner.{
  RequestedReadRange, PlannedBlockRead, requested_range, end_file_offset, normalize, check_location,
  sort_by_key, insert_sorted, round, planned, plan_rounds, plan_block_reads,
}
use vecton.Planner.Tiling.{Tiles}
use vecton.Planner.Sources.{Among, Reads, plan_block_reads-Tiles}
use vecton.Planner.Range.{requested_range-eq}
use vecton.Examples.Values.{block}

abbrev worker : WorkerEndpointInfo
worker = record { worker_id = 7; endpoint = "w7:1"; worker_net_protocol = grpc; worker_run_id = 1 }

abbrev location : ℕ → ℕ → ℕ → FileBlockLocation
location n start len = record {
  block_id = block n;
  file_offset = start;
  len = len;
  workers = worker ∷ [];
  block_format_id = 2;
  block_size = 4;
  chunk_size = 4194304;
  effective_len = len;
}

abbrev range : RequestedReadRange
range = record { file_offset = 1; len = 4 }

-- Bytes 1 to 5 of a file of six bytes, from two locations in the wrong order.
abbrev locations : List FileBlockLocation
locations = location 1 4 2 ∷ location 0 0 4 ∷ []

abbrev read : ℕ → ℕ → ℕ → ℕ → ℕ → PlannedBlockRead
read n start len offset effective = record {
  file_offset = start;
  len = len;
  end_file_offset = start + len;
  block_id = block n;
  block_offset = offset;
  block_format_id = 2;
  block_size = 4;
  chunk_size = 4194304;
  effective_len = effective;
  workers = worker ∷ [];
}

abbrev reads : List PlannedBlockRead
reads = read 0 1 3 1 4 ∷ read 1 4 1 0 2 ∷ []

range-reads : plan_block_reads 42 range locations ≡ ok reads
unfolding plan_block_reads normalize check_location sort_by_key insert_sorted plan_rounds round
    planned end_file_offset new_shape
range-reads = refl

plan_block_reads-Tiles_example :
    Tiles 1 (end_file_offset range) reads × All (λ r. Among (Reads r) locations) reads
plan_block_reads-Tiles_example = plan_block_reads-Tiles 42 range locations reads range-reads

requested_range-eq_example : requested_range 1 9 6 ≡ ok (some (record { file_offset = 1; len = 5 }))
requested_range-eq_example = requested_range-eq 1 9 6 (omega arith)
