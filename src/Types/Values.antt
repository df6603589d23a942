-- ===== src/Types/Values.antt =====
-- The identities and counters of beryl-types: ids.rs, fs.rs, lease.rs, location.rs, worker.rs.
-- Newtypes over an unsigned integer are that integer; a UUID is its 128-bit value.
use vecton.Prelude.{
  ℕ, ◌≡◌, ◌↔◌, Bool, true, ◌&&◌, Option, String, List, arith, Eq, eqb, checked_add,
}

abbrev pub InodeId : Type 0
InodeId = ℕ

abbrev pub MountId : Type 0
MountId = ℕ

abbrev pub ClientId : Type 0
ClientId = ℕ

abbrev pub CallId : Type 0
CallId = ℕ

abbrev pub LeaseEpoch : Type 0
LeaseEpoch = ℕ

abbrev pub ContentGeneration : Type 0
ContentGeneration = ℕ

-- LeaseEpoch::checked_next and ContentGeneration::checked_next
abbrev pub checked_next : ℕ → Option ℕ
checked_next n = checked_add n 1

abbrev pub max_file_blocks : ℕ
max_file_blocks = 10000

pub data WriteMode : Type 0 where
  overwrite append : WriteMode

pub record BlockId : Type 0 where
  pub inode_id : InodeId
  pub index : ℕ

abbrev pub block_id_eqb : BlockId → BlockId → Bool
block_id_eqb a b = eqb a.inode_id b.inode_id && eqb a.index b.index

pub block_id_eqb_iff : (a b : BlockId) → (block_id_eqb a b ≡ true) ↔ (a ≡ b)
block_id_eqb_iff a b = (λ h. ground arith, λ h. ground arith)

instance abbrev pub block_id_eq : Eq BlockId
block_id_eq = record { test = block_id_eqb; test_iff = block_id_eqb_iff }

pub record FencingToken : Type 0 where
  pub block_id : BlockId
  pub owner : ClientId
  pub epoch : LeaseEpoch

pub data Tier : Type 0 where
  mem nvme ssd hdd : Tier

pub data WorkerNetProtocol : Type 0 where
  grpc : WorkerNetProtocol

pub record WorkerEndpointInfo : Type 0 where
  pub worker_id : ℕ
  pub endpoint : String
  pub worker_net_protocol : WorkerNetProtocol
  pub worker_run_id : ℕ

pub record LocatedBlock : Type 0 where
  pub block_id : BlockId
  pub file_offset : ℕ
  pub block_size : ℕ
  pub worker_endpoints : List WorkerEndpointInfo
  pub fencing_token : FencingToken
  pub write_offset : ℕ
  pub chunk_size : ℕ
  pub block_format_id : ℕ
  pub tier : Tier

pub record CommittedBlock : Type 0 where
  pub block_id : BlockId
  pub len : ℕ

pub record FileBlockLocation : Type 0 where
  pub block_id : BlockId
  pub file_offset : ℕ
  pub len : ℕ
  pub workers : List WorkerEndpointInfo
  pub block_format_id : ℕ
  pub block_size : ℕ
  pub chunk_size : ℕ
  pub effective_len : ℕ
