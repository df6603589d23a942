-- ===== src/Inode.antt =====
-- beryl-metadata/src/inode.rs: the durable state of an inode, the publication of file content and
-- the evidence of a completed commit. usize is 64 bits wide, so its conversions do not fail.
pub mod Advances
pub mod Identities
pub mod Coverage
pub mod Merge
pub mod Publish
use vecton.Prelude.{
  ℕ, zero, suc, ◌+◌, ◌-◌, ◌*◌, ◌/◌, min, max, Bool, true, false, not, ◌&&◌, ◌||◌, Option, none,
  some, List, [], ◌∷◌, ◌++◌, map, Eq, ◌==◌, option_eq, eqb, ltb, leb, if◌then◌else◌, length,
  get_elem?, take, drop, first, contains,
}
use vecton.Prelude.Result.{Result, ok, err, panic, ◌>>=◌, ◌>>◌, map_err, reject_if}
use vecton.Types.Layout.{FileLayout, FileLayoutError}
use vecton.Types.Layout
use vecton.Types.Values.{
  InodeId, MountId, ClientId, CallId, LeaseEpoch, ContentGeneration, BlockId, block_id_eq,
  CommittedBlock, max_file_blocks, checked_next,
}
use vecton.MetadataError.{
  MetadataError, invalid_argument, resource_exhausted, internal, again, is_dir,
}

pub data PublishMode : Type 0 where
  replace_if_unchanged append_if_unchanged : PublishMode

abbrev publish_mode_eqb : PublishMode → PublishMode → Bool
publish_mode_eqb replace_if_unchanged replace_if_unchanged = true
publish_mode_eqb append_if_unchanged append_if_unchanged = true
publish_mode_eqb _ _ = false

pub record FilePublication : Type 0 where
  pub blocks : List CommittedBlock
  pub target_size : ℕ
  pub expected_generation : ContentGeneration
  pub expected_file_size : ℕ
  pub lease_epoch : LeaseEpoch
  pub mode : PublishMode

pub record FileCommit : Type 0 where
  pub client_id : ClientId
  pub call_id : CallId
  pub lease_epoch : LeaseEpoch
  pub expected_generation : ContentGeneration
  pub expected_file_size : ℕ
  pub mode : PublishMode
  pub committed_size : ℕ
  pub generation : ContentGeneration

pub record InodeAttrs : Type 0 where
  pub create_time : ℕ
  pub modify_time : ℕ

pub record FileData : Type 0 where
  pub layout : FileLayout
  pub len : ℕ
  pub generation : ContentGeneration
  pub blocks : List BlockId
  pub next_index : ℕ
  pub lease_epoch : LeaseEpoch
  pub last_commit : Option FileCommit

pub data InodeKind : Type 0 where
  file : FileData → InodeKind
  dir : InodeKind

pub record Inode : Type 0 where
  pub inode_id : InodeId
  pub attrs : InodeAttrs
  pub kind : InodeKind
  pub mount_id : MountId

-- InodeAttrs::initialize
unfoldable pub initialize : InodeAttrs → ℕ → InodeAttrs
initialize a now_ms = record a { create_time = now_ms; modify_time = now_ms }

unfoldable pub set_modify_time : InodeAttrs → ℕ → InodeAttrs
set_modify_time a now_ms = record a { modify_time = max a.modify_time now_ms }

-- The blocks that `len` bytes take at `capacity` bytes each.
abbrev pub blocks_of : ℕ → ℕ → ℕ
blocks_of len capacity = if eqb len 0 then 0 else (len - 1) / capacity + 1

-- FileData::block_count
unfoldable pub block_count : ℕ → ℕ → Result MetadataError ℕ
block_count len capacity = do
  reject_if (eqb capacity 0) (invalid_argument "zero block capacity")
  reject_if (ltb max_file_blocks (blocks_of len capacity))
      (resource_exhausted "file exceeds inline block limit")
  ok (blocks_of len capacity)

-- The closure of `any` in FileData::validate, along the blocks with the set of those seen.
unfoldable pub invalid_identities : InodeId → ℕ → List BlockId → List BlockId → Bool
invalid_identities inode_id next_index seen [] = false
invalid_identities inode_id next_index seen (b ∷ bs) =
    not (eqb b.inode_id inode_id)
    || leb next_index b.index
    || contains b seen
    || invalid_identities inode_id next_index (b ∷ seen) bs

-- FileData::validate
unfoldable pub validate : InodeId → FileData → Result MetadataError Unit
unfolding block_count
validate inode_id f = do
  map_err (λ _. internal "invalid file layout") (Layout.validate f.layout)
  count ← block_count f.len f.layout.block_size
  reject_if (not (eqb (length f.blocks) count))
      (internal "file length disagrees with its block count")
  reject_if (invalid_identities inode_id f.next_index [] f.blocks)
      (internal "file contains invalid block identities")

unfoldable pub visible_block_len : ℕ → ℕ → ℕ → ℕ
visible_block_len len capacity ordinal = min (len - ordinal * capacity) capacity

-- FileData::block_len
unfoldable pub block_len : FileData → ℕ → ℕ
unfolding visible_block_len
block_len f ordinal = visible_block_len f.len f.layout.block_size ordinal

-- The `match self.mode` of FilePublication::start_index.
unfoldable pub first_changed : FilePublication → ℕ → ℕ → Result MetadataError ℕ
first_changed p capacity count = elim p.mode [
  | replace_if_unchanged ↦ ok 0
  | append_if_unchanged ↦ do
    reject_if (ltb p.target_size p.expected_file_size)
        (invalid_argument "append cannot shrink visible content")
    if eqb (length p.blocks) 0 && eqb p.target_size p.expected_file_size
        then ok count
        else ok (p.expected_file_size / capacity)
]

-- The loop of FilePublication::start_index over the published blocks.
unfoldable pub check_lens : ℕ → ℕ → ℕ → List CommittedBlock → Result MetadataError Unit
check_lens target_size capacity ordinal [] = ok tt
check_lens target_size capacity ordinal (b ∷ bs) = do
  reject_if (not (eqb b.len (visible_block_len target_size capacity ordinal)))
      (invalid_argument "only the final block may be partial")
  check_lens target_size capacity (suc ordinal) bs

unfoldable pub start_index : FilePublication → FileData → Result MetadataError ℕ
unfolding block_count first_changed
start_index p f = do
  count ← block_count p.target_size f.layout.block_size
  start ← first_changed p f.layout.block_size count
  reject_if (ltb count start || not (eqb (length p.blocks) (count - start)))
      (invalid_argument "publication does not cover its target length")
  check_lens p.target_size f.layout.block_size start p.blocks
  ok start

abbrev pub block_ids : List CommittedBlock → List BlockId
block_ids [] = []
block_ids (b ∷ bs) = b.block_id ∷ block_ids bs

abbrev pub block_ids_eqb : List BlockId → List BlockId → Bool
block_ids_eqb [] [] = true
block_ids_eqb (x ∷ xs) (y ∷ ys) = x == y && block_ids_eqb xs ys
block_ids_eqb _ _ = false

-- `blocks.get(start..)` is some slice for every start up to the length.
unfoldable pub matches_visible : FilePublication → FileData → Result MetadataError Bool
matches_visible p f = do
  start ← start_index p f
  ok (
      eqb f.len p.target_size
      && leb start (length f.blocks)
      && block_ids_eqb (drop start f.blocks) (block_ids p.blocks))

-- The blocks that a publication keeps.
unfoldable pub kept_blocks : FilePublication → FileData → ℕ → Result MetadataError (List BlockId)
kept_blocks p f start = elim p.mode [
  | replace_if_unchanged ↦ ok []
  | append_if_unchanged ↦ do
    reject_if (not (eqb f.len p.expected_file_size) || ltb (length f.blocks) start)
        (again "append base no longer matches visible content")
    reject_if
        (ltb start (length f.blocks)
          && not (first (block_ids p.blocks) == get_elem? f.blocks start))
        (invalid_argument "append must reuse the existing partial tail")
    ok (take start f.blocks)
]

-- The loop of FilePublication::merged_blocks: `seen` and `blocks` as it changes them.
unfoldable pub push_blocks :
    InodeId
    → FileData
    → PublishMode
    → List BlockId
    → List BlockId
    → List CommittedBlock
    → Result MetadataError (List BlockId)
push_blocks inode_id f mode seen blocks [] = ok blocks
push_blocks inode_id f mode seen blocks (b ∷ bs) = do
  reject_if
      (not (eqb b.block_id.inode_id inode_id)
        || leb f.next_index b.block_id.index
        || contains b.block_id seen)
      (invalid_argument "publication contains a duplicate or unallocated block")
  reject_if (publish_mode_eqb mode replace_if_unchanged && contains b.block_id f.blocks)
      (invalid_argument "replacement requires new block identities")
  push_blocks inode_id f mode (b.block_id ∷ seen) (blocks ++ b.block_id ∷ []) bs

unfoldable pub merged_blocks :
    FilePublication → InodeId → FileData → Result MetadataError (List BlockId)
merged_blocks p inode_id f = do
  validate inode_id f
  start ← start_index p f
  blocks ← kept_blocks p f start
  push_blocks inode_id f p.mode blocks blocks p.blocks

-- Inode::file
unfoldable pub file_of : Inode → Result MetadataError FileData
file_of i = elim i.kind [ file f ↦ ok f | dir ↦ err (is_dir "inode is not a file") ]

-- commit.lease_epoch.checked_next().is_none_or(|ended| file.lease_epoch < ended)
abbrev pub epoch_not_ended : LeaseEpoch → LeaseEpoch → Bool
epoch_not_ended committed current = elim (checked_next committed) [
  | none ↦ true
  | some ended ↦ ltb current ended
]

-- FilePublication::resolve_commit past the checks on the identity of the call.
check_commit :
    FilePublication → FileData → FileCommit → Result MetadataError (Option ContentGeneration)
check_commit p f c = do
  reject_if
      (not (eqb c.generation f.generation)
        || not (eqb c.committed_size f.len)
        || epoch_not_ended c.lease_epoch f.lease_epoch)
      (internal "CommitFile evidence disagrees with its inode")
  reject_if
      (not (eqb c.lease_epoch p.lease_epoch)
        || not (eqb c.expected_generation p.expected_generation)
        || not (eqb c.expected_file_size p.expected_file_size)
        || not (publish_mode_eqb c.mode p.mode)
        || not (eqb c.committed_size p.target_size))
      (invalid_argument "CommitFile payload changed for a completed operation")
  visible ← matches_visible p f
  reject_if (not visible) (invalid_argument "CommitFile payload changed for a completed operation")
  ok (some c.generation)

unfoldable pub resolve_commit :
    FilePublication → Inode → ClientId → CallId → Result MetadataError (Option ContentGeneration)
unfolding file_of check_commit
resolve_commit p i client_id call_id = do
  f ← file_of i
  elim f.last_commit [
    | none ↦ ok none
    | some c ↦
        if not (eqb c.client_id client_id) || not (eqb c.call_id call_id)
        then ok none
        else check_commit p f c
  ]
