-- ===== src/Inode/Merge.antt =====
-- What a publication does to the blocks of a file (FilePublication in beryl-metadata/src/inode.rs).
use vecton.Prelude.{
  ℕ, ◌+◌, ◌/◌, ◌≤◌, ◌<◌, ◌≡◌, refl, false, List, [], ◌∷◌, arith, length, take, get_elem?,
  length-append, length-take, first, ◌⊎◌, inl, inr, option_eqb_iff,
}
use mathlib.Core.List.{append-nil}
use vecton.Prelude.Result.{ok, >>=-eq-ok}
use vecton.Types.Values.{InodeId, CommittedBlock, max_file_blocks, BlockId, block_id_eq}
use vecton.Inode.{
  FileData, FilePublication, blocks_of, validate, check_lens, start_index, kept_blocks, PublishMode,
  push_blocks, merged_blocks, invalid_identities, append_if_unchanged, replace_if_unchanged,
  block_ids,
}
use vecton.Inode.Identities.{invalid-append, invalid-take, push_blocks-eq-ok}
use vecton.Inode.Coverage.{IsValid, validate-IsValid}

-- What an accepted publication fixes about its blocks.
pub record Starts (p : FilePublication) (f : FileData) (start : ℕ) : Type 0 where
  pub capacity : 0 < f.layout.block_size
  pub bounded : blocks_of p.target_size f.layout.block_size ≤ max_file_blocks
  pub covers : start + length p.blocks ≡ blocks_of p.target_size f.layout.block_size
  pub lens : check_lens p.target_size f.layout.block_size start p.blocks ≡ ok tt

pub start_index-Starts :
    (p : FilePublication) (f : FileData) (start : ℕ) → start_index p f ≡ ok start → Starts p f start
unfolding start_index
start_index-Starts p f start h = ground arith

pub length-block_ids : (bs : List CommittedBlock) → length (block_ids bs) ≡ length bs
length-block_ids [] = refl
length-block_ids (b ∷ bs) = omega (arith, length-block_ids bs)

-- The parts of a successful merge.
pub record Merges (p : FilePublication) (i : InodeId) (f : FileData) (r : List BlockId)
    : Type 0 where
  pub valid : IsValid i f
  pub start : ℕ
  pub starts : start_index p f ≡ ok start
  pub kept : List BlockId
  pub keeps : kept_blocks p f start ≡ ok kept
  pub pushes : push_blocks i f p.mode kept kept p.blocks ≡ ok r

pub merged_blocks-Merges :
    (p : FilePublication) (i : InodeId) (f : FileData) (r : List BlockId)
    → merged_blocks p i f ≡ ok r
    → Merges p i f r
unfolding merged_blocks
merged_blocks-Merges p i f r h =
    let (u, hv, h1) = >>=-eq-ok (validate i f) _ h in
    let (start, hs, h2) = >>=-eq-ok (start_index p f) _ h1 in
    let (kept, hk, hp) = >>=-eq-ok (kept_blocks p f start) _ h2 in
    record {
      valid = validate-IsValid i f hv;
      start = start;
      starts = hs;
      kept = kept;
      keeps = hk;
      pushes = hp;
    }

start_index-replace :
    (p : FilePublication) (f : FileData) (start : ℕ)
    → p.mode ≡ replace_if_unchanged
    → start_index p f ≡ ok start
    → start ≡ 0
unfolding start_index
start_index-replace p f start m h = ground arith

-- In append mode the first changed block is the one at the old end, or none for no change.
pub start_index-append :
    (p : FilePublication) (f : FileData) (start : ℕ)
    → p.mode ≡ append_if_unchanged
    → start_index p f ≡ ok start
    → (start ≡ p.expected_file_size / f.layout.block_size)
      ⊎ ((p.blocks ≡ []) × (p.target_size ≡ p.expected_file_size))
unfolding start_index
start_index-append p f start m h = ground arith

pub kept_blocks-replace :
    (p : FilePublication) (f : FileData) (start : ℕ) (kept : List BlockId)
    → p.mode ≡ replace_if_unchanged
    → kept_blocks p f start ≡ ok kept
    → kept ≡ []
unfolding kept_blocks
kept_blocks-replace p f start kept m h = ground arith

pub kept_blocks-append :
    (p : FilePublication) (f : FileData) (start : ℕ) (kept : List BlockId)
    → p.mode ≡ append_if_unchanged
    → kept_blocks p f start ≡ ok kept
    → (kept ≡ take start f.blocks)
      × (f.len ≡ p.expected_file_size)
      × (start ≤ length f.blocks)
      × (start < length f.blocks → first (block_ids p.blocks) ≡ get_elem? f.blocks start)
unfolding kept_blocks
kept_blocks-append p f start kept m h =
    ground (arith, option_eqb_iff (first (block_ids p.blocks)) (get_elem? f.blocks start))

pub PublishMode-cases : (m : PublishMode) → (m ≡ replace_if_unchanged) ⊎ (m ≡ append_if_unchanged)
PublishMode-cases replace_if_unchanged = inl refl
PublishMode-cases append_if_unchanged = inr refl

-- What is kept is a good part of the file, and it has `start` blocks.
pub kept_blocks-good :
    (p : FilePublication) (i : InodeId) (f : FileData) (start : ℕ) (kept : List BlockId)
    → IsValid i f
    → start_index p f ≡ ok start
    → kept_blocks p f start ≡ ok kept
    → (length kept ≡ start) × (invalid_identities i f.next_index [] kept ≡ false)
unfolding invalid_identities
kept_blocks-good p i f start kept v hs hk = elim (PublishMode-cases p.mode) [
  | inl m ↦
      let e0 = start_index-replace p f start m hs in
      let e1 = kept_blocks-replace p f start kept m hk in rw (e0, e1) (refl, refl)
  | inr m ↦
      let (e, _, le, _) = kept_blocks-append p f start kept m hk in
      rw e (
        omega (arith, length-take start f.blocks),
        invalid-take i f.next_index start f.blocks [] v.identities,
      )
]

-- A successful merge has all the blocks of the target length, none of them foreign, unallocated
-- or twice.
pub merged_blocks-good :
    (p : FilePublication) (i : InodeId) (f : FileData) (r : List BlockId)
    → merged_blocks p i f ≡ ok r
    → (length r ≡ blocks_of p.target_size f.layout.block_size)
      × (invalid_identities i f.next_index [] r ≡ false)
merged_blocks-good p i f r h =
    let m = merged_blocks-Merges p i f r h in
    let s = start_index-Starts p f m.start m.starts in
    let (kl, ki) = kept_blocks-good p i f m.start m.kept m.valid m.starts m.keeps in
    let (e, good) = push_blocks-eq-ok i f p.mode p.blocks m.kept m.kept r m.pushes in
    rw e (
      omega (arith, s.covers, length-append m.kept (block_ids p.blocks), length-block_ids p.blocks),
      ground
          (arith, invalid-append i f.next_index m.kept (block_ids p.blocks) [], append-nil m.kept),
    )
