-- ===== src/Inode/Coverage.antt =====
-- Block counts and block lengths against the length of a file (beryl-metadata/src/inode.rs).
use vecton.Prelude.{ℕ, zero, suc, ◌+◌, ◌*◌, ◌/◌, ◌≤◌, ◌<◌, min, ◌≡◌, false, [], arith, length}
use vecton.Prelude.Result.{ok}
use vecton.Types.Layout
use vecton.Types.Values.{InodeId, max_file_blocks}
use vecton.Inode.{FileData, blocks_of, validate, visible_block_len, invalid_identities}

-- The blocks cover the length, and the last one is needed.
pub blocks_of_cover : (len capacity : ℕ) → 0 < capacity → len ≤ blocks_of len capacity * capacity
blocks_of_cover zero capacity h = omega arith
blocks_of_cover (suc n) capacity h = grind arith

pub blocks_of-suc : (n capacity : ℕ) → blocks_of (suc n) capacity ≡ n / capacity + 1
blocks_of-suc n capacity = ground arith

pub blocks_of_tight :
    (len capacity : ℕ) → 0 < len → 0 < capacity → blocks_of len capacity * capacity < len + capacity
blocks_of_tight zero capacity h c = absurd (omega arith)
blocks_of_tight (suc n) capacity h c = rw blocks_of-suc (grind arith)

-- The sum of the visible lengths of the first `n` blocks.
pub sum_lens : ℕ → ℕ → ℕ → ℕ
sum_lens len capacity zero = 0
sum_lens len capacity (suc n) = sum_lens len capacity n + visible_block_len len capacity n

pub sum_lens_lem : (len capacity n : ℕ) → sum_lens len capacity n ≡ min len (n * capacity)
unfolding sum_lens visible_block_len
sum_lens_lem len capacity zero = omega arith
sum_lens_lem len capacity (suc n) = omega (arith, sum_lens_lem len capacity n)

pub record IsValid (i : InodeId) (f : FileData) : Type 0 where
  pub layout : Layout.validate f.layout ≡ ok tt
  pub capacity : 0 < f.layout.block_size
  pub bounded : blocks_of f.len f.layout.block_size ≤ max_file_blocks
  pub covers : length f.blocks ≡ blocks_of f.len f.layout.block_size
  pub identities : invalid_identities i f.next_index [] f.blocks ≡ false

pub validate-IsValid : (i : InodeId) (f : FileData) → validate i f ≡ ok tt → IsValid i f
unfolding validate
validate-IsValid i f h = ground arith

pub IsValid-validate : (i : InodeId) (f : FileData) → IsValid i f → validate i f ≡ ok tt
unfolding validate
IsValid-validate i f v = ground arith

-- The lengths of the blocks of a validated file add up to the length of the file.
pub block_len-sum :
    (i : InodeId) (f : FileData)
    → validate i f ≡ ok tt
    → sum_lens f.len f.layout.block_size (length f.blocks) ≡ f.len
block_len-sum i f h =
    let v = validate-IsValid i f h in
    rw v.covers (
      omega (
        arith,
        sum_lens_lem f.len f.layout.block_size (blocks_of f.len f.layout.block_size),
        blocks_of_cover f.len f.layout.block_size v.capacity,
      ))
