-- ===== src/Types/Layout/Laws.antt =====
-- Which shapes and layouts are accepted (beryl-types/src/layout.rs).
use vecton.Prelude.{ℕ, ◌≤◌, ◌<◌, ◌≡◌, ◌≢◌, ◌↔◌, arith}
use vecton.Prelude.Result.{ok, panic}
use vecton.Types.Layout.{
  FileLayout, BlockShape, new_shape, for_effective_len, validate, durable_prefix, max_block_size,
  durable_prefix_storage_chunk_size,
}

abbrev pub IsShape : ℕ → ℕ → ℕ → ℕ → Type 0
IsShape f b c n =
    (f ≡ durable_prefix)
    × (0 < b)
    × (b ≤ max_block_size)
    × (c ≡ durable_prefix_storage_chunk_size)
    × (0 < n)
    × (n ≤ b)

-- A shape is built exactly from the current format, a block size in (0, 1 GiB], the chunk size of
-- the format, and an effective length in (0, block size]; and it holds these four values.
pub new_shape-eq-ok :
    (f b c n : ℕ) (s : BlockShape)
    → (new_shape f b c n ≡ ok s) ↔ (
        IsShape f b c n
        × (s ≡ record { block_format_id = f; block_size = b; chunk_size = c; effective_len = n }))
unfolding new_shape
new_shape-eq-ok f b c n s = (λ h. ground arith, λ h. ground arith)

pub validate-ne-panic : (l : FileLayout) → validate l ≢ panic
unfolding validate
validate-ne-panic l h = ground arith

pub validate-eq-ok :
    (l : FileLayout)
    → (validate l ≡ ok tt) ↔ (
        (l.block_format_id ≡ durable_prefix) × (0 < l.block_size) × (l.block_size ≤ max_block_size))
unfolding validate
validate-eq-ok l = (λ h. ground arith, λ h. ground arith)

-- A validated layout has a shape for every length up to its block size, and for no other.
pub for_effective_len-eq-ok :
    (l : FileLayout) (n : ℕ)
    → validate l ≡ ok tt
    → ((s : BlockShape) × (for_effective_len l n ≡ ok s)) ↔ ((0 < n) × (n ≤ l.block_size))
unfolding validate for_effective_len
for_effective_len-eq-ok l n h = (
  λ k. ground (arith, k.1),
  λ k. (
    record {
      block_format_id = l.block_format_id;
      block_size = l.block_size;
      chunk_size = durable_prefix_storage_chunk_size;
      effective_len = n;
    },
    ground arith,
  ),
)
