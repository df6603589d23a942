-- ===== src/Inode/Identities.antt =====
-- Lists of block identities that one inode owns, without repetition (beryl-metadata/src/inode.rs).
use vecton.Prelude.{
  ℕ, zero, suc, ◌≡◌, refl, false, ◌||◌, List, [], ◌∷◌, ◌++◌, arith, contains, take, ◌≤◌,
}
use mathlib.Core.List.{append-nil, append_assoc}
use vecton.Prelude.Result.{ok}
use vecton.Types.Values.{BlockId, block_id_eq, CommittedBlock}
use vecton.Inode.{FileData, PublishMode, invalid_identities, push_blocks, block_ids}

abbrev SameSet : List BlockId → List BlockId → Type 0
SameSet s t = (b : BlockId) → contains b s ≡ contains b t

SameSet-cons : (c : BlockId) (s t : List BlockId) → SameSet s t → SameSet (c ∷ s) (c ∷ t)
unfolding contains
SameSet-cons c s t h b = ground (arith, h b)

SameSet-swap : (c : BlockId) (xs s : List BlockId) → SameSet (c ∷ xs ++ s) (xs ++ c ∷ s)
unfolding contains
SameSet-swap c [] s b = refl
SameSet-swap c (x ∷ xs) s b = ground (arith, SameSet-swap c xs s b)

module _ (i n : ℕ) where
  invalid_same :
      (xs s t : List BlockId)
      → SameSet s t
      → invalid_identities i n s xs ≡ invalid_identities i n t xs
  unfolding invalid_identities
  invalid_same [] s t h = refl
  invalid_same (x ∷ xs) s t h =
      ground (arith, h x, invalid_same xs (x ∷ s) (x ∷ t) (SameSet-cons x s t h))

  -- A list is good exactly when its first part is, and its rest is beside the first part.
  pub invalid-append :
      (xs ys s : List BlockId)
      → invalid_identities i n s (xs ++ ys)
        ≡ (invalid_identities i n s xs || invalid_identities i n (xs ++ s) ys)
  unfolding invalid_identities
  invalid-append [] ys s = refl
  invalid-append (x ∷ xs) ys s = ground (
    arith,
    invalid-append xs ys (x ∷ s),
    invalid_same ys (x ∷ xs ++ s) (xs ++ x ∷ s) (SameSet-swap x xs s),
  )

  pub invalid-take :
      (k : ℕ) (xs s : List BlockId)
      → invalid_identities i n s xs ≡ false
      → invalid_identities i n s (take k xs) ≡ false
  unfolding invalid_identities
  invalid-take zero xs s h = refl
  invalid-take (suc k) [] s h = refl
  invalid-take (suc k) (x ∷ xs) s h = ground (arith, invalid-take k xs (x ∷ s))

-- A longer range of allocated indexes keeps a list good.
pub invalid_mono :
    (i n m : ℕ) (xs s : List BlockId)
    → n ≤ m
    → invalid_identities i n s xs ≡ false
    → invalid_identities i m s xs ≡ false
unfolding invalid_identities
invalid_mono i n m [] s le h = refl
invalid_mono i n m (x ∷ xs) s le h = ground (arith, invalid_mono i n m xs (x ∷ s))

-- What the loop of `merged_blocks` appends: the published blocks, all good and not seen.
pub push_blocks-eq-ok :
    (i : ℕ) (f : FileData) (mode : PublishMode) (bs : List CommittedBlock)
    (seen acc r : List BlockId)
    → push_blocks i f mode seen acc bs ≡ ok r
    → (r ≡ acc ++ block_ids bs) × (invalid_identities i f.next_index seen (block_ids bs) ≡ false)
unfolding push_blocks invalid_identities
push_blocks-eq-ok i f mode [] seen acc r h = (ground (arith, append-nil acc), refl)
push_blocks-eq-ok i f mode (b ∷ bs) seen acc r h = ground (
  arith,
  push_blocks-eq-ok i f mode bs (b.block_id ∷ seen) (acc ++ b.block_id ∷ []) r,
  append_assoc acc (b.block_id ∷ []) (block_ids bs),
)
