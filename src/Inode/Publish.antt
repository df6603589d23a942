-- ===== src/Inode/Publish.antt =====
-- What an accepted publication guarantees (FilePublication in beryl-metadata/src/inode.rs).
use vecton.Prelude.{
  ℕ, zero, suc, ◌+◌, ◌/◌, ◌≤◌, ◌<◌, ◌≡◌, refl, true, false, List, [], ◌∷◌, ◌++◌, arith, length,
  take, drop, get_elem?, first, contains, All, inl, inr, drop-append_length, length-append,
  test_refl, ap, sym, ◌∙◌,
}
use native.Mathlib.Nat.{le-div_iff_mul-le, div-mul-le_self, le_trans}
use native.Mathlib.Decide.{dec_lt}
use vecton.Prelude.Result.{ok}
use vecton.Types.Values.{InodeId, CommittedBlock, BlockId, block_id_eq}
use vecton.Inode.{
  FileData, FilePublication, PublishMode, blocks_of, validate, start_index, push_blocks,
  merged_blocks, append_if_unchanged, replace_if_unchanged, block_ids, block_ids_eqb,
  matches_visible,
}
use vecton.Inode.Identities.{push_blocks-eq-ok}
use vecton.Inode.Coverage.{IsValid-validate, blocks_of-suc}
use vecton.Inode.Merge.{
  merged_blocks-Merges, merged_blocks-good, start_index-Starts, start_index-append,
  kept_blocks-append, kept_blocks-good, kept_blocks-replace,
}

-- The file with a publication's length and blocks.
abbrev pub published : FilePublication → FileData → List BlockId → FileData
published p f r = record f { len = p.target_size; blocks = r }

-- A validated file stays valid under every publication that is accepted.
pub merged_blocks-validate :
    (p : FilePublication) (i : InodeId) (f : FileData) (r : List BlockId)
    → merged_blocks p i f ≡ ok r
    → validate i (published p f r) ≡ ok tt
merged_blocks-validate p i f r h =
    let m = merged_blocks-Merges p i f r h in
    let s = start_index-Starts p f m.start m.starts in
    let (len, good) = merged_blocks-good p i f r h in
    IsValid-validate i (published p f r) (record {
      layout = m.valid.layout;
      capacity = m.valid.capacity;
      bounded = s.bounded;
      covers = len;
      identities = good;
    })

get_elem?-take-append :
    (xs ys : List BlockId) (n k : ℕ)
    → k < n
    → n ≤ length xs
    → get_elem? (take n xs ++ ys) k ≡ get_elem? xs k
get_elem?-take-append xs ys zero k h l = absurd (omega arith)
get_elem?-take-append [] ys (suc n) k h l = absurd (omega arith)
get_elem?-take-append (x ∷ xs) ys (suc n) zero h l = refl
get_elem?-take-append (x ∷ xs) ys (suc n) (suc k) h l =
    get_elem?-take-append xs ys n k (omega arith) (omega arith)

get_elem?-append-length : (xs ys : List BlockId) → get_elem? (xs ++ ys) (length xs) ≡ first ys
get_elem?-append-length [] [] = refl
get_elem?-append-length [] (y ∷ ys) = refl
get_elem?-append-length (x ∷ xs) ys = get_elem?-append-length xs ys

-- Only the block at the end of a file can be partial.
length-le-div : (len capacity : ℕ) → 0 < capacity → blocks_of len capacity ≤ len / capacity + 1
length-le-div zero capacity c = omega arith
length-le-div (suc n) capacity c = rw blocks_of-suc (
    omega (
      arith,
      (le-div_iff_mul-le {x = n / capacity} {y = suc n} c).1
          (le_trans (div-mul-le_self n capacity) (omega arith)),
    ))

-- An accepted append leaves every block of the file where it is, a partial tail included.
pub merged_blocks-append :
    (p : FilePublication) (i : InodeId) (f : FileData) (r : List BlockId)
    → p.mode ≡ append_if_unchanged
    → merged_blocks p i f ≡ ok r
    → (k : ℕ) → k < length f.blocks
    → get_elem? r k ≡ get_elem? f.blocks k
merged_blocks-append p i f r mode h k lt =
    let m = merged_blocks-Merges p i f r h in
    let s = start_index-Starts p f m.start m.starts in
    let (kept, len, le, tail) = kept_blocks-append p f m.start m.kept mode m.keeps in
    let (e, _) = push_blocks-eq-ok i f p.mode p.blocks m.kept m.kept r m.pushes in
    let (kl, _) = kept_blocks-good p i f m.start m.kept m.valid m.starts m.keeps in
    rw e (elim (dec_lt k m.start) [
      | yes before ↦
          rw kept (get_elem?-take-append f.blocks (block_ids p.blocks) m.start k before le)
      | no after ↦
          let at : k ≡ m.start = elim (start_index-append p f m.start mode m.starts) [
            | inl q ↦ omega (
              arith,
              m.valid.covers,
              length-le-div f.len f.layout.block_size m.valid.capacity,
              ap (λ (t : ℕ). t / f.layout.block_size) len,
            )
            | inr (none_new, same) ↦ absurd (
                omega (
                  arith,
                  s.covers,
                  m.valid.covers,
                  ap length none_new,
                  ap (λ (t : ℕ). blocks_of t f.layout.block_size) (len ∙ sym same),
                ))
          ] in
          let here : k ≡ length m.kept = at ∙ sym kl in
          rw here (
            get_elem?-append-length m.kept (block_ids p.blocks)
            ∙ tail (omega arith)
            ∙ ap (get_elem? f.blocks) (sym kl))
    ])

push_blocks-new :
    (i : ℕ) (f : FileData) (mode : PublishMode) (bs : List CommittedBlock)
    (seen acc r : List BlockId)
    → mode ≡ replace_if_unchanged
    → push_blocks i f mode seen acc bs ≡ ok r
    → All (λ b. contains b f.blocks ≡ false) (block_ids bs)
unfolding push_blocks
push_blocks-new i f mode [] seen acc r m h = tt
push_blocks-new i f mode (b ∷ bs) seen acc r m h =
    ground (arith, push_blocks-new i f mode bs (b.block_id ∷ seen) (acc ++ b.block_id ∷ []) r m)

-- An accepted replacement has none of the blocks of the file that it replaces.
pub merged_blocks-replace :
    (p : FilePublication) (i : InodeId) (f : FileData) (r : List BlockId)
    → p.mode ≡ replace_if_unchanged
    → merged_blocks p i f ≡ ok r
    → All (λ b. contains b f.blocks ≡ false) r
merged_blocks-replace p i f r mode h =
    let m = merged_blocks-Merges p i f r h in
    let e = kept_blocks-replace p f m.start m.kept mode m.keeps in
    let (eq, _) = push_blocks-eq-ok i f p.mode p.blocks m.kept m.kept r m.pushes in
    let new = push_blocks-new i f p.mode p.blocks m.kept m.kept r mode m.pushes in rw (eq, e) new

block_ids_eqb_refl : (xs : List BlockId) → block_ids_eqb xs xs ≡ true
block_ids_eqb_refl [] = refl
block_ids_eqb_refl (x ∷ xs) = ground (arith, test_refl x, block_ids_eqb_refl xs)

start_index-layout :
    (p : FilePublication) (f : FileData) (r : List BlockId) (start : ℕ)
    → start_index p f ≡ ok start
    → start_index p (published p f r) ≡ ok start
unfolding start_index
start_index-layout p f r start h = h

matches_visible-at :
    (p : FilePublication) (g : FileData) (start : ℕ)
    → start_index p g ≡ ok start
    → g.len ≡ p.target_size
    → start ≤ length g.blocks
    → drop start g.blocks ≡ block_ids p.blocks
    → matches_visible p g ≡ ok true
unfolding matches_visible
matches_visible-at p g start h e le d =
    rw (h, d) (ground (arith, block_ids_eqb_refl (block_ids p.blocks)))

le-of-parts :
    (xs ys : List BlockId) (n : ℕ) (r : List BlockId) → r ≡ xs ++ ys → length xs ≡ n → n ≤ length r
le-of-parts xs ys n r e l = omega (arith, ap length e, length-append xs ys)

drop-of-parts :
    (xs ys : List BlockId) (n : ℕ) (r : List BlockId) → r ≡ xs ++ ys → length xs ≡ n → drop n r ≡ ys
drop-of-parts xs ys n r e l = rw (e, ← l) (drop-append_length xs ys)

-- Once published, a publication is recognised as the visible content.
pub merged_blocks-matches_visible :
    (p : FilePublication) (i : InodeId) (f : FileData) (r : List BlockId)
    → merged_blocks p i f ≡ ok r
    → matches_visible p (published p f r) ≡ ok true
merged_blocks-matches_visible p i f r h =
    let m = merged_blocks-Merges p i f r h in
    let (e, _) = push_blocks-eq-ok i f p.mode p.blocks m.kept m.kept r m.pushes in
    let (kl, _) = kept_blocks-good p i f m.start m.kept m.valid m.starts m.keeps in
    matches_visible-at p (published p f r) m.start (start_index-layout p f r m.start m.starts) refl
      (le-of-parts m.kept (block_ids p.blocks) m.start r e kl)
      (drop-of-parts m.kept (block_ids p.blocks) m.start r e kl)
