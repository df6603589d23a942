-- ===== src/Planner/Sources.antt =====
-- Where the reads of a plan come from (beryl-client/src/planner.rs).
use vecton.Prelude.{
  ℕ, ◌+◌, ◌≤◌, ◌≡◌, refl, ◌⊎◌, List, [], ◌∷◌, arith, Option, none, some, false, All, Bool-cases,
  eqb, subst, inl, inr, if◌then◌else◌, is_empty, sym, leb, ◌||◌,
}
use vecton.Prelude.Result.{ok, ◌>>=◌, >>=-eq-ok}
use vecton.Types.Values.{InodeId, FileBlockLocation}
use vecton.Planner.{
  Located, PlannedBlockRead, RequestedReadRange, round, skip, push, Round, plan_rounds,
  plan_block_reads, normalize, sort_by_key, insert_sorted, end_file_offset, check_location,
}
use vecton.Planner.Tiling.{Tiles, plan_rounds-Tiles}

-- Some member of the list has the property.
abbrev pub Among : {A : Type 0} → (A → Type 0) → List A → Type 0
Among P [] = ⊥
Among P (x ∷ xs) = P x ⊎ Among P xs

-- The read stays inside the location and is served by its workers.
pub record Reads (r : PlannedBlockRead) (l : FileBlockLocation) : Type 0 where
  pub block_id : r.block_id ≡ l.block_id
  pub at : r.file_offset ≡ l.file_offset + r.block_offset
  pub inside : r.block_offset + r.len ≤ l.len
  pub workers : r.workers ≡ l.workers
  pub some_worker : is_empty l.workers ≡ false

-- A location that was accepted, with its end.
pub record IsChecked (inode_id : InodeId) (l : Located) : Type 0 where
  pub end : l.end ≡ l.location.file_offset + l.location.len
  pub inode : l.location.block_id.inode_id ≡ inode_id
  pub some_worker : is_empty l.location.workers ≡ false

check_location-IsChecked :
    (inode_id : InodeId) (l : FileBlockLocation) (end : ℕ)
    → check_location inode_id l ≡ ok end
    → IsChecked inode_id (record { end = end; location = l })
unfolding check_location
check_location-IsChecked inode_id l end h = ground arith

round-Reads :
    (inode_id : InodeId) (requested_end cursor : ℕ) (previous : Option ℕ) (l : Located)
    (r : PlannedBlockRead)
    → IsChecked inode_id l
    → round requested_end cursor previous l ≡ ok (push r)
    → Reads r l.location
unfolding round
round-Reads inode_id requested_end cursor previous l r c h = ground arith

-- The sort keeps what holds of all members.
module _ (A : Located → Type 0) where
  insert_sorted-All :
      (l : Located) (ls : List Located) → A l → All A ls → All A (insert_sorted l ls)
  unfolding insert_sorted
  insert_sorted-All l [] h hs = (h, tt)
  insert_sorted-All l (x ∷ xs) h hs = ground (arith, insert_sorted-All l xs h hs.1)

  sort_by_key-All : (ls : List Located) → All A ls → All A (sort_by_key ls)
  unfolding sort_by_key
  sort_by_key-All [] h = tt
  sort_by_key-All (l ∷ ls) h = insert_sorted-All l (sort_by_key ls) h.0 (sort_by_key-All ls h.1)

-- A checked location of the layout.
abbrev Listed : InodeId → List FileBlockLocation → Located → Type 0
Listed inode_id locations l = IsChecked inode_id l × Among (λ x. x ≡ l.location) locations

All-mono :
    {A : Type 0} {P Q : A → Type 0} (xs : List A) → ((x : A) → P x → Q x) → All P xs → All Q xs
All-mono [] f h = tt
All-mono (x ∷ xs) f h = (f x h.0, All-mono xs f h.1)

normalize-Listed :
    (inode_id : InodeId) (range : RequestedReadRange) (locations : List FileBlockLocation)
    (ls : List Located)
    → normalize inode_id range locations ≡ ok ls
    → All (Listed inode_id locations) ls
unfolding normalize
normalize-Listed inode_id range [] [] h = tt
normalize-Listed inode_id range [] (l ∷ ls) h = absurd (ground arith)
normalize-Listed inode_id range (l ∷ rest) ls h =
    let (end, hc, h1) = >>=-eq-ok (check_location inode_id l) _ h in
    let (ms, hn, h2) = >>=-eq-ok (normalize inode_id range rest) _ h1 in
    let here : Located = record { end = end; location = l } in
    let c = check_location-IsChecked inode_id l end hc in
    let ih = All-mono ms (λ x y. (y.0, inr y.1)) (normalize-Listed inode_id range rest ms hn) in
    elim (Bool-cases (leb end range.file_offset || leb (end_file_offset range) l.file_offset)) [
      | inl out ↦ subst (All (Listed inode_id (l ∷ rest))) (ground (arith, h2)) ih
      | inr stays ↦
          let whole : here ∷ ms ≡ ls = ground (arith, h2) in
          subst (All (Listed inode_id (l ∷ rest))) whole ((c, inl refl), ih)
    ]

module _ (inode_id : InodeId) (locations : List FileBlockLocation) where
  read_source :
      (l : Located) (r : PlannedBlockRead) (xs : List FileBlockLocation)
      → Reads r l.location
      → Among (λ x. x ≡ l.location) xs
      → Among (Reads r) xs
  read_source l r [] h a = absurd a
  read_source l r (x ∷ xs) h (inl e) = inl (subst (Reads r) (sym e) h)
  read_source l r (x ∷ xs) h (inr a) = inr (read_source l r xs h a)

  plan_rounds-Reads :
      (ls : List Located) (requested_end cursor : ℕ) (previous : Option ℕ)
      (rs : List PlannedBlockRead)
      → All (Listed inode_id locations) ls
      → plan_rounds requested_end cursor previous ls ≡ ok rs
      → All (λ r. Among (Reads r) locations) rs
  unfolding plan_rounds
  plan_rounds-Reads [] requested_end cursor previous [] a h = tt
  plan_rounds-Reads [] requested_end cursor previous (r ∷ rs) a h = absurd (ground arith)
  plan_rounds-Reads (l ∷ ls) requested_end cursor previous rs a h =
      let (step, e, h1) = >>=-eq-ok (round requested_end cursor previous l) _ h in
      go step e h1 (λ c prev ts. plan_rounds-Reads ls requested_end c prev ts a.1)
    where
      go :
          (step : Round)
          → round requested_end cursor previous l ≡ ok step
          → elim step [
            | skip ↦ plan_rounds requested_end cursor (some l.end) ls
            | push read ↦ if eqb read.end_file_offset requested_end then ok (read ∷ []) else do
              rest ← plan_rounds requested_end read.end_file_offset (some l.end) ls
              ok (read ∷ rest)
          ]
            ≡ ok rs
          → ((c : ℕ) (prev : Option ℕ) (ts : List PlannedBlockRead)
              → plan_rounds requested_end c prev ls ≡ ok ts
              → All (λ r. Among (Reads r) locations) ts)
          → All (λ r. Among (Reads r) locations) rs
      go skip e q ih = ih cursor (some l.end) rs q
      go (push r) e q ih =
          let here =
            read_source l r locations
              (round-Reads inode_id requested_end cursor previous l r a.0.0 e) a.0.1 in
          elim (Bool-cases (eqb r.end_file_offset requested_end)) [
            | inl last ↦
                let whole : r ∷ [] ≡ rs = ground arith in
                subst (All (λ x. Among (Reads x) locations)) whole (here, tt)
            | inr more ↦
                let q' : (do
                  rest ← plan_rounds requested_end r.end_file_offset (some l.end) ls
                  ok (r ∷ rest))
                    ≡ ok rs =
                  rw more at q in
                let (ts, t, q'') =
                  >>=-eq-ok (plan_rounds requested_end r.end_file_offset (some l.end) ls) _ q' in
                let whole : r ∷ ts ≡ rs = ground (arith, q'') in
                subst (All (λ x. Among (Reads x) locations)) whole
                  (here, ih r.end_file_offset (some l.end) ts t)
          ]

-- An accepted plan reads the requested range from its start to its end, without a gap and without an
-- overlap, and every read lies inside a block location of the layout that has workers.
pub plan_block_reads-Tiles :
    (inode_id : InodeId) (range : RequestedReadRange) (locations : List FileBlockLocation)
    (rs : List PlannedBlockRead)
    → plan_block_reads inode_id range locations ≡ ok rs
    → Tiles range.file_offset (end_file_offset range) rs × All (λ r. Among (Reads r) locations) rs
unfolding plan_block_reads end_file_offset
plan_block_reads-Tiles inode_id range locations rs h =
    let (ls, hn, h1) = >>=-eq-ok (normalize inode_id range locations) _ h in
    let l =
      sort_by_key-All (Listed inode_id locations) ls
        (normalize-Listed inode_id range locations ls hn) in
    (
      plan_rounds-Tiles (sort_by_key ls) (end_file_offset range) range.file_offset none rs
          (omega arith) h1,
      plan_rounds-Reads inode_id locations (sort_by_key ls) (end_file_offset range)
          range.file_offset none rs l h1,
    )
