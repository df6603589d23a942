-- ===== src/Planner/Tiling.antt =====
-- What a plan of block reads covers (beryl-client/src/planner.rs).
use vecton.Prelude.{
  ℕ, ◌+◌, ◌≤◌, ◌<◌, ◌≡◌, List, [], ◌∷◌, arith, Option, some, Bool-cases, eqb, subst, inl, inr,
  if◌then◌else◌,
}
use vecton.Prelude.Result.{ok, ◌>>=◌, >>=-eq-ok}
use vecton.Planner.{Located, PlannedBlockRead, round, skip, push, Round, plan_rounds}

-- The reads follow one another without a gap from `cursor` to `end`, each with its length.
abbrev pub Tiles : ℕ → ℕ → List PlannedBlockRead → Type 0
Tiles cursor end [] = cursor ≡ end
Tiles cursor end (r ∷ rs) =
    (r.file_offset ≡ cursor)
    × (0 < r.len)
    × (r.end_file_offset ≡ r.file_offset + r.len)
    × Tiles r.end_file_offset end rs

round-push :
    (requested_end cursor : ℕ) (previous : Option ℕ) (l : Located) (r : PlannedBlockRead)
    → round requested_end cursor previous l ≡ ok (push r)
    → (r.file_offset ≡ cursor)
      × (0 < r.len)
      × (r.end_file_offset ≡ r.file_offset + r.len)
      × (r.end_file_offset ≤ requested_end)
      × (r.end_file_offset ≤ l.end)
      × (r.file_offset ≡ l.location.file_offset + r.block_offset)
unfolding round
round-push requested_end cursor previous l r h = ground arith

plan-nil :
    (requested_end cursor : ℕ) (previous : Option ℕ) (rs : List PlannedBlockRead)
    → cursor ≤ requested_end
    → plan_rounds requested_end cursor previous [] ≡ ok rs
    → Tiles cursor requested_end rs
unfolding plan_rounds
plan-nil requested_end cursor previous [] le h = ground arith
plan-nil requested_end cursor previous (r ∷ rs) le h = absurd (ground arith)

pub plan_rounds-Tiles :
    (ls : List Located) (requested_end cursor : ℕ) (previous : Option ℕ)
    (rs : List PlannedBlockRead)
    → cursor ≤ requested_end
    → plan_rounds requested_end cursor previous ls ≡ ok rs
    → Tiles cursor requested_end rs
unfolding plan_rounds
plan_rounds-Tiles [] requested_end cursor previous rs le h =
    plan-nil requested_end cursor previous rs le h
plan_rounds-Tiles (l ∷ ls) requested_end cursor previous rs le h =
    let (step, e, h1) = >>=-eq-ok (round requested_end cursor previous l) _ h in
    go step e h1 (λ c prev ts. plan_rounds-Tiles ls requested_end c prev ts)
  where
    go :
        (step : Round)
        → round requested_end cursor previous l ≡ ok step
        → elim step [
          | skip ↦ plan_rounds requested_end cursor (some l.end) ls
          | push read ↦ if eqb read.end_file_offset requested_end then ok (read ∷ []) else do
            rest ← plan_rounds requested_end read.end_file_offset (some l.end) ls
            ok (read ∷ rest)
        ]
          ≡ ok rs
        → ((c : ℕ) (prev : Option ℕ) (ts : List PlannedBlockRead)
            → c ≤ requested_end
            → plan_rounds requested_end c prev ls ≡ ok ts
            → Tiles c requested_end ts)
        → Tiles cursor requested_end rs
    go skip e q ih = ih cursor (some l.end) rs le q
    go (push r) e q ih =
        let (f, pos, len, top, _, _) = round-push requested_end cursor previous l r e in
        elim (Bool-cases (eqb r.end_file_offset requested_end)) [
          | inl last ↦
              let whole : r ∷ [] ≡ rs = ground arith in
              subst (Tiles cursor requested_end) whole (f, pos, len, ground arith)
          | inr more ↦
              let q' : (do
                rest ← plan_rounds requested_end r.end_file_offset (some l.end) ls
                ok (r ∷ rest))
                  ≡ ok rs =
                rw more at q in
              let (ts, t, q'') =
                >>=-eq-ok (plan_rounds requested_end r.end_file_offset (some l.end) ls) _ q' in
              let whole : r ∷ ts ≡ rs = ground (arith, q'') in
              subst (Tiles cursor requested_end) whole
                (f, pos, len, ih r.end_file_offset (some l.end) ts top t)
        ]
