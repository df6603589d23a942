-- ===== src/Registry/WellFormed/Retirement.antt =====
-- Retirement keeps the registry well-formed and only takes entries and openings away
-- (beryl-metadata/src/session_registry.rs).
use vecton.Prelude.{
  ℕ, ◌+◌, ◌≤◌, ◌≡◌, refl, some, none, arith, inl, inr, eqb_iff, if◌then◌else◌, nat_eq, pair_eq, [],
  ◌∷◌, Map, Option-cases, Bool-cases, ap, pair_eqb_iff, pair_eqb, ◌∙◌,
}
use vecton.Prelude.Maps.{get, get-remove, remove}
use vecton.Prelude.Counts.{total, total-remove}
use vecton.Prelude.Checked.{Safe, Safe-map}
use vecton.Types.Values.{InodeId}
use vecton.Registry.{
  SessionRegistryState, WriteSessionEntry, CreateOpeningSession, CreateFileOperationId,
  operation_eq, operation_eqb_iff,
}
use vecton.Registry.Entries.{remove_found}
use vecton.Registry.Creates.{remove_create_found}
use vecton.Registry.Retire.{first_pair, pair_le}
use vecton.Registry.WellFormed.{WellFormed}
use vecton.Registry.WellFormed.Removal.{remove_found-Safe}
use vecton.Registry.WellFormed.Creates.{remove_create_found-Safe, shrinks_create}

-- What is in the later state was in the earlier one, and no sum over it is greater.
pub record Less (s s' : SessionRegistryState) : Type 0 where
  pub entries :
      (k : InodeId) (e : WriteSessionEntry) → get k s'.entries ≡ some e → get k s.entries ≡ some e
  pub creates :
      (o : CreateFileOperationId) (c : CreateOpeningSession)
      → get o s'.create_openings ≡ some c
      → get o s.create_openings ≡ some c
  pub entry_total : (f : InodeId → WriteSessionEntry → ℕ) → total f s'.entries ≤ total f s.entries
  pub create_total :
      (f : CreateFileOperationId → CreateOpeningSession → ℕ)
      → total f s'.create_openings ≤ total f s.create_openings
  pub next_opening_id : s'.next_opening_id ≡ s.next_opening_id
  pub next_publication_id : s'.next_publication_id ≡ s.next_publication_id

pub Less-refl : (s : SessionRegistryState) → Less s s
Less-refl s = record {
  entries = λ k e g. g;
  creates = λ o c g. g;
  entry_total = λ f. omega arith;
  create_total = λ f. omega arith;
  next_opening_id = refl;
  next_publication_id = refl;
}

pub Less-trans : {s t u : SessionRegistryState} → Less s t → Less t u → Less s u
Less-trans a b = record {
  entries = λ k e g. a.entries k e (b.entries k e g);
  creates = λ o c g. a.creates o c (b.creates o c g);
  entry_total = λ f. omega (arith, a.entry_total f, b.entry_total f);
  create_total = λ f. omega (arith, a.create_total f, b.create_total f);
  next_opening_id = b.next_opening_id ∙ a.next_opening_id;
  next_publication_id = b.next_publication_id ∙ a.next_publication_id;
}

abbrev pub Kept : SessionRegistryState → SessionRegistryState → Type 0
Kept s s' = WellFormed s' × Less s s'

-- An entry leaves, present or not.
pub remove_found-Kept :
    {s : SessionRegistryState} (k : InodeId) (e : WriteSessionEntry)
    → WellFormed s
    → get k s.entries ≡ some e
    → Safe
        (λ s'.
          Kept s s'
          × (get k s'.entries ≡ none)
          × (s'.entries ≡ remove k s.entries)
          × (s'.create_openings ≡ s.create_openings))
        (remove_found k e s)
remove_found-Kept {s} k e w old = Safe-map (remove_found-Safe w k e old) (λ s' p.
    let (w', (operations, activity, occupied, is)) = p in
    let left : s'.entries ≡ remove k s.entries = ap (λ (x : SessionRegistryState). x.entries) is in
    (
      (
        w',
        record {
          entries =
              λ j x g. ground (arith, ap (get j) left, get-remove k j s.entries w.entries_unique);
          creates = λ o c g.
              ground (arith, ap (λ (x : SessionRegistryState). get o x.create_openings) is);
          entry_total = λ f. omega (arith, ap (total f) left, total-remove f k s.entries);
          create_total =
              λ f. omega (arith, ap (λ (x : SessionRegistryState). total f x.create_openings) is);
          next_opening_id = ap (λ (x : SessionRegistryState). x.next_opening_id) is;
          next_publication_id = ap (λ (x : SessionRegistryState). x.next_publication_id) is;
        },
      ),
      ground (arith, ap (get k) left, get-remove k k s.entries w.entries_unique, eqb_iff k k),
      left,
      ap (λ (x : SessionRegistryState). x.create_openings) is,
    ))

pub remove_create_found-Kept :
    {s : SessionRegistryState} (o : CreateFileOperationId) (c : CreateOpeningSession)
    → WellFormed s
    → get o s.create_openings ≡ some c
    → Safe
        (λ s'.
          Kept s s'
          × (get o s'.create_openings ≡ none)
          × (s'.entries ≡ s.entries)
          × ((f : CreateFileOperationId → CreateOpeningSession → ℕ)
              → total f s'.create_openings + f o c ≡ total f s.create_openings))
        (remove_create_found o c s)
remove_create_found-Kept {s} o c w old = Safe-map (remove_create_found-Safe w o c old) (λ s' p.
    let (w', (activity, occupied, is)) = p in
    let left : s'.create_openings ≡ remove o s.create_openings =
      ap (λ (x : SessionRegistryState). x.create_openings) is in
    (
      (
        w',
        record {
          entries = λ j x g. ground (arith, ap (λ (x : SessionRegistryState). get j x.entries) is);
          creates = λ j x g.
              ground (arith, ap (get j) left, get-remove o j s.create_openings w.creates_unique);
          entry_total = λ f. omega (arith, ap (λ (x : SessionRegistryState). total f x.entries) is);
          create_total = λ f. omega (arith, ap (total f) left, total-remove f o s.create_openings);
          next_opening_id = ap (λ (x : SessionRegistryState). x.next_opening_id) is;
          next_publication_id = ap (λ (x : SessionRegistryState). x.next_publication_id) is;
        },
      ),
      ground (
        arith,
        ap (get o) left,
        get-remove o o s.create_openings w.creates_unique,
        operation_eqb_iff o o,
      ),
      ap (λ (x : SessionRegistryState). x.entries) is,
      λ f. omega (arith, ap (total f) left, shrinks_create f o c s.create_openings old),
    ))

pub first_pair-get : (m : Map (ℕ × ℕ) Unit) (p : ℕ × ℕ) → first_pair m ≡ some p → get p m ≡ some tt
unfolding first_pair get
first_pair-get [] p h = absurd (ground arith)
first_pair-get ((q, tt) ∷ m) p h = elim (Option-cases (first_pair m)) [
  | inl last ↦ let same : q ≡ p = ground (arith, rw last at h) in rw ((pair_eqb_iff q p).1 same)
  | inr (r, more) ↦ elim (Bool-cases (pair_eqb q p)) [
    | inl hit ↦ rw hit
    | inr miss ↦
        let at : (if pair_le q r then q else r) ≡ p = ground (arith, rw more at h) in
        elim (Bool-cases (pair_le q r)) [
          | inl le ↦ absurd (ground (arith, (pair_eqb_iff q p).1 (rw le at at)))
          | inr gt ↦ rw miss (first_pair-get m p (more ∙ ap (λ (x : ℕ × ℕ). some x) (rw gt at at)))
        ]
  ]
]
