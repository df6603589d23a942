-- ===== src/Registry/WellFormed/Tally.antt =====
-- What the sweep counts is what it takes away (beryl-metadata/src/session_registry.rs).
use vecton.Prelude.{
  ℕ, zero, suc, ◌+◌, ◌≤◌, ◌≡◌, refl, Option, some, arith, true, false, inl, inr, nat_eq, pair_eq,
  Bool-cases, ltb, ap, subst,
}
use vecton.Prelude.Maps.{get, remove}
use vecton.Prelude.Counts.{size, total, total-remove}
use vecton.Prelude.Checked.{◌>>=◌, Safe, Safe-some, Safe-map, Safe-bind}
use vecton.Types.Values.{InodeId}
use vecton.Registry.{SessionRegistryState, WriteSessionEntry, operation_eq, WriteOpeningId}
use vecton.Registry.Entries.{remove_entry}
use vecton.Registry.Creates.{remove_create_opening}
use vecton.Registry.Retire.{
  first_pair, next_expiry, Expiry, nothing, next_entry, next_create, retire_create, retire_entry,
  retire_rounds, retire_expired_entries, max_expired_session_retirements_per_call,
}
use vecton.Registry.WellFormed.{WellFormed}
use vecton.Registry.WellFormed.Sweep.{
  remove_entry-found, remove_create_opening-found, Listed, next_expiry-Listed,
}

-- The number of entries and create openings.
abbrev pub held : SessionRegistryState → ℕ
held s = size s.entries + size s.create_openings

-- A retirement takes one of them.
abbrev Fewer : SessionRegistryState → SessionRegistryState → Type 0
Fewer s s' = WellFormed s' × (held s' + 1 ≡ held s)

retire_create-Fewer :
    {s : SessionRegistryState} (t : ℕ) (id : WriteOpeningId)
    → WellFormed s
    → get (t, id) s.create_openings_by_expiry ≡ some tt
    → Safe (Fewer s) (retire_create id s)
unfolding retire_create size
retire_create-Fewer {s} t id w listed =
    let (o, c, found, at, _) = w.create_by_expiry.sound (t, id) tt listed in
    let named : c.opening_id ≡ id = ground (arith, at) in
    rw (w.create_operations.complete o c id found (ap (λ (x : ℕ). some x) named)) (
      Safe-bind (remove_create_opening o s) _ (remove_create_opening-found o c w found) (λ x p.
        rw (p.3) (
          Safe-some x.0 (
            p.0.0,
            omega (
              arith,
              p.4 (λ _ _. 1),
              ap (total (λ (_ : InodeId) (_ : WriteSessionEntry). 1)) p.2,
            ),
          ))))

entry_fewer :
    (s s' : SessionRegistryState) (k : InodeId) (e : WriteSessionEntry)
    → get k s.entries ≡ some e
    → s'.entries ≡ remove k s.entries
    → s'.create_openings ≡ s.create_openings
    → held s' + 1 ≡ held s
unfolding size
entry_fewer s s' k e here left rest =
    let one : total (λ _ _. 1) (remove k s.entries) + 1 ≡ total (λ _ _. 1) s.entries =
      rw here at (total-remove (λ _ _. 1) k s.entries) in
    omega (arith, one, ap (total (λ _ _. 1)) left, ap (total (λ _ _. 1)) rest)

retire_entry-Fewer :
    {s : SessionRegistryState} (t : ℕ) (k : InodeId)
    → WellFormed s
    → get (t, k) s.entries_by_expiry ≡ some tt
    → Safe (Fewer s) (retire_entry t k s)
unfolding retire_entry
retire_entry-Fewer {s} t k w listed =
    let (k', e, found, at, _) = w.by_expiry.sound (t, k) tt listed in
    let same : k' ≡ k = ground (arith, at) in
    let here : get k s.entries ≡ some e = subst (λ j. get j s.entries ≡ some e) same found in
    Safe-bind (remove_entry k s) _ (remove_entry-found k e w here)
      (λ x p. rw (p.2) (Safe-some x.0 (p.0.0, entry_fewer s x.0 k e here p.3 p.4)))

-- The rounds count on from those done.
abbrev Tallies : ℕ → ℕ → SessionRegistryState → SessionRegistryState × ℕ → Type 0
Tallies budget retired s x =
    WellFormed x.0 × (held x.0 + x.1 ≡ held s + retired) × (x.1 ≤ budget + retired)

abbrev RoundsTally : ℕ → ℕ → ℕ → Type 0
RoundsTally budget now retired =
    (s : SessionRegistryState)
    → WellFormed s
    → Safe (Tallies budget retired s) (retire_rounds budget now retired s)

retire_rounds-Tallies :
    (budget : ℕ) (now retired : ℕ) {s : SessionRegistryState}
    → WellFormed s
    → Safe (Tallies budget retired s) (retire_rounds budget now retired s)
unfolding retire_rounds
retire_rounds-Tallies zero now retired {s} w = Safe-some _ (w, refl, omega arith)
retire_rounds-Tallies (suc budget) now retired {s} w =
    go (next_expiry (first_pair s.entries_by_expiry) (first_pair s.create_openings_by_expiry))
      (next_expiry-Listed s _ _ refl refl)
      (λ s' w'. retire_rounds-Tallies budget now (retired + 1) w')
  where
    done : Safe (Tallies (suc budget) retired s) (some (s, retired))
    done = Safe-some _ (w, refl, omega arith)

    more :
        (call : Option SessionRegistryState)
        → RoundsTally budget now (retired + 1)
        → Safe (Fewer s) call
        → Safe
            (Tallies (suc budget) retired s)
            (call >>= λ s'. retire_rounds budget now (retired + 1) s')
    more call ih p =
        Safe-bind call _ p
          (λ s' k. Safe-map (ih s' k.0) (λ x q. (q.0, omega (arith, q.1, k.1), omega (arith, q.2))))

    go :
        (x : Expiry)
        → Listed s x
        → RoundsTally budget now (retired + 1)
        → Safe (Tallies (suc budget) retired s) (elim x [
          | nothing ↦ some (s, retired)
          | next_create t id ↦ elim (ltb now t) [
            | true ↦ some (s, retired)
            | false ↦ do s' ← retire_create id s; retire_rounds budget now (retired + 1) s'
          ]
          | next_entry t k ↦ elim (ltb now t) [
            | true ↦ some (s, retired)
            | false ↦ do s' ← retire_entry t k s; retire_rounds budget now (retired + 1) s'
          ]
        ])
    go nothing h ih = done
    go (next_create t id) h ih = elim (Bool-cases (ltb now t)) [
      | inl later ↦ rw later done
      | inr past ↦ rw past (more (retire_create id s) ih (retire_create-Fewer t id w h))
    ]
    go (next_entry t k) h ih = elim (Bool-cases (ltb now t)) [
      | inl later ↦ rw later done
      | inr past ↦ rw past (more (retire_entry t k s) ih (retire_entry-Fewer t k w h))
    ]

-- From a well-formed registry the sweep does not panic; the number that it returns is exactly by how
-- much the entries and create openings together have become fewer, and at most 64.
pub retire_expired_entries-held :
    (now : ℕ) {s : SessionRegistryState}
    → WellFormed s
    → Safe
        (λ x. (held x.0 + x.1 ≡ held s) × (x.1 ≤ max_expired_session_retirements_per_call))
        (retire_expired_entries now s)
unfolding retire_expired_entries
retire_expired_entries-held now {s} w =
    Safe-map (retire_rounds-Tallies max_expired_session_retirements_per_call now 0 w)
      (λ x p. (omega (arith, p.1), omega (arith, p.2)))
