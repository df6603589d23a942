-- ===== src/Registry/WellFormed/Sweep.antt =====
-- The bounded sweep and the retirement of one inode or operation
-- (beryl-metadata/src/session_registry.rs).
use vecton.Prelude.{
  ℕ, zero, suc, ◌+◌, ◌≤◌, ◌≡◌, refl, Option, some, none, arith, true, false, inl, inr, nat_eq,
  pair_eq, Option-cases, Bool-cases, ltb, leb, ap, subst,
}
use vecton.Prelude.Maps.{get, remove}
use vecton.Prelude.Counts.{total}
use vecton.Prelude.Checked.{◌>>=◌, Safe, Safe-some, Safe-map, Safe-bind}
use vecton.Types.Values.{InodeId}
use vecton.Registry.{
  SessionRegistryState, WriteSessionEntry, CreateOpeningSession, CreateFileOperationId,
  operation_eq, WriteOpeningId, retirement_at_ms,
}
use vecton.Registry.Entries.{remove_entry, remove_found}
use vecton.Registry.Creates.{remove_create_opening, remove_create_found}
use vecton.Registry.Retire.{
  first_pair, next_expiry, Expiry, nothing, next_entry, next_create, retire_create, retire_entry,
  retire_rounds, retire_expired_entries, retire_expired_entry_for_inode,
  retire_expired_create_opening_for_operation, max_expired_session_retirements_per_call,
  entry_retires, create_expired,
}
use vecton.Registry.WellFormed.{WellFormed}
use vecton.Registry.WellFormed.Retirement.{
  Kept, Less-refl, Less-trans, remove_found-Kept, remove_create_found-Kept, first_pair-get,
}

pub remove_entry-found :
    {s : SessionRegistryState} (k : InodeId) (e : WriteSessionEntry)
    → WellFormed s
    → get k s.entries ≡ some e
    → Safe
        (λ x.
          Kept s x.0
          × (get k x.0.entries ≡ none)
          × (x.1 ≡ some e)
          × (x.0.entries ≡ remove k s.entries)
          × (x.0.create_openings ≡ s.create_openings))
        (remove_entry k s)
unfolding remove_entry
remove_entry-found {s} k e w old =
    rw (remove_entry, old)
      (Safe-bind (remove_found k e s) _ (remove_found-Kept k e w old)
        (λ s' p. Safe-some _ (p.0, p.1, refl, p.2, p.3)))

-- An entry leaves, if there is one.
pub remove_entry-Kept :
    {s : SessionRegistryState} (k : InodeId)
    → WellFormed s
    → Safe (λ x. Kept s x.0) (remove_entry k s)
unfolding remove_entry
remove_entry-Kept {s} k w = elim (Option-cases (get k s.entries)) [
  | inl absent ↦ rw (remove_entry, absent) (Safe-some _ (w, Less-refl s))
  | inr (e, found) ↦ Safe-map (remove_entry-found k e w found) (λ x p. p.0)
]

pub remove_create_opening-found :
    {s : SessionRegistryState} (o : CreateFileOperationId) (c : CreateOpeningSession)
    → WellFormed s
    → get o s.create_openings ≡ some c
    → Safe
        (λ x.
          Kept s x.0
          × (get o x.0.create_openings ≡ none)
          × (x.0.entries ≡ s.entries)
          × (x.1 ≡ some c)
          × ((f : CreateFileOperationId → CreateOpeningSession → ℕ)
              → total f x.0.create_openings + f o c ≡ total f s.create_openings))
        (remove_create_opening o s)
unfolding remove_create_opening
remove_create_opening-found {s} o c w old =
    rw (remove_create_opening, old)
      (Safe-bind (remove_create_found o c s) _ (remove_create_found-Kept o c w old)
        (λ s' p. Safe-some _ (p.0, p.1, p.2, refl, p.3)))

pub remove_create_opening-Kept :
    {s : SessionRegistryState} (o : CreateFileOperationId)
    → WellFormed s
    → Safe (λ x. Kept s x.0) (remove_create_opening o s)
unfolding remove_create_opening
remove_create_opening-Kept {s} o w = elim (Option-cases (get o s.create_openings)) [
  | inl absent ↦ rw (remove_create_opening, absent) (Safe-some _ (w, Less-refl s))
  | inr (c, found) ↦ Safe-map (remove_create_opening-found o c w found) (λ x p. p.0)
]

pub retire_create-Kept :
    {s : SessionRegistryState} (t : ℕ) (id : WriteOpeningId)
    → WellFormed s
    → get (t, id) s.create_openings_by_expiry ≡ some tt
    → Safe (Kept s) (retire_create id s)
unfolding retire_create
retire_create-Kept {s} t id w listed =
    let (o, c, found, at, _) = w.create_by_expiry.sound (t, id) tt listed in
    let named : c.opening_id ≡ id = ground (arith, at) in
    rw (w.create_operations.complete o c id found (ap (λ (x : ℕ). some x) named)) (
      Safe-bind (remove_create_opening o s) _ (remove_create_opening-found o c w found)
        (λ x p. rw (p.3) (Safe-some x.0 p.0)))

pub retire_entry-Kept :
    {s : SessionRegistryState} (t : ℕ) (k : InodeId)
    → WellFormed s
    → get (t, k) s.entries_by_expiry ≡ some tt
    → Safe (Kept s) (retire_entry t k s)
unfolding retire_entry
retire_entry-Kept {s} t k w listed =
    let (k', e, found, at, _) = w.by_expiry.sound (t, k) tt listed in
    let same : k' ≡ k = ground (arith, at) in
    Safe-bind (remove_entry k s) _
      (remove_entry-found k e w (subst (λ j. get j s.entries ≡ some e) same found))
      (λ x p. rw (p.2) (Safe-some x.0 p.0))

-- The next expiry is listed in its index.
abbrev pub Listed : SessionRegistryState → Expiry → Type 0
Listed s nothing = Unit
Listed s (next_entry t k) = get (t, k) s.entries_by_expiry ≡ some tt
Listed s (next_create t id) = get (t, id) s.create_openings_by_expiry ≡ some tt

pub next_expiry-Listed :
    (s : SessionRegistryState) (a : Option (ℕ × InodeId)) (b : Option (ℕ × WriteOpeningId))
    → first_pair s.entries_by_expiry ≡ a
    → first_pair s.create_openings_by_expiry ≡ b
    → Listed s (next_expiry a b)
next_expiry-Listed s none none ha hb = tt
next_expiry-Listed s none (some (u, id)) ha hb =
    first_pair-get s.create_openings_by_expiry (u, id) hb
next_expiry-Listed s (some (t, k)) none ha hb = first_pair-get s.entries_by_expiry (t, k) ha
next_expiry-Listed s (some (t, k)) (some (u, id)) ha hb = elim (Bool-cases (ltb u t)) [
  | inl before ↦ rw before (first_pair-get s.create_openings_by_expiry (u, id) hb)
  | inr after ↦ rw after (first_pair-get s.entries_by_expiry (t, k) ha)
]

-- The rounds from here on are safe.
abbrev RoundsSafe : ℕ → ℕ → ℕ → Type 0
RoundsSafe budget now retired =
    (s : SessionRegistryState)
    → WellFormed s
    → Safe (λ x. Kept s x.0 × (x.1 ≤ budget + retired)) (retire_rounds budget now retired s)

-- The sweep never panics, and retires at most as many as its budget.
retire_rounds-Kept :
    (budget : ℕ) (now retired : ℕ) {s : SessionRegistryState}
    → WellFormed s
    → Safe (λ x. Kept s x.0 × (x.1 ≤ budget + retired)) (retire_rounds budget now retired s)
unfolding retire_rounds
retire_rounds-Kept zero now retired {s} w = Safe-some _ ((w, Less-refl s), omega arith)
retire_rounds-Kept (suc budget) now retired {s} w =
    go (next_expiry (first_pair s.entries_by_expiry) (first_pair s.create_openings_by_expiry))
      (next_expiry-Listed s _ _ refl refl) (λ s' w'. retire_rounds-Kept budget now (retired + 1) w')
  where
    done :
        Safe
          (λ (x : SessionRegistryState × ℕ). Kept s x.0 × (x.1 ≤ suc budget + retired))
          (some (s, retired))
    done = Safe-some _ ((w, Less-refl s), omega arith)

    more :
        (call : Option SessionRegistryState)
        → RoundsSafe budget now (retired + 1)
        → Safe (Kept s) call
        → Safe
            (λ (x : SessionRegistryState × ℕ). Kept s x.0 × (x.1 ≤ suc budget + retired))
            (call >>= λ s'. retire_rounds budget now (retired + 1) s')
    more call ih p =
        Safe-bind call _ p (λ s' k.
          Safe-map (ih s' k.0) (λ x q. ((q.0.0, Less-trans k.1 q.0.1), omega (arith, q.1))))

    go :
        (x : Expiry)
        → Listed s x
        → RoundsSafe budget now (retired + 1)
        → Safe
            (λ (x : SessionRegistryState × ℕ). Kept s x.0 × (x.1 ≤ suc budget + retired))
            (elim x [
              | nothing ↦ some (s, retired)
              | next_create t id ↦ elim (ltb now t) [
                | true ↦ some (s, retired)
                | false ↦ do s' ← retire_create id s; retire_rounds budget now (retired + 1) s'
              ]
              | next_entry t k ↦ elim (ltb now t) [
                | true ↦ some (s, retired)
                | false ↦ do s' ← retire_entry t k s; retire_rounds budget now (retired + 1) s'
              ]
            ])
    go nothing h ih = done
    go (next_create t id) h ih = elim (Bool-cases (ltb now t)) [
      | inl later ↦ rw later done
      | inr past ↦ rw past (more (retire_create id s) ih (retire_create-Kept t id w h))
    ]
    go (next_entry t k) h ih = elim (Bool-cases (ltb now t)) [
      | inl later ↦ rw later done
      | inr past ↦ rw past (more (retire_entry t k s) ih (retire_entry-Kept t k w h))
    ]

-- From a well-formed registry the sweep never panics: it leaves a well-formed registry of remaining
-- entries and openings, and retires no more than its budget.
pub retire_expired_entries-Kept :
    (now : ℕ) {s : SessionRegistryState}
    → WellFormed s
    → Safe
        (λ x. Kept s x.0 × (x.1 ≤ max_expired_session_retirements_per_call))
        (retire_expired_entries now s)
unfolding retire_expired_entries
retire_expired_entries-Kept now w =
    Safe-map (retire_rounds-Kept max_expired_session_retirements_per_call now 0 w)
      (λ x p. (p.0, omega (arith, p.1)))

-- One inode: afterwards it has no entry that should have retired.
pub retire_expired_entry_for_inode-Kept :
    (k : InodeId) (now : ℕ) {s : SessionRegistryState}
    → WellFormed s
    → Safe
        (λ x. Kept s x.0 × (entry_retires now (get k x.0.entries) ≡ false))
        (retire_expired_entry_for_inode k now s)
unfolding retire_expired_entry_for_inode
retire_expired_entry_for_inode-Kept k now {s} w = elim (Option-cases (get k s.entries)) [
  | inl absent ↦
      rw (retire_expired_entry_for_inode, absent)
        (Safe-some (s, false) ((w, Less-refl s), rw absent))
  | inr (e, found) ↦ elim (Bool-cases (leb (retirement_at_ms e) now)) [
    | inl past ↦
        rw (retire_expired_entry_for_inode, found, past)
          (Safe-bind (remove_entry k s) _ (remove_entry-found k e w found)
            (λ x p. Safe-some _ (p.0, rw (p.1))))
    | inr live ↦
        rw (retire_expired_entry_for_inode, found, live)
          (Safe-some (s, false) ((w, Less-refl s), rw (found, live)))
  ]
]

-- One CreateFile operation: afterwards it has no opening that has expired.
pub retire_expired_create_opening_for_operation-Kept :
    (o : CreateFileOperationId) (now : ℕ) {s : SessionRegistryState}
    → WellFormed s
    → Safe
        (λ x. Kept s x.0 × (create_expired now (get o x.0.create_openings) ≡ false))
        (retire_expired_create_opening_for_operation o now s)
unfolding retire_expired_create_opening_for_operation
retire_expired_create_opening_for_operation-Kept o now {s} w =
    elim (Option-cases (get o s.create_openings)) [
      | inl absent ↦
          rw (retire_expired_create_opening_for_operation, absent)
            (Safe-some (s, false) ((w, Less-refl s), rw absent))
      | inr (c, found) ↦ elim (Bool-cases (leb c.expires_at_ms now)) [
        | inl past ↦
            rw (retire_expired_create_opening_for_operation, found, past)
              (Safe-bind (remove_create_opening o s) _ (remove_create_opening-found o c w found)
                (λ x p. Safe-some _ (p.0, rw (p.1))))
        | inr live ↦
            rw (retire_expired_create_opening_for_operation, found, live)
              (Safe-some (s, false) ((w, Less-refl s), rw (found, live)))
      ]
    ]
