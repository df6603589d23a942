-- ===== src/Registry/WellFormed/Completeness.antt =====
-- The sweep stops short of its budget only where nothing has expired
-- (beryl-metadata/src/session_registry.rs).
use vecton.Prelude.{
  ℕ, zero, suc, ◌+◌, ◌≤◌, ◌<◌, ◌≡◌, refl, Option, some, none, [], ◌∷◌, arith, true, false, inl, inr,
  nat_eq, pair_eq, Option-cases, Bool-cases, ltb, ap, Map, pair_eqb, pair_eqb_iff,
}
use vecton.Prelude.Maps.{get}
use vecton.Prelude.Checked.{◌>>=◌, Safe, Safe-some, Safe-map, Safe-bind}
use vecton.Types.Values.{InodeId}
use vecton.Registry.{
  SessionRegistryState, WriteSessionEntry, CreateOpeningSession, CreateFileOperationId,
  operation_eq, WriteOpeningId, retirement_at_ms,
}
use vecton.Registry.Retire.{
  first_pair, pair_le, next_expiry, Expiry, nothing, next_entry, next_create, retire_create,
  retire_entry, retire_rounds, retire_expired_entries, max_expired_session_retirements_per_call,
}
use vecton.Registry.WellFormed.{WellFormed}
use vecton.Registry.WellFormed.Retirement.{Kept, Less-refl, Less-trans}
use vecton.Registry.WellFormed.Sweep.{
  Listed, next_expiry-Listed, retire_create-Kept, retire_entry-Kept,
}

-- No time in an index is before that of its first pair.
first_pair-le :
    (m : Map (ℕ × ℕ) Unit) (q : ℕ × ℕ)
    → get q m ≡ some tt
    → (p : ℕ × ℕ) × (first_pair m ≡ some p) × (p.0 ≤ q.0)
unfolding first_pair get
first_pair-le [] q h = absurd (cc)
first_pair-le ((r, tt) ∷ m) q h = elim (Bool-cases (pair_eqb r q)) [
  | inl hit ↦
      let at : r.0 ≡ q.0 = ap (λ (x : ℕ × ℕ). x.0) ((pair_eqb_iff r q).0 hit) in
      elim (Option-cases (first_pair m)) [
        | inl last ↦ (r, rw last, omega (arith, at))
        | inr (p, more) ↦ elim (Bool-cases (pair_le r p)) [
          | inl le ↦ (r, rw (more, le), omega (arith, at))
          | inr gt ↦ (p, rw (more, gt), ground (arith, at, gt))
        ]
      ]
  | inr miss ↦
      let (p, more, below) = first_pair-le m q (rw miss at h) in
      elim (Bool-cases (pair_le r p)) [
        | inl le ↦ (r, rw (more, le), ground (arith, le, below))
        | inr gt ↦ (p, rw (more, gt), below)
      ]
]

-- The next expiry, where there is one, is later than a time.
abbrev Later : ℕ → Expiry → Type 0
Later now nothing = Unit
Later now (next_entry t k) = now < t
Later now (next_create t id) = now < t

Later-entry :
    (now : ℕ) (p : ℕ × InodeId) (b : Option (ℕ × WriteOpeningId))
    → Later now (next_expiry (some p) b)
    → now < p.0
Later-entry now (t, k) none h = h
Later-entry now (t, k) (some (u, id)) h = elim (Bool-cases (ltb u t)) [
  | inl before ↦ let later : now < u = rw before at h in ground (arith, before, later)
  | inr after ↦ rw after at h
]

Later-create :
    (now : ℕ) (a : Option (ℕ × InodeId)) (q : ℕ × WriteOpeningId)
    → Later now (next_expiry a (some q))
    → now < q.0
Later-create now none (u, id) h = h
Later-create now (some (t, k)) (u, id) h = elim (Bool-cases (ltb u t)) [
  | inl before ↦ rw before at h
  | inr after ↦ let later : now < t = rw after at h in ground (arith, after, later)
]

-- No entry and no create opening has passed its time.
pub record NoneExpired (now : ℕ) (s : SessionRegistryState) : Type 0 where
  pub entries :
      (k : InodeId) (e : WriteSessionEntry) → get k s.entries ≡ some e → now < retirement_at_ms e
  pub create_openings :
      (o : CreateFileOperationId) (c : CreateOpeningSession)
      → get o s.create_openings ≡ some c
      → now < c.expires_at_ms

abbrev next_of : SessionRegistryState → Expiry
next_of s = next_expiry (first_pair s.entries_by_expiry) (first_pair s.create_openings_by_expiry)

Later-NoneExpired :
    {s : SessionRegistryState} (now : ℕ) → WellFormed s → Later now (next_of s) → NoneExpired now s
Later-NoneExpired {s} now w h = record {
  entries = λ k e found.
      let (p, first, le) =
        first_pair-le s.entries_by_expiry (retirement_at_ms e, k)
          (w.by_expiry.complete k e (retirement_at_ms e, k) found refl) in
      omega (arith, le, Later-entry now p (first_pair s.create_openings_by_expiry) (rw first at h));
  create_openings = λ o c found.
      let (p, first, le) =
        first_pair-le s.create_openings_by_expiry (c.expires_at_ms, c.opening_id)
          (w.create_by_expiry.complete o c (c.expires_at_ms, c.opening_id) found refl) in
      omega (arith, le, Later-create now (first_pair s.entries_by_expiry) p (rw first at h));
}

-- What the rounds from here on leave, where they stop short of the budget.
abbrev Finishes : ℕ → ℕ → ℕ → SessionRegistryState → SessionRegistryState × ℕ → Type 0
Finishes budget now retired s x = Kept s x.0 × (x.1 < budget + retired → NoneExpired now x.0)

abbrev RoundsFinish : ℕ → ℕ → ℕ → Type 0
RoundsFinish budget now retired =
    (s : SessionRegistryState)
    → WellFormed s
    → Safe (Finishes budget now retired s) (retire_rounds budget now retired s)

retire_rounds-Finishes :
    (budget : ℕ) (now retired : ℕ) {s : SessionRegistryState}
    → WellFormed s
    → Safe (Finishes budget now retired s) (retire_rounds budget now retired s)
unfolding retire_rounds
retire_rounds-Finishes zero now retired {s} w =
    Safe-some _ ((w, Less-refl s), λ short. absurd (omega (arith, short)))
retire_rounds-Finishes (suc budget) now retired {s} w =
    go (next_of s) (next_expiry-Listed s _ _ refl refl) (Later-NoneExpired now w)
      (λ s' w'. retire_rounds-Finishes budget now (retired + 1) w')
  where
    done : NoneExpired now s → Safe (Finishes (suc budget) now retired s) (some (s, retired))
    done clean = Safe-some _ ((w, Less-refl s), λ short. clean)

    more :
        (call : Option SessionRegistryState)
        → RoundsFinish budget now (retired + 1)
        → Safe (Kept s) call
        → Safe
            (Finishes (suc budget) now retired s)
            (call >>= λ s'. retire_rounds budget now (retired + 1) s')
    more call ih p = Safe-bind call _ p (λ s' k.
        Safe-map (ih s' k.0)
          (λ x q. ((q.0.0, Less-trans k.1 q.0.1), λ short. q.1 (omega (arith, short)))))

    go :
        (x : Expiry)
        → Listed s x
        → (Later now x → NoneExpired now s)
        → RoundsFinish budget now (retired + 1)
        → Safe (Finishes (suc budget) now retired s) (elim x [
          | nothing ↦ some (s, retired)
          | next_create t id ↦ elim (ltb now t) [
            | true ↦ some (s, retired)
            | false ↦ do s' ← retire_create id s; retire_rounds budget now (retired + 1) s'
          ]
          | next_entry t k ↦ elim (ltb now t) [
            | true ↦ some (s, retired)
            | false ↦ do s' ← retire_entry t k s; retire_rounds budget now (retired + 1) s'
          ]
        ])
    go nothing h clean ih = done (clean tt)
    go (next_create t id) h clean ih = elim (Bool-cases (ltb now t)) [
      | inl later ↦ rw later (done (clean (ground (arith, later))))
      | inr past ↦ rw past (more (retire_create id s) ih (retire_create-Kept t id w h))
    ]
    go (next_entry t k) h clean ih = elim (Bool-cases (ltb now t)) [
      | inl later ↦ rw later (done (clean (ground (arith, later))))
      | inr past ↦ rw past (more (retire_entry t k s) ih (retire_entry-Kept t k w h))
    ]

-- From a well-formed registry the sweep does not panic and leaves a well-formed registry with
-- nothing new in it; where it retires fewer than 64, no entry and no create opening that it leaves
-- has passed its time.
pub retire_expired_entries-NoneExpired :
    (now : ℕ) {s : SessionRegistryState}
    → WellFormed s
    → Safe
        (λ x. Kept s x.0 × (x.1 < max_expired_session_retirements_per_call → NoneExpired now x.0))
        (retire_expired_entries now s)
unfolding retire_expired_entries
retire_expired_entries-NoneExpired now w =
    Safe-map (retire_rounds-Finishes max_expired_session_retirements_per_call now 0 w)
      (λ x p. (p.0, λ short. p.1 (omega (arith, short))))
