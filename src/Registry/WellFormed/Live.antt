-- ===== src/Registry/WellFormed/Live.antt =====
-- The sweep takes no entry away before its time (beryl-metadata/src/session_registry.rs).
use vecton.Prelude.{
  ℕ, zero, suc, ◌+◌, ◌≤◌, ◌<◌, ◌≡◌, refl, Option, some, arith, true, false, inl, inr, eqb, eqb_iff,
  nat_eq, pair_eq, Option-cases, Bool-cases, ltb, leb, ◌∙◌, ap, subst, Bool, none, ◌≢◌, ◌↔◌,
}
use vecton.Prelude.Maps.{get, get-remove, remove}
use vecton.Prelude.Checked.{◌>>=◌, Safe, Safe-some, Safe-map, Safe-bind}
use vecton.Types.Values.{InodeId}
use vecton.Registry.{
  SessionRegistryState, WriteSessionEntry, operation_eq, WriteOpeningId, retirement_at_ms,
}
use vecton.Registry.Entries.{remove_entry}
use vecton.Registry.Creates.{remove_create_opening}
use vecton.Registry.Retire.{
  first_pair, next_expiry, Expiry, nothing, next_entry, next_create, retire_create, retire_entry,
  retire_rounds, retire_expired_entries, retire_expired_entry_for_inode,
  max_expired_session_retirements_per_call,
}
use vecton.Registry.Calls.{sweep}
use vecton.Registry.WellFormed.{WellFormed}
use vecton.Registry.WellFormed.Retirement.{Kept, Less-refl, Less-trans}
use vecton.Registry.WellFormed.Sweep.{
  remove_entry-found, remove_create_opening-found, Listed, next_expiry-Listed,
}

-- Well-formed, nothing new, and every entry whose time has not passed is still there.
pub record Swept (now : ℕ) (s s' : SessionRegistryState) : Type 0 where
  pub kept : Kept s s'
  pub live :
      (k : InodeId) (e : WriteSessionEntry)
      → get k s.entries ≡ some e
      → now < retirement_at_ms e
      → get k s'.entries ≡ some e

Swept-refl : (now : ℕ) {s : SessionRegistryState} → WellFormed s → Swept now s s
Swept-refl now {s} w = record { kept = (w, Less-refl s); live = λ k e g l. g }

Swept-trans :
    {now : ℕ} {s t u : SessionRegistryState} → Swept now s t → Swept now t u → Swept now s u
Swept-trans a b = record {
  kept = (b.kept.0, Less-trans a.kept.1 b.kept.1);
  live = λ k e g l. b.live k e (a.live k e g l) l;
}

removed-Swept :
    {s s' : SessionRegistryState} (now : ℕ) (k : InodeId) (e : WriteSessionEntry)
    → WellFormed s
    → get k s.entries ≡ some e
    → retirement_at_ms e ≤ now
    → Kept s s'
    → s'.entries ≡ remove k s.entries
    → Swept now s s'
removed-Swept {s} now k e w old past kept left = record {
  kept = kept;
  live = λ j e' g later. elim (Bool-cases (eqb k j)) [
    | inl hit ↦
        let same : e ≡ e' =
          ground (arith, old, g, ap (λ (i : ℕ). get i s.entries) ((eqb_iff k j).0 hit)) in
        absurd (omega (arith, past, later, ap retirement_at_ms same))
    | inr miss ↦ ground (arith, ap (get j) left, get-remove k j s.entries w.entries_unique, g)
  ];
}

remove_entry-Swept :
    {s : SessionRegistryState} (now : ℕ) (k : InodeId) (e : WriteSessionEntry)
    → WellFormed s
    → get k s.entries ≡ some e
    → retirement_at_ms e ≤ now
    → Safe (λ x. Swept now s x.0 × (x.1 ≡ some e)) (remove_entry k s)
remove_entry-Swept now k e w old past =
    Safe-map (remove_entry-found k e w old) (λ x p. (removed-Swept now k e w old past p.0 p.3, p.2))

apart_eqb : (k j : InodeId) → j ≢ k → eqb k j ≡ false
apart_eqb k j apart = ground (arith, apart, eqb_iff k j)

retire_create-Swept :
    {s : SessionRegistryState} (now t : ℕ) (id : WriteOpeningId)
    → WellFormed s
    → get (t, id) s.create_openings_by_expiry ≡ some tt
    → Safe (Swept now s) (retire_create id s)
unfolding retire_create
retire_create-Swept {s} now t id w listed =
    let (o, c, found, at, _) = w.create_by_expiry.sound (t, id) tt listed in
    let named : c.opening_id ≡ id = ground (arith, at) in
    rw (w.create_operations.complete o c id found (ap (λ (x : ℕ). some x) named)) (
      Safe-bind (remove_create_opening o s) _ (remove_create_opening-found o c w found) (λ x p.
        rw (p.3) (Safe-some x.0 (record { kept = p.0; live = λ k e g l. ap (get k) p.2 ∙ g }))))

retire_entry-Swept :
    {s : SessionRegistryState} (now t : ℕ) (k : InodeId)
    → WellFormed s
    → get (t, k) s.entries_by_expiry ≡ some tt
    → t ≤ now
    → Safe (Swept now s) (retire_entry t k s)
unfolding retire_entry
retire_entry-Swept {s} now t k w listed past =
    let (k', e, found, at, _) = w.by_expiry.sound (t, k) tt listed in
    let same : k' ≡ k = ground (arith, at) in
    let time : retirement_at_ms e ≡ t = ground (arith, at) in
    Safe-bind (remove_entry k s) _
      (remove_entry-Swept now k e w (subst (λ j. get j s.entries ≡ some e) same found)
        (omega (arith, past, time)))
      (λ x p. rw (p.1) (Safe-some x.0 p.0))

-- The rounds from here on take only expired entries away.
abbrev RoundsSwept : ℕ → ℕ → ℕ → Type 0
RoundsSwept budget now retired =
    (s : SessionRegistryState)
    → WellFormed s
    → Safe (λ x. Swept now s x.0) (retire_rounds budget now retired s)

retire_rounds-Swept :
    (budget : ℕ) (now retired : ℕ) {s : SessionRegistryState}
    → WellFormed s
    → Safe (λ x. Swept now s x.0) (retire_rounds budget now retired s)
unfolding retire_rounds
retire_rounds-Swept zero now retired {s} w = Safe-some _ (Swept-refl now w)
retire_rounds-Swept (suc budget) now retired {s} w =
    go (next_expiry (first_pair s.entries_by_expiry) (first_pair s.create_openings_by_expiry))
      (next_expiry-Listed s _ _ refl refl)
      (λ s' w'. retire_rounds-Swept budget now (retired + 1) w')
  where
    done : Safe (λ (x : SessionRegistryState × ℕ). Swept now s x.0) (some (s, retired))
    done = Safe-some _ (Swept-refl now w)

    more :
        (call : Option SessionRegistryState)
        → RoundsSwept budget now (retired + 1)
        → Safe (Swept now s) call
        → Safe
            (λ (x : SessionRegistryState × ℕ). Swept now s x.0)
            (call >>= λ s'. retire_rounds budget now (retired + 1) s')
    more call ih p = Safe-bind call _ p (λ s' k. Safe-map (ih s' k.kept.0) (λ x q. Swept-trans k q))

    go :
        (x : Expiry)
        → Listed s x
        → RoundsSwept budget now (retired + 1)
        → Safe
            (λ (x : SessionRegistryState × ℕ). Swept now s x.0)
            (elim x [
              | nothing ↦ some (s, retired)
              | next_create t id ↦ elim (ltb now t) [
                | true ↦ some (s, retired)
                | false ↦ do s' ← retire_create id s; retire_rounds budget now (retired + 1) s'
              ]
              | next_entry t k ↦ elim (ltb now t) [
                | true ↦ some (s, retired)
                | false ↦ do s' ← retire_entry t k s; retire_rounds budget now (retired + 1) s'
              ]
            ])
    go nothing h ih = done
    go (next_create t id) h ih = elim (Bool-cases (ltb now t)) [
      | inl later ↦ rw later done
      | inr past ↦ rw past (more (retire_create id s) ih (retire_create-Swept now t id w h))
    ]
    go (next_entry t k) h ih = elim (Bool-cases (ltb now t)) [
      | inl later ↦ rw later done
      | inr past ↦
          rw past
            (more (retire_entry t k s) ih (retire_entry-Swept now t k w h (ground (arith, past))))
    ]

-- From a well-formed registry the sweep takes only entries away whose time has passed.
pub retire_expired_entries-Swept :
    (now : ℕ) {s : SessionRegistryState}
    → WellFormed s
    → Safe (λ x. Swept now s x.0) (retire_expired_entries now s)
unfolding retire_expired_entries
retire_expired_entries-Swept now w =
    retire_rounds-Swept max_expired_session_retirements_per_call now 0 w

-- What the retirement of one inode leaves, and its answer.
pub record Retired (now : ℕ) (k : InodeId) (s s' : SessionRegistryState) (removed : Bool)
    : Type 0 where
  pub swept : Swept now s s'
  pub in_time : (e : WriteSessionEntry) → get k s'.entries ≡ some e → now < retirement_at_ms e
  pub others : (j : InodeId) → j ≢ k → get j s'.entries ≡ get j s.entries
  pub answer :
      (e : WriteSessionEntry)
      → get k s.entries ≡ some e
      → (removed ≡ true) ↔ (retirement_at_ms e ≤ now)
  pub absent : get k s.entries ≡ none → removed ≡ false

Retired-kept :
    {s : SessionRegistryState} (now : ℕ) (k : InodeId)
    → WellFormed s
    → ((e : WriteSessionEntry) → get k s.entries ≡ some e → now < retirement_at_ms e)
    → Retired now k s s false
Retired-kept now k w later = record {
  swept = Swept-refl now w;
  in_time = later;
  others = λ j apart. refl;
  answer = λ e found. (λ h. absurd (cc), λ past. absurd (omega (arith, past, later e found)));
  absent = λ h. refl;
}

remove_entry-Retired :
    {s : SessionRegistryState} (now : ℕ) (k : InodeId) (e : WriteSessionEntry)
    → WellFormed s
    → get k s.entries ≡ some e
    → retirement_at_ms e ≤ now
    → Safe (λ x. Retired now k s x.0 true × (x.1 ≡ some e)) (remove_entry k s)
remove_entry-Retired {s} now k e w old past = Safe-map (remove_entry-found k e w old) (λ x p. (
  record {
    swept = removed-Swept now k e w old past p.0 p.3;
    in_time = λ e' g. absurd (ground (arith, p.1, g));
    others = λ j apart. ground (
      arith,
      ap (get j) p.3,
      get-remove k j s.entries w.entries_unique,
      eqb_iff k j,
      apart_eqb k j apart,
    );
    answer = λ e' found. (
      λ h.
          let same : e ≡ e' = ground (arith, old, found) in
          subst (λ x. retirement_at_ms x ≤ now) same past,
      λ h. refl,
    );
    absent = λ h. absurd (ground (arith, old, h));
  },
  p.2,
))

-- From a well-formed registry the retirement of one inode does not panic, leaves a well-formed
-- registry with nothing new, and every other inode with its entry; the entry of the inode goes if
-- and only if its time has passed, as the answer says.
pub retire_expired_entry_for_inode-Retired :
    (k : InodeId) (now : ℕ) {s : SessionRegistryState}
    → WellFormed s
    → Safe (λ x. Retired now k s x.0 x.1) (retire_expired_entry_for_inode k now s)
unfolding retire_expired_entry_for_inode
retire_expired_entry_for_inode-Retired k now {s} w = elim (Option-cases (get k s.entries)) [
  | inl absent ↦
      rw (retire_expired_entry_for_inode, absent)
        (Safe-some (s, false) (Retired-kept now k w (λ e g. absurd (ground (arith, absent, g)))))
  | inr (e, found) ↦ elim (Bool-cases (leb (retirement_at_ms e) now)) [
    | inl past ↦
        rw (retire_expired_entry_for_inode, found, past)
          (Safe-bind (remove_entry k s) _
            (remove_entry-Retired now k e w found (ground (arith, past)))
            (λ x p. rw (p.1) (Safe-some _ p.0)))
    | inr live ↦
        rw (retire_expired_entry_for_inode, found, live)
          (Safe-some (s, false)
            (Retired-kept now k w (λ e' g.
              let same : e ≡ e' = ground (arith, found, g) in
              subst (λ x. now < retirement_at_ms x) same (ground (arith, live)))))
  ]
]

pub sweep-Swept :
    (k : InodeId) (now : ℕ) {s : SessionRegistryState}
    → WellFormed s
    → Safe (Swept now s) (sweep k now s)
unfolding sweep
sweep-Swept k now {s} w =
    Safe-bind (retire_expired_entry_for_inode k now s) _
      (retire_expired_entry_for_inode-Retired k now w)
      (λ x p.
        Safe-bind (retire_expired_entries now x.0) _
          (retire_expired_entries-Swept now p.swept.kept.0)
          (λ y q. Safe-some y.0 (Swept-trans p.swept q)))
