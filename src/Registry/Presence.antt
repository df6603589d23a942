-- ===== src/Registry/Presence.antt =====
-- What `has_active_write_under` answers (beryl-metadata/src/session_registry.rs).
use vecton.Prelude.{
  ℕ, ◌≤◌, ◌<◌, ◌≡◌, ◌↔◌, ◌⊎◌, ap, subst, Option, some, none, arith, inl, inr, eqb, eqb_iff, nat_eq,
  true, Bool-cases, Option-cases, count, Map, Unique, [], ◌∷◌, List, max, Eq, ltb,
}
use vecton.Prelude.Maps.{get}
use vecton.Prelude.Counts.{total, worth, worth-le-total}
use vecton.Prelude.Checked.{Safe, Safe-some, Safe-bind}
use vecton.Types.Values.{InodeId}
use vecton.Registry.{
  SessionRegistryState, WriteSessionEntry, CreateOpeningSession, CreateFileOperationId,
  operation_eq, retirement_at_ms, ancestors_of,
}
use vecton.Registry.Activity.{Holds, share}
use vecton.Registry.Retire.{retire_expired_entries}
use vecton.Registry.Lookup.{has_active_write_under_at, last_key, active_at}
use vecton.Registry.WellFormed.{WellFormed, entry_share, create_share, activity_of}
use vecton.Registry.WellFormed.Retirement.{Kept}
use vecton.Registry.WellFormed.Sweep.{retire_expired_entries-Kept}

-- A positive sum has a positive entry.
module _ {K V : Type 0} ⦃e : Eq K⦄ where
  positive :
      (f : K → V → ℕ) (m : Map K V)
      → Unique m
      → 0 < total f m
      → (k : K) × (v : V) × (get k m ≡ some v) × (0 < f k v)
  unfolding total get
  positive f [] u p = absurd (omega (arith, p))
  positive f ((k, v) ∷ m) u p = elim (Bool-cases (ltb 0 (f k v))) [
    | inl here ↦ (k, v, ground (arith, e.test_iff k k), ground arith)
    | inr nothing_here ↦
        let (j, w, found, q) = positive f m u.1 (ground (arith, p)) in
        (j, w, ground (arith, e.test_iff k j, u.0), q)
  ]

-- The greatest key of a map is one of its keys, and no key is greater.
last_key-get : (m : Map ℕ ℕ) (t : ℕ) → last_key m ≡ some t → (w : ℕ) × (get t m ≡ some w)
unfolding last_key get
last_key-get [] t h = absurd (cc)
last_key-get ((u, w) ∷ m) t h = elim (Option-cases (last_key m)) [
  | inl last ↦ (w, ground (arith, rw last at h, eqb_iff u t))
  | inr (t', more) ↦
      let (w', found) = last_key-get m t' more in
      let at : max u t' ≡ t = ground (arith, rw more at h) in
      elim (Bool-cases (eqb u t)) [
        | inl hit ↦ (w, rw hit)
        | inr miss ↦
            let same : t' ≡ t = ground (arith, at) in
            (w', rw miss (subst (λ x. get x m ≡ some w') same found))
      ]
]

last_key-ge : (m : Map ℕ ℕ) (t w : ℕ) → get t m ≡ some w → (u : ℕ) × (last_key m ≡ some u) × (t ≤ u)
unfolding last_key get
last_key-ge [] t w h = absurd (cc)
last_key-ge ((u, x) ∷ m) t w h = elim (Option-cases (last_key m)) [
  | inl last ↦ elim (Bool-cases (eqb u t)) [
    | inl hit ↦ (u, rw last, ground arith)
    | inr miss ↦
        let (t', listed, le) = last_key-ge m t w (rw miss at h) in
        absurd (ground (arith, listed, last))
  ]
  | inr (t', more) ↦ elim (Bool-cases (eqb u t)) [
    | inl hit ↦ (max u t', rw more, ground arith)
    | inr miss ↦
        let (t'', listed, le) = last_key-ge m t w (rw miss at h) in
        (max u t', rw more, ground (arith, listed, more, le))
  ]
]

-- The multiset of an inode reaches beyond a time exactly where some later count is positive.
active_at_iff :
    (now : ℕ) (o : Option (Map ℕ ℕ)) (c : ℕ → ℕ)
    → Holds o c
    → (active_at now o ≡ true) ↔ ((t : ℕ) × (now < t) × (0 < c t))
active_at_iff now none c h = (λ a. absurd (cc), λ (t, lt, p). absurd (omega (arith, h t, p)))
active_at_iff now (some m) c h = (
  λ a. elim (Option-cases (last_key m)) [
    | inl none_left ↦ absurd (ground (arith, rw (active_at, none_left) at a))
    | inr (t, last) ↦
        let (w, found) = last_key-get m t last in
        (t, ground (arith, rw (active_at, last) at a), ground (arith, found, h.0.at t))
  ],
  λ (t, lt, p).
      let (u, last, le) = last_key-ge m t (c t) (ground (arith, h.0.at t, p)) in
      rw (active_at, last) (ground (arith, lt, le)),
)

-- A session or an opening that holds the inode in its path beyond a time.
abbrev pub Writer : SessionRegistryState → InodeId → ℕ → Type 0
Writer s a now =
    ((k : InodeId) × (e : WriteSessionEntry) × (get k s.entries ≡ some e)
      × (0 < count a (ancestors_of e))
      × (now < retirement_at_ms e))
    ⊎ ((o : CreateFileOperationId) × (c : CreateOpeningSession) × (get o s.create_openings ≡ some c)
        × (0 < count a c.parent_ancestor_inode_ids)
        × (now < c.expires_at_ms))

share_pos : (as' : List InodeId) (e a t : ℕ) → 0 < share as' e a t → (e ≡ t) × (0 < count a as')
share_pos as' e a t p = (ground arith, ground arith)

share_at : (as' : List InodeId) (e a : ℕ) → share as' e a e ≡ count a as'
share_at as' e a = ground (arith, eqb_iff e e)

module _ {s : SessionRegistryState} (w : WellFormed s) (a : InodeId) (now : ℕ) where
  found-Writer : (t : ℕ) → now < t → 0 < activity_of s a t → Writer s a now
  found-Writer t lt p = elim (Bool-cases (ltb 0 (total (entry_share a t) s.entries))) [
    | inl some_entry ↦
        let (k, e, found, q) =
          positive (entry_share a t) s.entries w.entries_unique (ground (arith, some_entry)) in
        let (at, here) = share_pos (ancestors_of e) (retirement_at_ms e) a t q in
        inl (k, e, found, here, omega (arith, lt, at))
    | inr no_entry ↦
        let (o, c, found, q) =
          positive (create_share a t) s.create_openings w.creates_unique
            (ground (arith, no_entry, p)) in
        let (at, here) = share_pos c.parent_ancestor_inode_ids c.expires_at_ms a t q in
        inr (o, c, found, here, omega (arith, lt, at))
  ]

  Writer-counted : Writer s a now → (t : ℕ) × (now < t) × (0 < activity_of s a t)
  Writer-counted (inl (k, e, found, here, later)) = (
    retirement_at_ms e,
    later,
    omega (
      arith,
      here,
      share_at (ancestors_of e) (retirement_at_ms e) a,
      worth-le-total (entry_share a (retirement_at_ms e)) k s.entries,
      ap (worth (entry_share a (retirement_at_ms e)) k) found,
    ),
  )
  Writer-counted (inr (o, c, found, here, later)) = (
    c.expires_at_ms,
    later,
    omega (
      arith,
      here,
      share_at c.parent_ancestor_inode_ids c.expires_at_ms a,
      worth-le-total (create_share a c.expires_at_ms) o s.create_openings,
      ap (worth (create_share a c.expires_at_ms) o) found,
    ),
  )

  active_at-Writer : (active_at now (get a s.ancestor_activity) ≡ true) ↔ Writer s a now
  active_at-Writer =
      let both =
        active_at_iff now (get a s.ancestor_activity) (activity_of s a) (w.activity.at a) in
      (λ h. let (t, lt, p) = both.0 h in found-Writer t lt p, λ x. both.1 (Writer-counted x))

-- In a well-formed registry the question of activity under an inode does not panic, and is answered
-- with true exactly where, after the sweep, an entry or a create opening has the inode in its path
-- and retires later.
pub has_active_write_under_at-Writer :
    (a : InodeId) (now : ℕ) {s : SessionRegistryState}
    → WellFormed s
    → Safe (λ x. Kept s x.0 × ((x.1 ≡ true) ↔ Writer x.0 a now)) (has_active_write_under_at a now s)
unfolding has_active_write_under_at
has_active_write_under_at-Writer a now {s} w =
    Safe-bind (retire_expired_entries now s) _ (retire_expired_entries-Kept now w)
      (λ x p. Safe-some _ (p.0, active_at-Writer p.0.0 a now))
