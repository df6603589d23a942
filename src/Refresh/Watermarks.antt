-- ===== src/Refresh/Watermarks.antt =====
-- What the cached watermarks are after a sequence of observations
-- (beryl-client/src/runtime/refresh.rs).
use vecton.Prelude.{
  ◌≡◌, ◌⊎◌, inl, inr, ap, arith, some, List, [], ◌∷◌, string_eq, true, Option-cases, Bool-cases,
  ◌==◌, ◌∙◌, sym, subst,
}
use vecton.Prelude.Maps.{get, insert, get-insert}
use vecton.Types.Watermark.{
  GroupName, GroupStateWatermark, has_reached, is_ahead, has_reached_refl, has_reached_trans,
  is_ahead-has_reached, not_ahead-has_reached,
}
use vecton.Refresh.{Watermarks, update_watermark_if_ahead, update_watermarks}

-- The cache has reached an observation of a group.
abbrev pub Covers : Watermarks → GroupName → GroupStateWatermark → Type 0
Covers ws g w =
    (v : GroupStateWatermark) × (get g ws ≡ some v) × (has_reached v.state_id w.state_id ≡ true)

abbrev pub Observed : List GroupStateWatermark → GroupStateWatermark → Type 0
Observed [] w = ⊥
Observed (x ∷ xs) w = (x ≡ w) ⊎ Observed xs w

-- Two caches before and after one observation, in the same way.
pub record Advances (new : GroupStateWatermark) (ws ws' : Watermarks) : Type 0 where
  pub reached : Covers ws' new.group_name new
  pub kept : (g : GroupName) (w : GroupStateWatermark) → Covers ws g w → Covers ws' g w
  pub known :
      (g : GroupName) (v : GroupStateWatermark)
      → get g ws' ≡ some v
      → (get g ws ≡ some v) ⊎ ((new ≡ v) × (new.group_name ≡ g))

insert-Advances :
    (new : GroupStateWatermark) (ws : Watermarks)
    → ((v : GroupStateWatermark)
        → get new.group_name ws ≡ some v
        → has_reached new.state_id v.state_id ≡ true)
    → Advances new ws (insert new.group_name new ws)
insert-Advances new ws ahead = record {
  reached = (
    new,
    ground (
      arith,
      get-insert new.group_name new.group_name new ws,
      string_eq.test_iff new.group_name new.group_name,
    ),
    has_reached_refl new.state_id,
  );
  kept = λ g w (v, found, reached). elim (Bool-cases (new.group_name == g)) [
    | inl hit ↦
        let at : new.group_name ≡ g = (string_eq.test_iff new.group_name g).0 hit in
        (
          new,
          get-insert new.group_name g new ws ∙ rw hit,
          has_reached_trans new.state_id v.state_id w.state_id
              (ahead v (ap (λ x. get x ws) at ∙ found)) reached,
        )
    | inr miss ↦ (v, get-insert new.group_name g new ws ∙ (rw miss found), reached)
  ];
  known = λ g v found. elim (Bool-cases (new.group_name == g)) [
    | inl hit ↦ inr (
      ground (arith, get-insert new.group_name g new ws, hit, found),
      (string_eq.test_iff new.group_name g).0 hit,
    )
    | inr miss ↦ inl (ground (arith, get-insert new.group_name g new ws, miss, found))
  ];
}

update_watermark_if_ahead-Advances :
    (new : GroupStateWatermark) (ws : Watermarks)
    → Advances new ws (update_watermark_if_ahead new ws)
unfolding update_watermark_if_ahead
update_watermark_if_ahead-Advances new ws = elim (Option-cases (get new.group_name ws)) [
  | inl absent ↦
      rw (update_watermark_if_ahead, absent)
        (insert-Advances new ws (λ v found. absurd (ground (arith, absent, found))))
  | inr (old, found) ↦ elim (Bool-cases (is_ahead new.state_id old.state_id)) [
    | inl ahead ↦
        rw (update_watermark_if_ahead, found, ahead)
          (insert-Advances new ws (λ v at.
            let same : old ≡ v = ground (arith, found, at) in
            ap (λ (x : GroupStateWatermark). has_reached new.state_id x.state_id) (sym same)
            ∙ is_ahead-has_reached new.state_id old.state_id ahead))
    | inr behind ↦
        rw (update_watermark_if_ahead, found, behind)
          (record {
            reached = (old, found, not_ahead-has_reached new.state_id old.state_id behind);
            kept = λ g w c. c;
            known = λ g v at. inl at;
          })
  ]
]

-- Two caches before and after observations: the later one has reached the earlier and each observation
-- of a group, and holds nothing else.
pub record Greatest (update : List GroupStateWatermark) (ws ws' : Watermarks) : Type 0 where
  pub reached : (w : GroupStateWatermark) → Observed update w → Covers ws' w.group_name w
  pub kept : (g : GroupName) (w : GroupStateWatermark) → Covers ws g w → Covers ws' g w
  pub known :
      (g : GroupName) (v : GroupStateWatermark)
      → get g ws' ≡ some v
      → (get g ws ≡ some v) ⊎ (Observed update v × (v.group_name ≡ g))

-- After any sequence of observations the cached watermark of a group has reached the one cached
-- before and each observation of the group, and it is the one cached before or an observation of
-- the group.
pub update_watermarks-Greatest :
    (update : List GroupStateWatermark) (ws : Watermarks)
    → Greatest update ws (update_watermarks update ws)
unfolding update_watermarks
update_watermarks-Greatest [] ws = record {
  reached = λ w o. absurd o;
  kept = λ g w c. c;
  known = λ g v at. inl at;
}
update_watermarks-Greatest (x ∷ update) ws =
    let one = update_watermark_if_ahead-Advances x ws in
    let rest = update_watermarks-Greatest update (update_watermark_if_ahead x ws) in
    record {
      reached = λ w o. elim o [
        | inl same ↦
            rest.kept w.group_name w
              (subst (λ y. Covers (update_watermark_if_ahead x ws) y.group_name y) same one.reached)
        | inr later ↦ rest.reached w later
      ];
      kept = λ g w c. rest.kept g w (one.kept g w c);
      known = λ g v at. elim (rest.known g v at) [
        | inr (o, named) ↦ inr (inr o, named)
        | inl before ↦ elim (one.known g v before) [
          | inl old ↦ inl old
          | inr (same, named) ↦
              inr (inl same, ap (λ (y : GroupStateWatermark). y.group_name) (sym same) ∙ named)
        ]
      ];
    }
