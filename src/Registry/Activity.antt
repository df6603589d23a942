-- ===== src/Registry/Activity.antt =====
-- The expiry multisets of the ancestors (AncestorWriteActivity in
-- beryl-metadata/src/session_registry.rs): for each inode, how many sessions whose path contains it
-- expire at each time.
use vecton.Prelude.{
  ℕ, ◌+◌, ◌-◌, ◌≤◌, ◌<◌, ◌≡◌, refl, true, false, Option, none, some, List, [], ◌∷◌, arith, nat_eq,
  eqb, eqb_iff, if◌then◌else◌, Map, Unique, is_empty, count, inl, inr, subst, Bool-cases,
}
use vecton.Prelude.Maps.{get, insert, remove, get-insert, get-remove, insert-Unique, remove-Unique}
use vecton.Prelude.Counts.{
  bump, decrement, Counts, Counts-ext, bump-Counts, decrement-Counts, at_key,
}
use vecton.Prelude.Checked.{◌>>=◌, Safe, Safe-some, Safe-bind, Safe-map}
use vecton.Types.Values.{InodeId}

abbrev pub or_empty : Option (Map ℕ ℕ) → Map ℕ ℕ
or_empty none = []
or_empty (some m) = m

-- decrement_expiry_count
abbrev pub decrement_expiry_count : ℕ → Map ℕ ℕ → Option (Map ℕ ℕ)
decrement_expiry_count expires_at_ms expirations = decrement expires_at_ms expirations

-- One round of the loop of `insert_entry`.
unfoldable pub add_activity : InodeId → ℕ → Map InodeId (Map ℕ ℕ) → Map InodeId (Map ℕ ℕ)
add_activity a expires_at_ms m = insert a (bump expires_at_ms (or_empty (get a m))) m

unfoldable pub add_activities : List InodeId → ℕ → Map InodeId (Map ℕ ℕ) → Map InodeId (Map ℕ ℕ)
add_activities [] expires_at_ms m = m
add_activities (a ∷ as') expires_at_ms m =
    add_activities as' expires_at_ms (add_activity a expires_at_ms m)

-- One round of the loop of `remove_from_indexes`.
unfoldable pub drop_activity : InodeId → ℕ → Map InodeId (Map ℕ ℕ) → Option (Map InodeId (Map ℕ ℕ))
drop_activity a expires_at_ms m = do
  activity ← get a m
  left ← decrement_expiry_count expires_at_ms activity
  some (if is_empty left then remove a m else insert a left m)

unfoldable pub drop_activities :
    List InodeId → ℕ → Map InodeId (Map ℕ ℕ) → Option (Map InodeId (Map ℕ ℕ))
drop_activities [] expires_at_ms m = some m
drop_activities (a ∷ as') expires_at_ms m = do
  left ← drop_activity a expires_at_ms m
  drop_activities as' expires_at_ms left

-- One round of the loop of `move_expiry_indexes`.
unfoldable pub move_activity :
    InodeId → ℕ → ℕ → Map InodeId (Map ℕ ℕ) → Option (Map InodeId (Map ℕ ℕ))
move_activity a previous next m = do
  activity ← get a m
  left ← decrement_expiry_count previous activity
  some (insert a (bump next left) m)

unfoldable pub move_activities :
    List InodeId → ℕ → ℕ → Map InodeId (Map ℕ ℕ) → Option (Map InodeId (Map ℕ ℕ))
move_activities [] previous next m = some m
move_activities (a ∷ as') previous next m = do
  moved ← move_activity a previous next m
  move_activities as' previous next moved

-- An inode has no multiset, or one that is not empty and holds its counts.
abbrev pub Holds : Option (Map ℕ ℕ) → (ℕ → ℕ) → Type 0
Holds none c = (t : ℕ) → c t ≡ 0
Holds (some m) c = Counts m c × (is_empty m ≡ false)

pub record Activity (m : Map InodeId (Map ℕ ℕ)) (c : InodeId → ℕ → ℕ) : Type 0 where
  pub unique : Unique m
  pub at : (a : InodeId) → Holds (get a m) (c a)

-- How often an inode occurs at one time in a path that expires at `expires_at_ms`.
abbrev pub share : List InodeId → ℕ → InodeId → ℕ → ℕ
share as' expires_at_ms a t = if eqb expires_at_ms t then count a as' else 0

Holds-ext : (o : Option (Map ℕ ℕ)) {c d : ℕ → ℕ} → ((t : ℕ) → c t ≡ d t) → Holds o c → Holds o d
Holds-ext none same h = λ t. ground (arith, h t, same t)
Holds-ext (some m) same h = (Counts-ext same h.0, h.1)

pub Activity-ext :
    {m : Map InodeId (Map ℕ ℕ)} {c d : InodeId → ℕ → ℕ}
    → ((a : InodeId) (t : ℕ) → c a t ≡ d a t)
    → Activity m c
    → Activity m d
Activity-ext {m} same h = record {
  unique = h.unique;
  at = λ a. Holds-ext (get a m) (same a) (h.at a);
}

Holds-Counts : (o : Option (Map ℕ ℕ)) (c : ℕ → ℕ) → Holds o c → Counts (or_empty o) c
unfolding get
Holds-Counts none c h = record { unique = tt; at = λ t. ground (arith, h t) }
Holds-Counts (some m) c h = h.0

insert-nonempty : (k v : ℕ) (m : Map ℕ ℕ) → is_empty (insert k v m) ≡ false
unfolding insert
insert-nonempty k v [] = refl
insert-nonempty k v ((j, w) ∷ m) = ground arith

bump-nonempty : (k : ℕ) (m : Map ℕ ℕ) → is_empty (bump k m) ≡ false
unfolding bump
bump-nonempty k m = insert-nonempty k _ m

-- The multiset of one inode is written, or erased once it is empty.
module _ {m : Map InodeId (Map ℕ ℕ)} {c d : InodeId → ℕ → ℕ} (a : InodeId) (h : Activity m c)
    (others : (b : InodeId) (t : ℕ) → eqb a b ≡ false → c b t ≡ d b t) where
  Activity-write :
      (m' : Map ℕ ℕ) → Counts m' (d a) → is_empty m' ≡ false → Activity (insert a m' m) d
  Activity-write m' k n = record {
    unique = insert-Unique a m' m h.unique;
    at = λ b. elim (Bool-cases (eqb a b)) [
      | inl hit ↦
          let same : a ≡ b = ground (arith, eqb_iff a b) in
          let found : some m' ≡ get b (insert a m' m) = ground (arith, get-insert a b m' m) in
          subst (λ o. Holds o (d b)) found (subst (λ x. Counts m' (d x)) same k, n)
      | inr miss ↦
          let kept : get b m ≡ get b (insert a m' m) = ground (arith, get-insert a b m' m) in
          subst (λ o. Holds o (d b)) kept (Holds-ext (get b m) (λ t. others b t miss) (h.at b))
    ];
  }

  Activity-erase : ((t : ℕ) → d a t ≡ 0) → Activity (remove a m) d
  Activity-erase zeros = record {
    unique = remove-Unique a m h.unique;
    at = λ b. elim (Bool-cases (eqb a b)) [
      | inl hit ↦
          let same : a ≡ b = ground (arith, eqb_iff a b) in
          let found : none ≡ get b (remove a m) = ground (arith, get-remove a b m h.unique) in
          subst (λ o. Holds o (d b)) found (λ t. subst (λ x. d x t ≡ 0) same (zeros t))
      | inr miss ↦
          let kept : get b m ≡ get b (remove a m) = ground (arith, get-remove a b m h.unique) in
          subst (λ o. Holds o (d b)) kept (Holds-ext (get b m) (λ t. others b t miss) (h.at b))
    ];
  }

-- One more, or one less, at one inode and time.
abbrev pub one : InodeId → ℕ → InodeId → ℕ → ℕ
one a e b t = if eqb a b then at_key e t else 0

one_other : (a e b t : ℕ) → eqb a b ≡ false → one a e b t ≡ 0
one_other a e b t h = rw h

one_self : (a e t : ℕ) → one a e a t ≡ at_key e t
one_self a e t = ground (arith, eqb_iff a a)

pub add_activity-Activity :
    {m : Map InodeId (Map ℕ ℕ)} {c : InodeId → ℕ → ℕ} (a : InodeId) (e : ℕ)
    → Activity m c
    → Activity (add_activity a e m) (λ b t. c b t + one a e b t)
unfolding add_activity
add_activity-Activity {m} {c} a e h =
    Activity-write a h (λ b t miss. omega (arith, one_other a e b t miss))
      (bump e (or_empty (get a m)))
      (Counts-ext (λ t. omega (arith, one_self a e t))
        (bump-Counts e (Holds-Counts (get a m) (c a) (h.at a))))
      (bump-nonempty e (or_empty (get a m)))

-- A multiset that lost its last entry holds nothing.
empty-zero : (m : Map ℕ ℕ) (c : ℕ → ℕ) → Counts m c → is_empty m ≡ true → (t : ℕ) → c t ≡ 0
unfolding get
empty-zero [] c h e t = ground (arith, h.at t)
empty-zero (x ∷ m) c h e t = absurd (ground (arith, e))

-- Where the count is positive, there is a multiset.
Holds-some :
    (o : Option (Map ℕ ℕ)) (c : ℕ → ℕ) (t : ℕ)
    → Holds o c
    → 0 < c t
    → (m : Map ℕ ℕ) × (o ≡ some m) × Counts m c
Holds-some none c t h p = absurd (omega (arith, h t))
Holds-some (some m) c t h p = (m, refl, h.0)

settle :
    {m : Map InodeId (Map ℕ ℕ)} {c : InodeId → ℕ → ℕ} (a e : ℕ) (left : Map ℕ ℕ)
    → Activity m c
    → Counts left (λ t. c a t - at_key e t)
    → Activity (if is_empty left then remove a m else insert a left m) (λ b t. c b t - one a e b t)
settle {m} {c} a e left h k =
    let others : (b t : ℕ) → eqb a b ≡ false → c b t ≡ c b t - one a e b t =
      λ b t miss. omega (arith, one_other a e b t miss) in
    let same : (t : ℕ) → c a t - at_key e t ≡ c a t - one a e a t =
      λ t. omega (arith, one_self a e t) in
    elim (Bool-cases (is_empty left)) [
      | inl gone ↦
          rw gone
            (Activity-erase a h others (λ t. omega (arith, same t, empty-zero left _ k gone t)))
      | inr more ↦ rw more (Activity-write a h others left (Counts-ext same k) more)
    ]

pub drop_activity-Activity :
    {m : Map InodeId (Map ℕ ℕ)} {c : InodeId → ℕ → ℕ} (a : InodeId) (e : ℕ)
    → Activity m c
    → 0 < c a e
    → Safe (λ m'. Activity m' (λ b t. c b t - one a e b t)) (drop_activity a e m)
unfolding drop_activity
drop_activity-Activity {m} {c} a e h p =
    let (inner, found, k) = Holds-some (get a m) (c a) e (h.at a) p in
    let (left, dropped, k') = decrement-Counts e k p in
    record {
      result = if is_empty left then remove a m else insert a left m;
      runs = rw (found, dropped);
      holds = settle a e left h k';
    }

pub move_activity-Activity :
    {m : Map InodeId (Map ℕ ℕ)} {c : InodeId → ℕ → ℕ} (a : InodeId) (e e' : ℕ)
    → Activity m c
    → 0 < c a e
    → Safe (λ m'. Activity m' (λ b t. c b t - one a e b t + one a e' b t)) (move_activity a e e' m)
unfolding move_activity
move_activity-Activity {m} {c} a e e' h p =
    let (inner, found, k) = Holds-some (get a m) (c a) e (h.at a) p in
    let (left, dropped, k') = decrement-Counts e k p in
    record {
      result = insert a (bump e' left) m;
      runs = rw (found, dropped);
      holds =
          Activity-write a h
            (λ b t miss. omega (arith, one_other a e b t miss, one_other a e' b t miss))
            (bump e' left)
            (Counts-ext (λ t. omega (arith, one_self a e t, one_self a e' t)) (bump-Counts e' k'))
            (bump-nonempty e' left);
    }

share-cons :
    (a : InodeId) (as' : List InodeId) (e b t : ℕ)
    → share (a ∷ as') e b t ≡ one a e b t + share as' e b t
unfolding count
share-cons a as' e b t = ground arith

share_nil : (e b t : ℕ) → share [] e b t ≡ 0
unfolding count
share_nil e b t = ground arith

share_self : (a : InodeId) (as' : List InodeId) (e : ℕ) → 0 < share (a ∷ as') e a e
unfolding count
share_self a as' e = ground (arith, eqb_iff a a, eqb_iff e e)

-- A path enters the multisets of all its inodes.
pub add_activities-Activity :
    (as' : List InodeId) {m : Map InodeId (Map ℕ ℕ)} {c : InodeId → ℕ → ℕ} (e : ℕ)
    → Activity m c
    → Activity (add_activities as' e m) (λ b t. c b t + share as' e b t)
unfolding add_activities
add_activities-Activity [] e h = Activity-ext (λ b t. omega (arith, share_nil e b t)) h
add_activities-Activity (a ∷ as') e h =
    Activity-ext (λ b t. omega (arith, share-cons a as' e b t))
      (add_activities-Activity as' e (add_activity-Activity a e h))

-- A path that was entered leaves the multisets of all its inodes.
pub drop_activities-Activity :
    (as' : List InodeId) {m : Map InodeId (Map ℕ ℕ)} {c : InodeId → ℕ → ℕ} (e : ℕ)
    → Activity m c
    → ((b t : ℕ) → share as' e b t ≤ c b t)
    → Safe (λ m'. Activity m' (λ b t. c b t - share as' e b t)) (drop_activities as' e m)
unfolding drop_activities
drop_activities-Activity [] {m} e h p =
    Safe-some m (Activity-ext (λ b t. omega (arith, share_nil e b t)) h)
drop_activities-Activity (a ∷ as') {m} {c} e h p =
    Safe-bind (drop_activity a e m) (drop_activities as' e)
      (drop_activity-Activity a e h (omega (arith, p a e, share_self a as' e)))
      (λ m' h'.
        Safe-map
          (drop_activities-Activity as' e h' (λ b t. omega (arith, p b t, share-cons a as' e b t)))
          (λ m'' h''. Activity-ext (λ b t. omega (arith, share-cons a as' e b t)) h''))

-- A path moves from one time to another in the multisets of all its inodes.
pub move_activities-Activity :
    (as' : List InodeId) {m : Map InodeId (Map ℕ ℕ)} {c : InodeId → ℕ → ℕ} (e e' : ℕ)
    → Activity m c
    → ((b t : ℕ) → share as' e b t ≤ c b t)
    → Safe
        (λ m'. Activity m' (λ b t. c b t - share as' e b t + share as' e' b t))
        (move_activities as' e e' m)
unfolding move_activities
move_activities-Activity [] {m} e e' h p =
    Safe-some m (Activity-ext (λ b t. omega (arith, share_nil e b t, share_nil e' b t)) h)
move_activities-Activity (a ∷ as') {m} {c} e e' h p =
    Safe-bind (move_activity a e e' m) (move_activities as' e e')
      (move_activity-Activity a e e' h (omega (arith, p a e, share_self a as' e)))
      (λ m' h'.
        Safe-map
          (move_activities-Activity as' e e' h'
            (λ b t. omega (arith, p b t, share-cons a as' e b t)))
          (λ m'' h''.
            Activity-ext
              (λ b t. omega (arith, p b t, share-cons a as' e b t, share-cons a as' e' b t)) h''))
