-- ===== src/Types/Watermark.antt =====
-- The applied positions of the metadata groups: beryl-types/src/raft_log_id.rs and
-- beryl-types/src/group_watermark.rs.
use Prim.Native.Nat.{compare, Ordering}
use vecton.Prelude.{ℕ, ◌≡◌, Bool, true, false, Option, some, none, String, arith, string_eq, ◌==◌}

abbrev pub GroupName : Type 0
GroupName = String

pub record RaftLogId : Type 0 where
  pub term : ℕ
  pub leader_node_id : ℕ
  pub index : ℕ

abbrev pub then_with : Ordering → Ordering → Ordering
then_with Ordering.eq next = next
then_with Ordering.lt next = Ordering.lt
then_with Ordering.gt next = Ordering.gt

-- Ord::cmp of RaftLogId
abbrev pub cmp : RaftLogId → RaftLogId → Ordering
cmp a b =
    then_with (compare a.index b.index)
      (then_with (compare a.term b.term) (compare a.leader_node_id b.leader_node_id))

-- The operators `>=` and `>` that Rust derives from the order.
abbrev pub has_reached : RaftLogId → RaftLogId → Bool
has_reached applied required = elim (cmp applied required) [ Ordering.lt ↦ false | _ ↦ true ]

abbrev pub is_ahead : RaftLogId → RaftLogId → Bool
is_ahead a b = elim (cmp a b) [ Ordering.gt ↦ true | _ ↦ false ]

pub record GroupStateWatermark : Type 0 where
  pub group_name : GroupName
  pub state_id : RaftLogId

abbrev pub is_reached : GroupStateWatermark → RaftLogId → Bool
is_reached w applied_state_id = has_reached applied_state_id w.state_id

abbrev pub cmp_same_group : GroupStateWatermark → GroupStateWatermark → Option Ordering
cmp_same_group a b = elim (a.group_name == b.group_name) [
  | false ↦ none
  | true ↦ some (cmp a.state_id b.state_id)
]

pub has_reached_refl : (a : RaftLogId) → has_reached a a ≡ true
has_reached_refl a = ground arith

pub has_reached_trans :
    (a b c : RaftLogId) → has_reached a b ≡ true → has_reached b c ≡ true → has_reached a c ≡ true
has_reached_trans a b c p q = ground (arith, p, q)

pub is_ahead-has_reached : (a b : RaftLogId) → is_ahead a b ≡ true → has_reached a b ≡ true
is_ahead-has_reached a b h = ground (arith, h)

pub not_ahead-has_reached : (a b : RaftLogId) → is_ahead a b ≡ false → has_reached b a ≡ true
not_ahead-has_reached a b h = ground (arith, h)
