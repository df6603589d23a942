-- ===== src/Examples/Watermarks.antt =====
-- Tests and an example for the watermarks (beryl-client/src/runtime/refresh.rs,
-- beryl-types/src/raft_log_id.rs).
use vecton.Prelude.{ℕ, ◌≡◌, refl, [], ◌∷◌, some, List, true, string_eq}
use vecton.Prelude.Maps.{get, insert}
use vecton.Types.Watermark.{GroupStateWatermark, is_reached}
use vecton.Refresh.{Watermarks, update_watermark_if_ahead, update_watermarks}
use vecton.Refresh.Watermarks.{Greatest, update_watermarks-Greatest}

abbrev at_term : ℕ → ℕ → GroupStateWatermark
at_term term index = record {
  group_name = "root";
  state_id = record { term = term; leader_node_id = 1; index = index };
}

abbrev cached : Watermarks
cached = ("root", at_term 1 10) ∷ []

abbrev observed : List GroupStateWatermark
observed = at_term 1 8 ∷ at_term 3 12 ∷ at_term 2 12 ∷ []

greatest_cached : get "root" (update_watermarks observed cached) ≡ some (at_term 3 12)
unfolding update_watermarks update_watermark_if_ahead get insert
greatest_cached = refl

reached_later :
    is_reached (at_term 1 10) (record { term = 2; leader_node_id = 5; index = 10 }) ≡ true
reached_later = refl

update_watermarks-Greatest_example : Greatest observed cached (update_watermarks observed cached)
update_watermarks-Greatest_example = update_watermarks-Greatest observed cached
