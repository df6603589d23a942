-- ===== src/Refresh.antt =====
-- The freshness cache of the client: beryl-client/src/runtime/refresh.rs.
pub mod Watermarks
use vecton.Prelude.{
  ℕ, Option, some, none, List, [], ◌∷◌, Map, string_eq, true, false, if◌then◌else◌,
}
use vecton.Prelude.Maps.{get, insert}
use vecton.Types.Watermark.{GroupName, GroupStateWatermark, is_ahead}

-- The watermarks that the client has seen, by group.
abbrev pub Watermarks : Type 0
Watermarks = Map GroupName GroupStateWatermark

unfoldable pub update_watermark_if_ahead : GroupStateWatermark → Watermarks → Watermarks
update_watermark_if_ahead new_watermark watermarks =
    elim (get new_watermark.group_name watermarks) [
      | none ↦ insert new_watermark.group_name new_watermark watermarks
      | some existing ↦
          if is_ahead new_watermark.state_id existing.state_id
          then insert new_watermark.group_name new_watermark watermarks
          else watermarks
    ]

-- The loop of `apply_authority_update` over the watermarks of a response.
unfoldable pub update_watermarks : List GroupStateWatermark → Watermarks → Watermarks
update_watermarks [] watermarks = watermarks
update_watermarks (w ∷ update) watermarks =
    update_watermarks update (update_watermark_if_ahead w watermarks)
