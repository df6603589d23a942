-- ===== src/Planner/Range.antt =====
-- Which part of a file a read asks for (`requested_range` in beryl-client/src/planner.rs).
use vecton.Prelude.{
  ℕ, ◌+◌, ◌-◌, ◌≤◌, ◌≡◌, min, ◌||◌, some, none, arith, eqb, ltb, leb, if◌then◌else◌, u64_max,
  u32_max,
}
use vecton.Prelude.Result.{ok, err}
use vecton.Planner.{requested_range, invalid_argument}

-- For a length that a u32 holds, the range is empty exactly where no byte is asked for or the offset
-- is not before the end of the file; an end beyond u64 is refused; and otherwise the range begins at
-- the offset and stops at the end of the file.
pub requested_range-eq :
    (offset len file_size : ℕ)
    → len ≤ u32_max
    → requested_range offset len file_size ≡ (
        if eqb len 0 || leb file_size offset
        then ok none
        else if ltb u64_max (offset + len)
        then err (invalid_argument "read range offset overflow")
        else ok (some (record { file_offset = offset; len = min len (file_size - offset) })))
unfolding requested_range
requested_range-eq offset len file_size h = ground arith
