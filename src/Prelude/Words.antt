-- ===== src/Prelude/Words.antt =====
-- The checked and saturating operations of the unsigned integers, which the source calls on u64.
use Prim.Native.Nat.{ℕ, ◌+◌, ◌-◌, min}
use mathlib.Core.Option.{Option, none, some}
use vecton.Prelude.Tests.{leb, if◌then◌else◌}

abbrev pub u64_max : ℕ
u64_max = 18446744073709551615

abbrev pub u32_max : ℕ
u32_max = 4294967295

-- u64::checked_add
abbrev pub checked_add : ℕ → ℕ → Option ℕ
checked_add a b = if leb (a + b) u64_max then some (a + b) else none

-- u64::saturating_add
abbrev pub saturating_add : ℕ → ℕ → ℕ
saturating_add a b = min (a + b) u64_max

-- checked_sub of every unsigned type
abbrev pub checked_sub : ℕ → ℕ → Option ℕ
checked_sub a b = if leb b a then some (a - b) else none

-- u32::try_from(u64)
abbrev pub try_u32 : ℕ → Option ℕ
try_u32 a = if leb a u32_max then some a else none
