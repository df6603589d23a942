-- ===== src/Registry/Calls.antt =====
-- The shape of a call of the registry: the state after the call and its `Ok` or `Err`, or a panic.
use vecton.Prelude.{ℕ, Option, none, some}
use vecton.Prelude.Result.{Result, ok, err, panic}
use vecton.Prelude.Checked.{◌>>=◌}
use vecton.Types.Values.{InodeId}
use vecton.Registry.{SessionRegistryState}
use vecton.Registry.Retire.{retire_expired_entries, retire_expired_entry_for_inode}

abbrev pub Call : Type 0 → Type 0 → Type 0
Call E A = Option (SessionRegistryState × Result E A)

-- An early return leaves the state as it is.
abbrev pub attempt :
    {E A B : Type 0} → SessionRegistryState → Result E A → (A → Call E B) → Call E B
attempt s (ok answer) next = next answer
attempt s (err why) next = some (s, err why)
attempt s panic next = none

-- How most calls on one inode begin: its expired entry and a batch of others are retired.
unfoldable pub sweep : InodeId → ℕ → SessionRegistryState → Option SessionRegistryState
sweep inode_id now_ms s = do
  (s', _) ← retire_expired_entry_for_inode inode_id now_ms s
  (s'', _) ← retire_expired_entries now_ms s'
  some s''
