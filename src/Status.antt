-- ===== src/Status.antt =====
-- The driver's status: crates/driver/src/status.rs.
use taiko_mk.Prelude.{ℕ, Bool, true, false}

-- `start` is the reading of the monotonic clock when the wait began.
pub data DriverStatus : Type 0 where
  inactive : DriverStatus
  handover_wait : ℕ → DriverStatus
  sequencing_only : DriverStatus
  inclusion_only : DriverStatus
  active : DriverStatus

unfoldable pub can_propose : DriverStatus → Bool
can_propose inclusion_only = true
can_propose active = true
can_propose _ = false

unfoldable pub can_sequence : DriverStatus → Bool
can_sequence sequencing_only = true
can_sequence active = true
can_sequence _ = false

-- Derived by `IsVariant`.
abbrev pub is_inclusion_only : DriverStatus → Bool
is_inclusion_only inclusion_only = true
is_inclusion_only _ = false
