-- ===== src/Builder.antt =====
-- The state of the block builder: crates/driver/src/block_builder/state.rs. The `watch` channel of
-- tokio is its value, its version, which every `send` raises, and the version that the receiver has
-- seen: `borrow` does not mark a value as seen, and `changed` is ready when the newest value has not
-- been seen, which it then marks.
pub mod Waiting
mod Tests
use taiko_mk.Prelude.{ℕ, ◌+◌, Bool, true, false, Option, none, some, ◌==◌, if◌then◌else◌}

pub data State : Type 0 where
  idle : State
  finalizing : ℕ → State

pub record BuilderState : Type 0 where
  pub value : State
  pub version : ℕ
  pub seen : ℕ

unfoldable pub new : BuilderState
new = record { value = idle; version = 0; seen = 0 }

abbrev send : BuilderState → State → BuilderState
send s value = record s { value = value; version = s.version + 1 }

unfoldable pub set_finalizing : BuilderState → ℕ → BuilderState
set_finalizing s block_number = send s (finalizing block_number)

-- `drop` of `BlockBuilderResponse`.
unfoldable pub drop_response : BuilderState → BuilderState
drop_response s = send s idle

unfoldable pub is_finalizing : BuilderState → Option ℕ
is_finalizing s = elim s.value [ finalizing block_number ↦ some block_number | idle ↦ none ]

-- One poll of `wait_for_idle`: `none` is pending.
unfoldable pub wait_for_idle : BuilderState → Option BuilderState
wait_for_idle s = elim (is_finalizing s) [
  | none ↦ some s
  | some block_number ↦ if s.version == s.seen then none else some (record s { seen = s.version })
]
