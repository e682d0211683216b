-- ===== src/Slots.antt =====
-- crates/primitives/src/lib.rs (slots and epochs) and crates/primitives/src/time.rs (timestamps).
pub mod Laws
pub mod Clock
mod Tests
use taiko_mk.Prelude.{
  ℕ, ◌+◌, ◌-◌, ◌/◌, Bool, ◌&&◌, ltb, leb, add64, mul64, saturating_add, saturating_sub,
}

-- `EPOCH_SLOTS` of alloy's `eips::merge`.
abbrev pub epoch_slots : ℕ
epoch_slots = 32

pub record SlotRange : Type 0 where
  pub start : ℕ
  pub end : ℕ

-- `Range::contains`; the end is excluded.
unfoldable pub range_contains : SlotRange → ℕ → Bool
range_contains r slot = leb r.start slot && ltb slot r.end

unfoldable pub to_epoch : ℕ → ℕ
to_epoch slot = slot / epoch_slots

unfoldable pub to_slot : ℕ → ℕ
to_slot epoch = mul64 epoch epoch_slots

unfoldable pub beginning_of_epoch : ℕ → ℕ
unfolding to_epoch to_slot
beginning_of_epoch slot = to_slot (to_epoch slot)

unfoldable pub to_slot_range : ℕ → SlotRange
unfolding to_slot
to_slot_range epoch =
    let start = to_slot epoch in record { start = start; end = saturating_add start epoch_slots }

unfoldable pub timestamp_to_l1_slot : ℕ → ℕ → ℕ → ℕ
timestamp_to_l1_slot timestamp genesis_timestamp block_time =
    saturating_sub timestamp genesis_timestamp / block_time

unfoldable pub slot_to_timestamp : ℕ → ℕ → ℕ → ℕ
slot_to_timestamp slot genesis_timestamp block_time =
    add64 genesis_timestamp (mul64 slot block_time)

-- The clock's reading, `current_timestamp_seconds()`, is an argument.
unfoldable pub next_l1_slot_timestamp : ℕ → ℕ → ℕ → ℕ
unfolding timestamp_to_l1_slot
next_l1_slot_timestamp now genesis_timestamp block_time =
    let next_slot = add64 (timestamp_to_l1_slot now genesis_timestamp block_time) 1 in
    add64 genesis_timestamp (mul64 next_slot block_time)
