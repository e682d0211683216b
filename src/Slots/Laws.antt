-- ===== src/Slots/Laws.antt =====
-- Slots, epochs and timestamps: crates/primitives/src/lib.rs and crates/primitives/src/time.rs.
use taiko_mk.Prelude.{ℕ, ◌+◌, ◌-◌, ◌*◌, ◌/◌, ◌≤◌, ◌<◌, ◌≡◌, ◌↔◌, true, arith, u64_mod, add64, mul64}
use taiko_mk.Slots.{
  epoch_slots, to_epoch, to_slot_range, range_contains, timestamp_to_l1_slot, slot_to_timestamp,
  next_l1_slot_timestamp,
}

-- A slot belongs to the range of an epoch exactly when it converts to that epoch, for epochs whose
-- slots are below 2 ^ 64.
pub to_slot_range_iff :
    (slot epoch : ℕ)
    → epoch * epoch_slots + epoch_slots < u64_mod
    → (range_contains (to_slot_range epoch) slot ≡ true) ↔ (to_epoch slot ≡ epoch)
unfolding range_contains to_slot_range to_epoch
to_slot_range_iff slot epoch h = ground arith

next_slot_no_wrap :
    (n g b q : ℕ)
    → 0 < b
    → g ≤ n
    → n + b < u64_mod
    → q * b ≤ n - g
    → (add64 q 1 ≡ q + 1) × (mul64 (q + 1) b ≡ q * b + b)
next_slot_no_wrap n g b q h k w lo = (omega (arith, small), omega arith)
  where
    small : q ≤ q * b
    small = grind arith

-- The slot of a timestamp is the last one that starts at or before it, and the next slot's
-- timestamp lies in the future by at most one block time.
pub slot_bracket :
    (now genesis block_time : ℕ)
    → 0 < block_time
    → genesis ≤ now
    → now + block_time < u64_mod
    → let slot = timestamp_to_l1_slot now genesis block_time in
      (slot_to_timestamp slot genesis block_time ≤ now)
      × (now < next_l1_slot_timestamp now genesis block_time)
      × (next_l1_slot_timestamp now genesis block_time ≤ now + block_time)
unfolding timestamp_to_l1_slot slot_to_timestamp next_l1_slot_timestamp
slot_bracket now genesis block_time h k b =
    let q : ℕ = (now - genesis) / block_time in
    let lo : q * block_time ≤ now - genesis = grind arith in
    let hi : now - genesis < q * block_time + block_time = grind arith in
    let (next, end) = next_slot_no_wrap now genesis block_time q h k b lo in
    rw (next, end) (omega arith, omega arith, omega arith)
