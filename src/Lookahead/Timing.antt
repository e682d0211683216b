-- ===== src/Lookahead/Timing.antt =====
-- The times of the handover and of the last block: crates/driver/src/lookahead.rs.
use taiko_mk.Prelude.{
  ℕ, ◌+◌, ◌-◌, ◌*◌, ◌/◌, ◌%◌, ◌^◌, ◌≤◌, ◌<◌, ◌≡◌, ◌≢◌, ◌↔◌, ◌⊎◌, true, false, arith, u64_mod, ◌==◌,
  if◌then◌else◌, add64, sub64, mul64, saturating_sub,
}
use taiko_mk.Slots
use taiko_mk.Slots.{epoch_slots, to_epoch}
use taiko_mk.Config.{RuntimeConfig, timestamp_to_l1_slot, slot_to_timestamp}
use taiko_mk.Window.{end}
use taiko_mk.Lookahead.{
  Lookahead, is_last_block_in_sequencing_window, is_past_handover_buffer, next_epoch_boundary,
}

-- Facts about the product of the slot and the block time that no linear argument finds.
slot_start : (t g b : ℕ) → 0 < b → ((t - g) / b * b ≤ t - g) × (t - g < (t - g) / b * b + b)
slot_start t g b h = (grind arith, grind arith)

next_slot_start : (e q b : ℕ) → e ≡ q + 1 → e * b ≡ q * b + b
next_slot_start e q b h = rw h (omega arith)

last_block_times :
    (t g b c q e : ℕ)
    → c ≤ b
    → g ≤ t
    → t + b + b < u64_mod
    → 0 < e
    → q * b ≤ t - g
    → ((if saturating_sub e 1 == q then t == sub64 (add64 (add64 g (mul64 q b)) b) c else false)
        ≡ true)
      ↔ ((e ≡ q + 1) × (t + c ≡ add64 g (mul64 e b)))
last_block_times t g b c q e le k w n lo = ground (arith, next_slot_start e q b)

-- A block is the last of the sequencing window exactly when the next block of the L2 falls on the
-- start of the slot at which the window ends, that slot being the one after the block's own. The
-- L2 block time is positive and at most the L1's, the timestamp is not before the genesis and far
-- enough below 2 ^ 64, and the window's end is not 0.
pub is_last_block_lem :
    (l : Lookahead) (timestamp : ℕ)
    → 0 < l.cfg.l2_block_time
    → l.cfg.l2_block_time ≤ l.cfg.l1_block_time
    → l.cfg.l1_genesis_timestamp ≤ timestamp
    → timestamp + l.cfg.l1_block_time + l.cfg.l1_block_time < u64_mod
    → 0 < end l.sequencing_window
    → (is_last_block_in_sequencing_window l timestamp ≡ true) ↔ (
        (end l.sequencing_window ≡ timestamp_to_l1_slot l.cfg timestamp + 1)
        × (timestamp + l.cfg.l2_block_time ≡ slot_to_timestamp l.cfg (end l.sequencing_window)))
unfolding is_last_block_in_sequencing_window timestamp_to_l1_slot slot_to_timestamp
    Slots.timestamp_to_l1_slot Slots.slot_to_timestamp
is_last_block_lem l timestamp p le g w n =
    last_block_times timestamp l.cfg.l1_genesis_timestamp l.cfg.l1_block_time l.cfg.l2_block_time _
      (end l.sequencing_window) le g w n
      (slot_start timestamp l.cfg.l1_genesis_timestamp l.cfg.l1_block_time (omega arith)).0

-- The slot at which the handover window of a slot's epoch begins.
abbrev pub handover_start : RuntimeConfig → ℕ → ℕ
handover_start cfg slot = to_epoch slot * epoch_slots + epoch_slots - cfg.handover_window_slots

mul_le_mul : (f q b : ℕ) → f ≤ q → f * b ≤ q * b
mul_le_mul f q b h = grind arith

next_epoch_boundary_lem :
    (q : ℕ)
    → q < 2 ^ 63
    → q % epoch_slots ≢ 0
    → next_epoch_boundary q ≡ to_epoch q * epoch_slots + epoch_slots
unfolding next_epoch_boundary to_epoch
next_epoch_boundary_lem q h m = ground arith

-- The handover window begins at or before the clock, and neither product wraps.
handover_start-le :
    (now g b f : ℕ)
    → 0 < b
    → g ≤ now
    → now < 2 ^ 63
    → f ≤ (now - g) / b
    → (add64 g (mul64 f b) ≡ g + f * b) × (g + f * b ≤ now)
handover_start-le now g b f p k w h =
    let low = mul_le_mul f ((now - g) / b) b h in
    let start = (slot_start now g b p).0 in (omega arith, omega arith)

-- In the last `handover_window_slots` of an epoch, past its first slot, the buffer is over exactly
-- when the end of sequencing was announced for this epoch, or `handover_skip_slots` L2 blocks'
-- time has gone by since the handover window began. The clock is between the genesis and 2 ^ 63,
-- the block time is positive, and that time is below 2 ^ 64.
pub is_past_handover_buffer_lem :
    (l : Lookahead) (now : ℕ)
    → 0 < l.cfg.l1_block_time
    → l.cfg.l1_genesis_timestamp ≤ now
    → now < 2 ^ 63
    → l.cfg.handover_skip_slots * l.cfg.l2_block_time < u64_mod
    → timestamp_to_l1_slot l.cfg now % epoch_slots ≢ 0
    → handover_start l.cfg (timestamp_to_l1_slot l.cfg now) ≤ timestamp_to_l1_slot l.cfg now
    → (is_past_handover_buffer l now ≡ true) ↔ (
        (l.end_of_sequencing_mark ≡ to_epoch (timestamp_to_l1_slot l.cfg now))
        ⊎ (slot_to_timestamp l.cfg (handover_start l.cfg (timestamp_to_l1_slot l.cfg now))
              + l.cfg.handover_skip_slots * l.cfg.l2_block_time
            ≤ now))
unfolding is_past_handover_buffer timestamp_to_l1_slot slot_to_timestamp Slots.timestamp_to_l1_slot
    Slots.slot_to_timestamp
is_past_handover_buffer_lem l now p g w s m f =
    let q : ℕ = (now - l.cfg.l1_genesis_timestamp) / l.cfg.l1_block_time in
    let small : q ≤ now - l.cfg.l1_genesis_timestamp = grind arith in
    let boundary = next_epoch_boundary_lem q (omega arith) m in
    let (exact, before) =
      handover_start-le now l.cfg.l1_genesis_timestamp l.cfg.l1_block_time (handover_start l.cfg q)
        p g w f in
    rw (boundary, exact) (ground arith)
