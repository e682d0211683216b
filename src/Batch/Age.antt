-- ===== src/Batch/Age.antt =====
-- The age of a batch and its time shifts: crates/primitives/src/taiko/batch.rs.
use taiko_mk.Prelude.{ℕ, ◌+◌, ◌-◌, ◌*◌, ◌^◌, ◌≤◌, ◌<◌, ◌≡◌, ◌⊎◌, some, false, arith}
use taiko_mk.Batch.{
  Batch, slot_duration_secs, max_timeshift_secs, anchor_id, first_timestamp, last_timestamp,
  should_build_empty_block, compute_age_limit,
}

module _ {Tx : Type 0} where
  -- A batch that lands within the slots left, if there are any, still has an anchor block of an
  -- admissible age, and its first block is within the time shift that the protocol allows. The
  -- batch has a first block, which is not after the next block, the anchor is not after it either,
  -- and the maximum height offset is below 2 ^ 32.
  compute_age_limit_sound :
      (b : Batch Tx) (next_ts next_number later : ℕ) (first : ℕ)
      → first_timestamp b ≡ some first
      → b.settings.max_anchor_height_offset < 2 ^ 32
      → first ≤ next_ts
      → anchor_id b ≤ next_number
      → 0 < compute_age_limit b next_ts next_number
      → later ≤ compute_age_limit b next_ts next_number
      → (next_number + later - anchor_id b ≤ b.settings.max_anchor_height_offset)
        × (next_ts + later * slot_duration_secs - first
            ≤ b.settings.max_anchor_height_offset * slot_duration_secs)
  unfolding compute_age_limit
  compute_age_limit_sound b next_ts next_number later first e m t n p le = ground arith

  -- The limit is exact: one slot more breaks one of the two bounds. The batch has a first block,
  -- which is not after the next block, the anchor is not after it either, and the maximum height
  -- offset is below 2 ^ 32.
  pub compute_age_limit_tight :
      (b : Batch Tx) (next_ts next_number : ℕ) (first : ℕ)
      → first_timestamp b ≡ some first
      → b.settings.max_anchor_height_offset < 2 ^ 32
      → first ≤ next_ts
      → anchor_id b ≤ next_number
      → let more = compute_age_limit b next_ts next_number + 1 in
        (b.settings.max_anchor_height_offset < next_number + more - anchor_id b)
        ⊎ (b.settings.max_anchor_height_offset * slot_duration_secs
            < next_ts + more * slot_duration_secs - first)
  unfolding compute_age_limit
  compute_age_limit_tight b next_ts next_number first e m t n = ground arith

  -- Where no empty block is called for, the new block is less than `max_timeshift_secs - 4` after
  -- the last one, so that their time shift fits a byte.
  should_build_empty_block_lem :
      (b : Batch Tx) (new_ts last : ℕ)
      → last_timestamp b ≡ some last
      → should_build_empty_block b new_ts ≡ false
      → new_ts - last < max_timeshift_secs - 4
  unfolding should_build_empty_block
  should_build_empty_block_lem b new_ts last e h = ground arith
