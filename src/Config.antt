-- ===== src/Config.antt =====
-- crates/driver/src/config.rs: the settings that the driver reads, and the settings of a batch.
pub mod Clock
mod Tests
use taiko_mk.Prelude.{ℕ, add64, mul64, saturating_sub}
use taiko_mk.Slots

-- `alloy_primitives::Address`: only compared.
abbrev pub Address : Type 0
Address = ℕ

-- The fields of `RuntimeConfig` and of its parts that the modelled code reads.
pub record RuntimeConfig : Type 0 where
  pub l1_genesis_timestamp : ℕ
  pub l1_block_time : ℕ
  pub l2_block_time : ℕ
  pub operator : Address
  pub handover_window_slots : ℕ
  pub handover_skip_slots : ℕ
  pub anchor_block_lag : ℕ
  pub anchor_max_height_buffer : ℕ
  pub batch_size_target_kb : ℕ
  pub max_blocks_per_batch : ℕ
  pub max_anchor_height_offset : ℕ

pub record BatchSettings : Type 0 where
  pub capacity : ℕ
  pub target_compressed_size : ℕ
  pub max_raw_size : ℕ
  pub default_coinbase : Address
  pub max_anchor_height_offset : ℕ
  pub anchor_max_height_buffer : ℕ

abbrev pub bytes_per_kb : ℕ
bytes_per_kb = 1024

-- `MAX_BLOB_DATA_SIZE` of crates/primitives/src/blob.rs.
abbrev pub max_blob_data_size : ℕ
max_blob_data_size = 130044

-- The clock's reading is the first argument.
unfoldable pub current_slot : ℕ → RuntimeConfig → ℕ
current_slot now cfg = Slots.timestamp_to_l1_slot now cfg.l1_genesis_timestamp cfg.l1_block_time

unfoldable pub timestamp_to_l1_slot : RuntimeConfig → ℕ → ℕ
timestamp_to_l1_slot cfg timestamp =
    Slots.timestamp_to_l1_slot timestamp cfg.l1_genesis_timestamp cfg.l1_block_time

unfoldable pub slot_to_timestamp : RuntimeConfig → ℕ → ℕ
slot_to_timestamp cfg slot = Slots.slot_to_timestamp slot cfg.l1_genesis_timestamp cfg.l1_block_time

unfoldable pub max_proposable_block_age_secs : RuntimeConfig → ℕ
max_proposable_block_age_secs cfg = mul64 cfg.max_anchor_height_offset cfg.l1_block_time

unfoldable pub default_proposal_time_buffer : RuntimeConfig → ℕ
default_proposal_time_buffer cfg = mul64 cfg.anchor_max_height_buffer cfg.l1_block_time

-- `MAX_BLOBS_PER_BLOCK_ELECTRA` of alloy is the first argument.
unfoldable pub batch_settings : ℕ → RuntimeConfig → BatchSettings
batch_settings max_blobs_per_block cfg = record {
  capacity = cfg.max_blocks_per_batch;
  target_compressed_size = mul64 cfg.batch_size_target_kb bytes_per_kb;
  max_raw_size = mul64 max_blob_data_size max_blobs_per_block;
  default_coinbase = cfg.operator;
  max_anchor_height_offset = cfg.max_anchor_height_offset;
  anchor_max_height_buffer = cfg.anchor_max_height_buffer;
}

-- `RuntimeConfig::slot_clock`: how long after now the clock starts. Its periods are the two block times.
unfoldable pub slot_clock_delay : ℕ → RuntimeConfig → ℕ
slot_clock_delay now cfg =
    let next_slot_ts =
      add64
        (add64 cfg.l1_genesis_timestamp (mul64 (timestamp_to_l1_slot cfg now) cfg.l1_block_time))
        cfg.l1_block_time in
    saturating_sub next_slot_ts now
