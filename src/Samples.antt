-- ===== src/Samples.antt =====
-- Data that the examples share. A transaction is its encoded length, and the estimate is half of the
-- raw size.
use taiko_mk.Prelude.{ℕ, ◌+◌, ◌*◌, ◌/◌, none, [], ◌∷◌, arith}
use taiko_mk.Config.{BatchSettings, RuntimeConfig}
use taiko_mk.Batch.{Header, PreconfirmedBlock, Batch}
use taiko_mk.Batch.Adding.{IsValid}

abbrev pub header : ℕ → Header
header number = record {
  number = number;
  timestamp = 1000 + 12 * number;
  beneficiary = 0;
  base_fee_per_gas = none;
}

abbrev pub settings : BatchSettings
settings = record {
  capacity = 2;
  target_compressed_size = 100;
  max_raw_size = 1000;
  default_coinbase = 7;
  max_anchor_height_offset = 64;
  anchor_max_height_buffer = 6;
}

abbrev pub block : ℕ → ℕ → PreconfirmedBlock ℕ
block number coinbase = record {
  timestamp = 2000 + 2 * number;
  number = number;
  coinbase = coinbase;
  tx_list = 30 ∷ 20 ∷ [];
}

abbrev pub half : ℕ → ℕ
half n = n / 2

abbrev pub size : ℕ → ℕ
size n = n

-- Two blocks under anchor 5, of two coinbases: as many as the capacity.
abbrev pub pair : Batch ℕ
pair = record {
  blocks = block 10 7 ∷ block 11 9 ∷ [];
  anchor_block = header 5;
  settings = settings;
  coinbase = 7;
}

pub pair-IsValid : IsValid pair
pair-IsValid = record {
  within_capacity = omega arith;
  increasing = (omega arith, (omega arith, tt));
}

abbrev pub config : ℕ → RuntimeConfig
config operator = record {
  l1_genesis_timestamp = 1000;
  l1_block_time = 12;
  l2_block_time = 2;
  operator = operator;
  handover_window_slots = 4;
  handover_skip_slots = 4;
  anchor_block_lag = 4;
  anchor_max_height_buffer = 6;
  batch_size_target_kb = 100;
  max_blocks_per_batch = 10;
  max_anchor_height_offset = 64;
}
