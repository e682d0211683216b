-- ===== src/Production/Tests.antt =====
-- Runs of the block builder of crates/driver/src/block_builder/mod.rs.
use taiko_mk.Prelude.{ℕ, ◌≡◌, refl, false, Option, none, some, List, [], ◌∷◌}
use taiko_mk.Samples.{header}
use taiko_mk.Production.{
  L2Header, BuilderConfig, BlockPayload, skipped, TxPoolContentParams, new_request, build_payload,
  payload_of, tx_list_of, fetch_tx_lists, base_fee_of,
}
use taiko_mk.Production.Payloads.{Answers, build_payload-Answers}

abbrev pub builder_config : BuilderConfig
builder_config = record {
  operator = 7;
  block_max_gas_limit = 240000000;
  extra_data = 75;
  max_block_size_bytes = 1000;
  enable_building_empty_blocks = false;
  max_tx_lists_per_call = 1;
  min_tip_wei = 0;
}

abbrev pub parent : L2Header
parent = record { header = header 11; hash = 99; gas_used = 21000 }

-- A pool with one list of transactions, and a fixed base fee.
abbrev pub pool : TxPoolContentParams → Option (Option (List (List ℕ)))
pool params = some (some ((30 ∷ 20 ∷ []) ∷ []))

abbrev pub fixed_fee : ℕ → ℕ → Option ℕ
fixed_fee gas_used timestamp = some 10

abbrev empty_pool : TxPoolContentParams → Option (Option (List (List ℕ)))
empty_pool params = some none

skipped_test : build_payload builder_config empty_pool fixed_fee (new_request 2024 parent) ≡ skipped
unfolding build_payload payload_of tx_list_of fetch_tx_lists base_fee_of new_request
skipped_test = refl

build_payload-Answers_example :
    Answers builder_config pool fixed_fee
      (new_request 2024 parent)
      (build_payload builder_config pool fixed_fee (new_request 2024 parent))
build_payload-Answers_example =
    build_payload-Answers builder_config pool fixed_fee (new_request 2024 parent)

abbrev pub payload : BlockPayload ℕ
payload = record {
  parent = parent;
  base_fee = 10;
  is_last = false;
  timestamp = 2024;
  tx_list_without_anchor_tx = 30 ∷ 20 ∷ [];
}
