-- ===== src/Production.antt =====
-- The block builder: crates/driver/src/block_builder/mod.rs. The anchor contract, the engine, the
-- preconf client and the compression are parameters, `none` where they fail. The channel of produced
-- blocks is a list; logs and metrics are left out, and so is `sanity_check_preconf_block`, which
-- only logs. `local_accounts`, which is always empty, is left out.
pub mod Payloads
pub mod Tests
use taiko_mk.Prelude.{
  ℕ, ◌+◌, ◌%◌, ◌^◌, Bool, true, false, not, ◌&&◌, ◌||◌, Option, none, some, List, [], ◌∷◌, ◌++◌,
  if◌then◌else◌, is_nil, add64,
}
use taiko_mk.Config.{Address}
use taiko_mk.Batch.{Header, PreconfirmedBlock}
use taiko_mk.Blocks.{preconfirm}
use taiko_mk.Builder.{BuilderState, set_finalizing, drop_response}

-- A header of the L2, with the fields that only the builder reads.
pub record L2Header : Type 0 where
  pub header : Header
  pub hash : ℕ
  pub gas_used : ℕ

-- The parts of the configuration that the builder reads.
pub record BuilderConfig : Type 0 where
  pub operator : Address
  pub block_max_gas_limit : ℕ
  pub extra_data : ℕ
  pub max_block_size_bytes : ℕ
  pub enable_building_empty_blocks : Bool
  pub max_tx_lists_per_call : ℕ
  pub min_tip_wei : ℕ

pub record BuildPayloadRequest (Tx : Type 0) : Type 0 where
  pub timestamp : ℕ
  pub force_empty : Bool
  pub is_last : Bool
  pub parent : L2Header
  pub transaction_list : Option (List Tx)
  pub base_fee : Option ℕ
  pub max_size : Option ℕ

pub record BlockPayload (Tx : Type 0) : Type 0 where
  pub parent : L2Header
  pub base_fee : ℕ
  pub is_last : Bool
  pub timestamp : ℕ
  pub tx_list_without_anchor_tx : List Tx

pub record TxPoolContentParams : Type 0 where
  pub base_fee : ℕ
  pub beneficiary : Address
  pub block_max_gas_limit : ℕ
  pub max_bytes_per_tx_list : ℕ
  pub max_tx_lists_per_call : ℕ
  pub min_tip : ℕ

-- `ExecutableData`, and `BuildPreconfBlockRequestBody` around it.
pub record RequestBody : Type 0 where
  pub end_of_sequencing : Bool
  pub transactions : List ℕ
  pub block_number : ℕ
  pub base_fee_per_gas : ℕ
  pub parent_hash : ℕ
  pub fee_recipient : Address
  pub extra_data : ℕ
  pub timestamp : ℕ
  pub gas_limit : ℕ

-- `Result<Option<BlockPayload>, _>`.
pub data Built (Tx : Type 0) : Type 0 where
  build_error : Built Tx
  skipped : Built Tx
  built : BlockPayload Tx → Built Tx

abbrev pub taiko_anchor_v3_gas_limit : ℕ
taiko_anchor_v3_gas_limit = 1_000_000

module _ {Tx : Type 0} where
  unfoldable pub new_request : ℕ → L2Header → BuildPayloadRequest Tx
  new_request timestamp parent = record {
    timestamp = timestamp;
    force_empty = false;
    is_last = false;
    parent = parent;
    transaction_list = none;
    base_fee = none;
    max_size = none;
  }

  abbrev pub with_transaction_list : BuildPayloadRequest Tx → List Tx → BuildPayloadRequest Tx
  with_transaction_list r transaction_list = record r { transaction_list = some transaction_list }

  abbrev pub with_force_empty : BuildPayloadRequest Tx → Bool → BuildPayloadRequest Tx
  with_force_empty r force_empty = record r { force_empty = force_empty }

  abbrev pub with_is_last : BuildPayloadRequest Tx → Bool → BuildPayloadRequest Tx
  with_is_last r is_last = record r { is_last = is_last }

  abbrev pub with_max_size : BuildPayloadRequest Tx → ℕ → BuildPayloadRequest Tx
  with_max_size r max_size = record r { max_size = some max_size }

  abbrev pub with_base_fee : BuildPayloadRequest Tx → ℕ → BuildPayloadRequest Tx
  with_base_fee r base_fee = record r { base_fee = some base_fee }

-- The replies: `tx_pool` is `none` on an error and `some none` for no candidate.
module _ {Tx : Type 0} (cfg : BuilderConfig)
    (tx_pool : TxPoolContentParams → Option (Option (List (List Tx)))) where
  pub first_list : List (List Tx) → List Tx
  first_list [] = []
  first_list (tx_list ∷ tx_lists) = tx_list

  unfoldable pub fetch_tx_lists : ℕ → ℕ → List Tx
  unfolding first_list
  fetch_tx_lists base_fee max_bytes =
      elim (tx_pool (record {
        base_fee = base_fee;
        beneficiary = cfg.operator;
        block_max_gas_limit = cfg.block_max_gas_limit;
        max_bytes_per_tx_list = max_bytes;
        max_tx_lists_per_call = cfg.max_tx_lists_per_call;
        min_tip = cfg.min_tip_wei;
      })) [ none ↦ [] | some none ↦ [] | some (some block_candidate) ↦ first_list block_candidate ]

  unfoldable pub tx_list_of : BuildPayloadRequest Tx → ℕ → List Tx
  tx_list_of req base_fee = elim req.transaction_list [
    | some tx_list ↦ tx_list
    | none ↦
        fetch_tx_lists base_fee (elim req.max_size [ some n ↦ n | none ↦ cfg.max_block_size_bytes ])
  ]

  -- `build_payload` after the base fee is known.
  unfoldable pub payload_of : BuildPayloadRequest Tx → ℕ → Built Tx
  payload_of req base_fee =
      let tx_list = tx_list_of req base_fee in
      let can_skip_empty_block =
        not (req.force_empty || req.is_last || cfg.enable_building_empty_blocks) in
      if can_skip_empty_block && is_nil tx_list
      then skipped
      else built (record {
        parent = req.parent;
        base_fee = base_fee;
        is_last = req.is_last;
        timestamp = req.timestamp;
        tx_list_without_anchor_tx = tx_list;
      })

  -- `get_base_fee_v2` takes the gas used as a `u32`.
  unfoldable pub base_fee_of : (ℕ → ℕ → Option ℕ) → BuildPayloadRequest Tx → Option ℕ
  base_fee_of get_base_fee_v2 req = elim req.base_fee [
    | some base_fee ↦ some base_fee
    | none ↦ get_base_fee_v2 (req.parent.gas_used % 2 ^ 32) req.timestamp
  ]

  unfoldable pub build_payload : (ℕ → ℕ → Option ℕ) → BuildPayloadRequest Tx → Built Tx
  build_payload get_base_fee_v2 req = elim (base_fee_of get_base_fee_v2 req) [
    | some base_fee ↦ payload_of req base_fee
    | none ↦ build_error
  ]

module _ {Tx : Type 0} (cfg : BuilderConfig)
    (assemble_anchor_tx : L2Header → Header → ℕ → Option Tx)
    (rlp_encode_and_compress : List Tx → Option (List ℕ)) where
  unfoldable pub request_body : BlockPayload Tx → List ℕ → RequestBody
  request_body p compressed_encoded_tx_list = record {
    end_of_sequencing = p.is_last;
    transactions = compressed_encoded_tx_list;
    block_number = add64 p.parent.header.number 1;
    base_fee_per_gas = p.base_fee;
    parent_hash = p.parent.hash;
    fee_recipient = cfg.operator;
    extra_data = cfg.extra_data;
    timestamp = p.timestamp;
    gas_limit = cfg.block_max_gas_limit + taiko_anchor_v3_gas_limit;
  }

  -- The produced block and its anchor: `BlockBuilderResponse`.
  unfoldable pub finalize_block :
      (RequestBody → Option Header)
      → Header
      → BlockPayload Tx
      → Option (PreconfirmedBlock Tx × Header)
  finalize_block build_preconf_block anchor_block p =
      elim (assemble_anchor_tx p.parent anchor_block p.base_fee) [
        | none ↦ none
        | some anchor_tx ↦
            elim (rlp_encode_and_compress (anchor_tx ∷ p.tx_list_without_anchor_tx)) [
              | none ↦ none
              | some compressed ↦ elim (build_preconf_block (request_body p compressed)) [
                | none ↦ none
                | some new_block ↦
                    some (preconfirm new_block p.tx_list_without_anchor_tx, anchor_block)
              ]
            ]
      ]

-- `trigger_finalize_block` before and at the end of its background task: an error sets the builder
-- to idle, a response is sent to the driver, which sets it to idle when it drops the response.
module _ {Tx : Type 0} where
  unfoldable pub trigger_finalize_block : BuilderState → BlockPayload Tx → BuilderState
  trigger_finalize_block s p = set_finalizing s (add64 p.parent.header.number 1)

  unfoldable pub finalized :
      BuilderState
      → Option (PreconfirmedBlock Tx × Header)
      → List (PreconfirmedBlock Tx × Header)
      → BuilderState × List (PreconfirmedBlock Tx × Header)
  finalized s none block_rx = (drop_response s, block_rx)
  finalized s (some response) block_rx = (s, block_rx ++ (response ∷ []))

  -- The driver takes the next response, `into_block_with_anchor`.
  unfoldable pub take_response :
      BuilderState
      → List (PreconfirmedBlock Tx × Header)
      → BuilderState × List (PreconfirmedBlock Tx × Header)
  take_response s [] = (s, [])
  take_response s (response ∷ block_rx) = (drop_response s, block_rx)
