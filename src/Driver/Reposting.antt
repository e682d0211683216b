-- ===== src/Driver/Reposting.antt =====
-- `finalize_all_blocks_from_batches` of crates/driver/src/driver.rs: the blocks of re-anchored or
-- re-timestamped batches are built again and posted to the L2, on top of what was posted so far. The
-- node's headers depend on the blocks posted so far; the block builder is Production.antt.
pub mod Order
use taiko_mk.Prelude.{
  ℕ, ◌==◌, Option, none, some, List, [], ◌∷◌, ◌++◌, if◌then◌else◌, saturating_sub, true, false,
}
use taiko_mk.Batch.{Header, PreconfirmedBlock, Batch}
use taiko_mk.BatchMap.{ReorgReason, only_reanchoring}
use taiko_mk.Production.{
  L2Header, BuilderConfig, BuildPayloadRequest, BlockPayload, build_error, skipped, built,
  TxPoolContentParams, RequestBody, new_request, with_transaction_list, with_force_empty,
  with_base_fee, build_payload, finalize_block,
}

-- A payload handed to the node: for which block and under which anchor, and the block that came back.
pub record Posted (Tx : Type 0) : Type 0 where
  pub anchor : Header
  pub block : PreconfirmedBlock Tx
  pub payload : BlockPayload Tx
  pub posted_block : PreconfirmedBlock Tx

-- `Result<(), DriverError>`, and the panic of `expect("force_empty")`.
pub data Reposted : Type 0 where
  finished : Reposted
  rpc_failed : Reposted
  missing_base_fee : ℕ → Reposted
  panicked : Reposted

-- `?` inside the loops: an error ends them with what is posted.
unfoldable pub and_then :
    {Tx : Type 0}
    → Reposted × List (Posted Tx)
    → (List (Posted Tx) → Reposted × List (Posted Tx))
    → Reposted × List (Posted Tx)
and_then (finished, posted) f = f posted
and_then (rpc_failed, posted) f = (rpc_failed, posted)
and_then (missing_base_fee number, posted) f = (missing_base_fee number, posted)
and_then (panicked, posted) f = (panicked, posted)

-- `HashMap::get` on the list that the map was collected from: the last pair with the key counts.
unfoldable pub get : List (ℕ × ℕ) → ℕ → Option ℕ
get [] key = none
get (x ∷ xs) key = elim (get xs key) [
  | some v ↦ some v
  | none ↦ if x.0 == key then some x.1 else none
]

module _ {Tx : Type 0} (cfg : BuilderConfig)
    (tx_pool : TxPoolContentParams → Option (Option (List (List Tx))))
    (get_base_fee_v2 : ℕ → ℕ → Option ℕ) (assemble_anchor_tx : L2Header → Header → ℕ → Option Tx)
    (rlp_encode_and_compress : List Tx → Option (List ℕ))
    (build_preconf_block : RequestBody → Option Header)
    (get_header : List (Posted Tx) → ℕ → Option L2Header) where
  unfoldable pub finalize_payload :
      List (Posted Tx)
      → Header
      → PreconfirmedBlock Tx
      → BlockPayload Tx
      → Reposted × List (Posted Tx)
  finalize_payload posted anchor block payload =
      elim (finalize_block cfg assemble_anchor_tx rlp_encode_and_compress build_preconf_block anchor
        payload) [
          | none ↦ (rpc_failed, posted)
          | some response ↦ (
            finished,
            posted
                ++ record {
                  anchor = anchor;
                  block = block;
                  payload = payload;
                  posted_block = response.0;
                }
                  ∷ [],
          )
        ]

  -- Build the payload and finalize it.
  unfoldable pub build_and_finalize :
      List (Posted Tx)
      → Header
      → PreconfirmedBlock Tx
      → BuildPayloadRequest Tx
      → Reposted × List (Posted Tx)
  build_and_finalize posted anchor block req =
      elim (build_payload cfg tx_pool get_base_fee_v2 req) [
        | build_error ↦ (rpc_failed, posted)
        | skipped ↦ (panicked, posted)
        | built payload ↦ finalize_payload posted anchor block payload
      ]

  module _ (reorg_reasons : List ReorgReason) (basefee_map : List (ℕ × ℕ)) where
    -- The payload with the exact transactions of the block.
    unfoldable pub repost_request : PreconfirmedBlock Tx → L2Header → BuildPayloadRequest Tx
    repost_request block parent =
        with_force_empty (with_transaction_list (new_request block.timestamp parent) block.tx_list)
          true

    unfoldable pub repost_block :
        List (Posted Tx) → Header → PreconfirmedBlock Tx → Reposted × List (Posted Tx)
    repost_block posted anchor block = elim (get_header posted (saturating_sub block.number 1)) [
      | none ↦ (rpc_failed, posted)
      | some parent ↦
          let req = repost_request block parent in
          elim (only_reanchoring reorg_reasons) [
            | true ↦ elim (get basefee_map block.number) [
              | some base_fee ↦ build_and_finalize posted anchor block (with_base_fee req base_fee)
              | none ↦ (missing_base_fee block.number, posted)
            ]
            | false ↦ build_and_finalize posted anchor block req
          ]
    ]

    -- The loop over the blocks of a batch; an error ends it.
    unfoldable pub repost_blocks :
        List (Posted Tx) → Header → List (PreconfirmedBlock Tx) → Reposted × List (Posted Tx)
    repost_blocks posted anchor [] = (finished, posted)
    repost_blocks posted anchor (block ∷ blocks) =
        and_then (repost_block posted anchor block) (λ p. repost_blocks p anchor blocks)

    unfoldable pub finalize_all_blocks_from_batches :
        List (Posted Tx) → List (Batch Tx) → Reposted × List (Posted Tx)
    finalize_all_blocks_from_batches posted [] = (finished, posted)
    finalize_all_blocks_from_batches posted (batch ∷ batches) =
        and_then (repost_blocks posted batch.anchor_block batch.blocks)
          (λ p. finalize_all_blocks_from_batches p batches)
