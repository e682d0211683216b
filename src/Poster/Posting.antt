-- ===== src/Poster/Posting.antt =====
-- The frame of a proposal in crates/driver/src/batch_submitter/poster.rs: the wait for a new block, the
-- fee hints of the market, and `post_batch_inner` around the retries.
pub mod Waiting
use taiko_mk.Prelude.{
  ℕ, zero, suc, ◌-◌, Bool, true, false, Option, none, some, List, [], ◌∷◌, ltb, last?,
  if◌then◌else◌,
}
use taiko_mk.Config.{Address}
use taiko_mk.Fees.{
  BlobTxFeesHints, Eip1559Estimation, from_estimation, with_next_block_increase,
  with_enforced_min_batch_tip_wei,
}
use taiko_mk.Batch.{Header, Batch}
use taiko_mk.Errors.{BatchProposalError, no_head, reverted}
use taiko_mk.Poster.{BatchParams, generate_batch, Verdict, again, proposed, gave_up}

abbrev pub max_retries_for_new_block : ℕ
max_retries_for_new_block = 32

-- A query for the latest block: it fails, there is no block, or a block.
pub data HeadReply : Type 0 where
  query_error : BatchProposalError → HeadReply
  no_block : HeadReply
  head : Header → HeadReply

-- `Result<Block, BatchProposalError>`.
pub data NewHead : Type 0 where
  mined : Header → NewHead
  not_mined : BatchProposalError → NewHead

-- The rounds that are left, and the replies, one for each tick of the clock.
unfoldable pub wait_rounds : ℕ → (ℕ → HeadReply) → ℕ → ℕ → NewHead
wait_rounds zero replies tick latest = not_mined no_head
wait_rounds (suc left) replies tick latest = elim (replies tick) [
  | query_error e ↦ not_mined e
  | no_block ↦ not_mined no_head
  | head new_head ↦ elim (ltb latest new_head.number) [
    | true ↦ mined new_head
    | false ↦ wait_rounds left replies (suc tick) latest
  ]
]

unfoldable pub wait_for_new_block : (ℕ → HeadReply) → Header → NewHead
wait_for_new_block replies latest_head =
    wait_rounds max_retries_for_new_block replies 0 latest_head.number

-- Both replies of the node, `none` on an error.
unfoldable pub create_blob_fees_hints :
    Option ℕ → Option Eip1559Estimation → ℕ → Option BlobTxFeesHints
create_blob_fees_hints none eip1559_hints min_batch_tip_wei = none
create_blob_fees_hints (some blob_fee) none min_batch_tip_wei = none
create_blob_fees_hints (some blob_fee) (some estimation) min_batch_tip_wei = some (
    with_enforced_min_batch_tip_wei (with_next_block_increase (from_estimation estimation blob_fee))
      min_batch_tip_wei)

-- The request to the router: its parameters, and the last block that is expected of the batch.
pub record ProposalRequest : Type 0 where
  pub params : BatchParams
  pub expected_last_block_id : Option ℕ

-- What the code reads of a receipt.
pub record Receipt : Type 0 where
  pub transaction_hash : ℕ
  pub block_number : Option ℕ
  pub status : Bool

-- `BatchResult`; `panicked` is the post of an empty batch, and `unfinished` a loop that still runs.
pub data Posted : Type 0 where
  landed : Receipt → Posted
  post_failed : BatchProposalError → Posted
  panicked : Posted
  unfinished : Posted

-- The reason of a revert is only logged, and so is a mismatch of the event.
unfoldable pub on_verdict : Verdict Receipt → Posted
on_verdict (gave_up e) = post_failed e
on_verdict (proposed r) = elim r.status [
  | true ↦ landed r
  | false ↦ post_failed (reverted r.transaction_hash r.block_number)
]
on_verdict (again a) = unfinished

-- `disabled` is the setting `disable_expected_last_block_id`.
unfoldable pub request_of : Bool → BatchParams → ℕ → ProposalRequest
request_of disabled params last_block_number = record {
  params = params;
  expected_last_block_id = if disabled then none else some last_block_number;
}

-- The replies while the batch is generated: an error of the compression or of the blobs, and the hints.
pub record Generation : Type 0 where
  pub sidecar_error : Option BatchProposalError
  pub fees_hints : Option BlobTxFeesHints
  pub hints_error : BatchProposalError

module _ (propose : BlobTxFeesHints → ProposalRequest → Verdict Receipt) where
  unfoldable pub post_generated :
      Option BatchProposalError
      → Option BlobTxFeesHints
      → BatchProposalError
      → ProposalRequest
      → Posted
  unfolding on_verdict
  post_generated (some e) hints hints_error req = post_failed e
  post_generated none none hints_error req = post_failed hints_error
  post_generated none (some hints) hints_error req = on_verdict (propose hints req)

  unfoldable pub post_batch_inner :
      {Tx : Type 0} → Address → (List Tx → ℕ) → Bool → Generation → Batch Tx → Posted
  unfolding post_generated request_of
  post_batch_inner proposer compressed_size disabled g batch = elim (last? batch.blocks) [
    | none ↦ panicked
    | some last_block ↦ elim (generate_batch proposer compressed_size batch) [
      | none ↦ panicked
      | some (params, batch_txs) ↦
          post_generated g.sidecar_error g.fees_hints g.hints_error
            (request_of disabled params last_block.number)
    ]
  ]
