-- ===== src/Poster.antt =====
-- Posting a batch: crates/driver/src/batch_submitter/poster.rs. The provider is a parameter: what
-- it does in a round of the retry loop (filling, sending, the wait for a block, the clock, new
-- hints) is the round's data. So are the encoded length of transactions' compression and the
-- transaction that the router's bindings build. Logs and metrics are left out.
pub mod Params
pub mod Fees
pub mod Retries
pub mod Posting
mod Tests
use taiko_mk.Prelude.{
  ℕ, ◌+◌, ◌-◌, ◌*◌, ◌%◌, ◌^◌, Bool, true, false, Option, none, some, List, [], ◌∷◌, ◌++◌, ltb,
  if◌then◌else◌, length, head?, last?, min, sub64,
}
use taiko_mk.Config.{Address}
use taiko_mk.Fees.{
  BlobTxFeesHints, double, with_next_block_increase, bump_base_fee, u128_max, saturating_add128,
}
use taiko_mk.Batch.{PreconfirmedBlock, Batch, anchor_id}
use taiko_mk.Errors.{
  RpcError, error_resp, other_rpc_error, TaikoInboxError, RetryBatchSubmissionError, rpc_error,
  taiko_inbox, unknown_selector, fees_too_high, BatchProposalError, deadline_reached,
  batch_retry_error, no_head, TryParseTransportErrorResult, from_parsed, to_lowercase, contains,
  extract_base_fee_from_err, blob_gas_too_low_error, max_fee_per_gas_too_low_error,
}

-- `BlockParams` of the inbox contract; there are no signal slots.
pub record BlockParams : Type 0 where
  pub num_transactions : ℕ
  pub time_shift : ℕ

-- `BatchParams` of the inbox contract, without the fields that are constant here.
pub record BatchParams : Type 0 where
  pub last_block_timestamp : ℕ
  pub proposer : Address
  pub coinbase : Address
  pub anchor_block_id : ℕ
  pub byte_size : ℕ
  pub blocks : List BlockParams

-- `u8::try_from(time_difference).unwrap_or(u8::MAX)`.
abbrev pub cap_time_shift : ℕ → ℕ
cap_time_shift time_difference = if ltb time_difference 256 then time_difference else 255

module _ {Tx : Type 0} where
  -- The loop of `generate_batch` over the blocks: their parameters and the batch's transactions.
  pub blocks_params : ℕ → List (PreconfirmedBlock Tx) → List BlockParams × List Tx
  blocks_params previous_block_timestamp [] = ([], [])
  blocks_params previous_block_timestamp (x ∷ xs) =
      let time_difference = sub64 x.timestamp previous_block_timestamp in
      let params : BlockParams = record {
        num_transactions = length x.tx_list % 2 ^ 16;
        time_shift = cap_time_shift time_difference;
      } in
      let (rest, txs) = blocks_params x.timestamp xs in (params ∷ rest, x.tx_list ++ txs)

  -- The parameters and the transactions that go into the blob; `none` is the panic on an empty
  -- batch.
  unfoldable pub generate_batch :
      Address → (List Tx → ℕ) → Batch Tx → Option (BatchParams × List Tx)
  unfolding blocks_params
  generate_batch proposer compressed_size batch = elim (head? batch.blocks) [
    | none ↦ none
    | some first ↦ elim (last? batch.blocks) [
      | none ↦ none
      | some last ↦
          let (params, batch_txs) = blocks_params first.timestamp batch.blocks in
          some (
            record {
              last_block_timestamp = last.timestamp;
              proposer = proposer;
              coinbase = batch.coinbase;
              anchor_block_id = anchor_id batch;
              byte_size = compressed_size batch_txs % 2 ^ 32;
              blocks = params;
            },
            batch_txs,
          )
    ]
  ]

-- 0.125 ETH in wei.
abbrev pub max_fees : ℕ
max_fees = 125_000_000_000_000_000

abbrev pub min_gas_limit : ℕ
min_gas_limit = 5_000_000

abbrev pub bytes_per_blob : ℕ
bytes_per_blob = 131_072

-- The fields of the filled and signed transaction that the code reads.
pub record Envelope : Type 0 where
  pub nonce : ℕ
  pub gas_limit : ℕ
  pub max_fee_per_gas : ℕ
  pub max_fee_per_blob_gas : ℕ
  pub blobs_len : ℕ

abbrev saturating_mul128 : ℕ → ℕ → ℕ
saturating_mul128 a b = min (a * b) u128_max

abbrev saturating_mul64 : ℕ → ℕ → ℕ
saturating_mul64 a b = min (a * b) 0xffff_ffff_ffff_ffff

unfoldable pub max_batch_fee : Envelope → ℕ
max_batch_fee tx =
    let blob_gas_used = saturating_mul128 tx.blobs_len bytes_per_blob in
    let blob_fees = saturating_mul128 tx.max_fee_per_blob_gas blob_gas_used in
    let execution_fees = saturating_mul128 tx.max_fee_per_gas tx.gas_limit in
    saturating_add128 execution_fees blob_fees

-- The gas limit of the next attempts.
abbrev pub next_gas_limit : Envelope → ℕ
next_gas_limit tx = min (saturating_mul64 tx.gas_limit 2) min_gas_limit

-- What an attempt puts into the request.
pub record Attempt : Type 0 where
  pub fees_hints : BlobTxFeesHints
  pub nonce : Option ℕ
  pub gas_limit : Option ℕ

pub data Filled : Type 0 where
  filled : Envelope → Filled
  not_filled : TryParseTransportErrorResult → Filled

pub data Sent : Type 0 where
  sent : ℕ → Sent
  not_sent : TryParseTransportErrorResult → Sent

pub data Submission : Type 0 where
  submitted : ℕ → ℕ → ℕ → Submission
  rejected : RetryBatchSubmissionError → Submission

-- The end of `retry_tx_submission`, on what `send_raw_transaction` returned.
finish_submission : ℕ → ℕ → Sent → Submission
finish_submission nonce gas_limit (sent tx_hash) = submitted tx_hash nonce gas_limit
finish_submission nonce gas_limit (not_sent e) = rejected (from_parsed e)

-- What follows the call of `fill`.
submit_filled : (Envelope → Sent) → Filled → Submission
submit_filled send (not_filled e) = rejected (from_parsed e)
submit_filled send (filled tx) =
    if ltb max_fees (max_batch_fee tx)
    then rejected (fees_too_high (max_batch_fee tx) max_fees)
    else finish_submission tx.nonce (next_gas_limit tx) (send tx)

unfoldable pub retry_tx_submission : (Attempt → Filled) → (Envelope → Sent) → Attempt → Submission
unfolding submit_filled finish_submission
retry_tx_submission fill send attempt = submit_filled send (fill attempt)

-- The outcome of the wait for a block and of the query for the receipt.
pub data Waited (Receipt : Type 0) : Type 0 where
  receipt : Receipt → Waited Receipt
  no_receipt : Waited Receipt
  wait_failed : BatchProposalError → Waited Receipt

-- `create_blob_fees_hints`.
pub data NewHints : Type 0 where
  new_hints : BlobTxFeesHints → NewHints
  no_hints : BatchProposalError → NewHints

pub record Round (Receipt : Type 0) : Type 0 where
  pub fill : Attempt → Filled
  pub send : Envelope → Sent
  pub waited : Waited Receipt
  pub current_slot : ℕ
  pub hints : NewHints

pub data Verdict (Receipt : Type 0) : Type 0 where
  again : Attempt → Verdict Receipt
  proposed : Receipt → Verdict Receipt
  gave_up : BatchProposalError → Verdict Receipt

-- `is_none` and the assignment.
abbrev pub first_or : Option ℕ → ℕ → Option ℕ
first_or none n = some n
first_or (some old) n = some old

module _ {Receipt : Type 0} where
  retry_with_new_hints : NewHints → Attempt → Verdict Receipt
  retry_with_new_hints (new_hints h) a = again (record a { fees_hints = h })
  retry_with_new_hints (no_hints e) a = gave_up e

  -- A base fee that the error message names; the hints are made anew where it does not help.
  on_base_fee : NewHints → Option ℕ → Attempt → Verdict Receipt
  on_base_fee hints none a = retry_with_new_hints hints a
  on_base_fee hints (some new_base_fee) a =
      let (bumped, success) = bump_base_fee a.fees_hints new_base_fee in
      if success then again (record a { fees_hints = bumped }) else retry_with_new_hints hints a

  on_error : NewHints → RetryBatchSubmissionError → Attempt → Verdict Receipt
  on_error hints (rpc_error (error_resp message)) a =
      let msg = to_lowercase message in
      if contains msg blob_gas_too_low_error
      then again (record a { fees_hints = with_next_block_increase a.fees_hints })
      else if contains msg max_fee_per_gas_too_low_error
      then on_base_fee hints (extract_base_fee_from_err msg) a
      else gave_up (batch_retry_error (rpc_error (error_resp message)))
  on_error hints (rpc_error other_rpc_error) a =
      gave_up (batch_retry_error (rpc_error other_rpc_error))
  on_error hints (taiko_inbox e) a = gave_up (batch_retry_error (taiko_inbox e))
  on_error hints unknown_selector a = gave_up (batch_retry_error unknown_selector)
  on_error hints (fees_too_high got max) a = gave_up (batch_retry_error (fees_too_high got max))

  -- The end of a round whose transaction was sent.
  on_waited : ℕ → ℕ → Waited Receipt → Attempt → Verdict Receipt
  on_waited deadline current_slot (receipt r) a = proposed r
  on_waited deadline current_slot (wait_failed e) a = gave_up e
  on_waited deadline current_slot no_receipt a =
      if ltb deadline current_slot
      then gave_up deadline_reached
      else again (record a { fees_hints = double a.fees_hints })

  on_submission : ℕ → Round Receipt → Submission → Attempt → Verdict Receipt
  on_submission deadline r (submitted tx_hash nonce gas_limit) a =
      on_waited deadline r.current_slot r.waited
        (record a { nonce = first_or a.nonce nonce; gas_limit = first_or a.gas_limit gas_limit })
  on_submission deadline r (rejected e) a = on_error r.hints e a

  -- One round of the loop of `propose_batch_with_retries`.
  unfoldable pub retry_round : ℕ → Round Receipt → Attempt → Verdict Receipt
  unfolding on_submission on_waited on_error on_base_fee retry_with_new_hints
  retry_round deadline r a = on_submission deadline r (retry_tx_submission r.fill r.send a) a

  -- The loop, over the rounds that happen; `again` is a loop that still runs when they end.
  pub retry_rounds : ℕ → List (Round Receipt) → Attempt → Verdict Receipt
  retry_rounds deadline [] a = again a
  retry_rounds deadline (r ∷ rs) a = elim (retry_round deadline r a) [
    | again a' ↦ retry_rounds deadline rs a'
    | proposed found ↦ proposed found
    | gave_up e ↦ gave_up e
  ]

  -- `has_head` says whether the provider has a latest block.
  pub propose_batch_with_retries :
      (current_slot deadline : ℕ) → Bool → List (Round Receipt) → BlobTxFeesHints → Verdict Receipt
  propose_batch_with_retries current_slot deadline has_head rounds fees_hints =
      if ltb deadline current_slot
      then gave_up deadline_reached
      else if has_head
      then retry_rounds deadline rounds
          (record { fees_hints = fees_hints; nonce = none; gas_limit = none })
      else gave_up no_head
