-- ===== src/Poster/Tests.antt =====
-- Examples for crates/driver/src/batch_submitter/poster.rs.
use taiko_mk.Prelude.{
  ℕ, ◌≤◌, ◌≡◌, ◌≢◌, ◌*◌, min, refl, false, none, some, [], ◌∷◌, arith, ltb, if◌then◌else◌,
}
use taiko_mk.Samples.{header, block, pair}
use taiko_mk.Errors.{fees_too_high, no_head, reverted}
use taiko_mk.Poster.{
  Envelope, Attempt, Filled, filled, Sent, sent, max_batch_fee, max_fees, min_gas_limit,
  retry_tx_submission, Round, no_receipt, no_hints, again, blocks_params, retry_round, retry_rounds,
  submit_filled, finish_submission, submitted, rejected,
}
use taiko_mk.Poster.Params.{read_blocks, read_blocks-blocks_params}
use taiko_mk.Poster.Fees.{uncapped_fee, retry_tx_submission_lem}
use taiko_mk.Poster.{proposed, generate_batch}
use taiko_mk.Poster.Posting.{
  HeadReply, head, mined, max_retries_for_new_block, wait_rounds, wait_for_new_block, post_failed,
  on_verdict, post_generated, post_batch_inner,
}
use taiko_mk.Poster.Posting.Waiting.{Ends, wait_for_new_block-Ends}
use taiko_mk.Poster.Retries.{Keeps, retry_round-Keeps, retry_rounds-ends}

read_blocks-blocks_params_example :
    let (params, txs) = blocks_params 2020 (block 10 7 ∷ block 11 7 ∷ []) in
    read_blocks 2020 params txs ≡ (2020, 30 ∷ 20 ∷ []) ∷ (2022, 30 ∷ 20 ∷ []) ∷ []
read_blocks-blocks_params_example = read_blocks-blocks_params 2020 (block 10 7 ∷ block 11 7 ∷ []) (
  omega arith,
  omega arith,
  omega arith,
  omega arith,
  (omega arith, omega arith, omega arith, omega arith, tt),
)

abbrev envelope : Envelope
envelope = record {
  nonce = 4;
  gas_limit = 1_000_000;
  max_fee_per_gas = 1000;
  max_fee_per_blob_gas = 10;
  blobs_len = 2;
}

abbrev fill_four : Attempt → Filled
fill_four a = filled envelope

abbrev send_hash : Envelope → Sent
send_hash tx = sent 99

abbrev first_attempt : Attempt
first_attempt = record {
  fees_hints = record {
    max_priority_fee_per_gas = 10;
    max_fee_per_gas = 1010;
    blob_fee_per_gas = 8;
  };
  nonce = none;
  gas_limit = none;
}

-- The transaction is sent, is not found, and the slot is 50.
abbrev lost : Round ℕ
lost = record {
  fill = fill_four;
  send = send_hash;
  waited = no_receipt;
  current_slot = 50;
  hints = no_hints no_head;
}

retry_tx_submission_lem_example :
    (tx : Envelope) × (fill_four first_attempt ≡ filled tx)
    × (send_hash tx ≡ sent 99)
    × (4 ≡ tx.nonce)
    × (2_000_000 ≡ min (tx.gas_limit * 2) min_gas_limit)
    × (uncapped_fee tx ≤ max_fees)
unfolding retry_tx_submission submit_filled finish_submission max_batch_fee
retry_tx_submission_lem_example =
    retry_tx_submission_lem fill_four send_hash first_attempt 99 4 2_000_000 refl

retry_round-Keeps_example :
    Keeps (submitted 99 4 2_000_000) first_attempt (retry_round 60 lost first_attempt)
unfolding retry_tx_submission submit_filled finish_submission max_batch_fee
retry_round-Keeps_example = retry_round-Keeps 60 lost first_attempt

retry_rounds-ends_example :
    retry_rounds 49 (lost ∷ lost ∷ lost ∷ []) first_attempt ≢ again first_attempt
unfolding retry_tx_submission submit_filled finish_submission max_batch_fee
retry_rounds-ends_example =
    retry_rounds-ends 49 (lost ∷ []) lost (lost ∷ []) first_attempt first_attempt (omega arith)
      (λ b. tt)

-- The transaction of the comment on the minimum gas limit costs 0.2657 ETH, more than the maximum.
six_blobs_test :
    retry_tx_submission
      (λ a. filled (record {
        nonce = 4;
        gas_limit = 5_000_000;
        max_fee_per_gas = 50_000_000_000;
        max_fee_per_blob_gas = 20_000_000_000;
        blobs_len = 6;
      }))
      send_hash
      first_attempt
    ≡ rejected (fees_too_high 265_728_640_000_000_000 max_fees)
unfolding retry_tx_submission submit_filled max_batch_fee
six_blobs_test = refl

-- The same block twice, then a newer one.
abbrev heads : ℕ → HeadReply
heads n = head (header (if ltb n 2 then 7 else 8))

waited_test : wait_for_new_block heads (header 7) ≡ mined (header 8)
unfolding wait_for_new_block wait_rounds
waited_test = refl

wait_for_new_block-Ends_example :
    Ends heads 7 max_retries_for_new_block (wait_for_new_block heads (header 7))
wait_for_new_block-Ends_example = wait_for_new_block-Ends heads (header 7)

-- A receipt that says that the transaction was reverted is an error of the post.
reverted_test :
    post_batch_inner
      (λ hints req.
        proposed (record { transaction_hash = 5; block_number = some 9; status = false }))
      7
      (λ txs. 60)
      false
      (record {
        sidecar_error = none;
        fees_hints = some first_attempt.fees_hints;
        hints_error = no_head;
      })
      pair
    ≡ post_failed (reverted 5 (some 9))
unfolding post_batch_inner post_generated on_verdict generate_batch
reverted_test = refl
