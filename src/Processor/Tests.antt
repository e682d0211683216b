-- ===== src/Processor/Tests.antt =====
-- Examples for crates/driver/src/batch_submitter/processor.rs. Receipts are hashes.
use taiko_mk.Prelude.{ℕ, some, [], ◌∷◌}
use taiko_mk.Samples.{pair, block}
use taiko_mk.Batch.{Batch}
use taiko_mk.Errors.{BatchProposalError, matches_nonce_too_low}
use taiko_mk.Processor.{BatchSubmissionProcessor, submit, landed, poll_round}
use taiko_mk.Processor.Queue.{IsValid, poll_round-IsValid}

abbrev later_batch : Batch ℕ
later_batch = record pair { blocks = block 12 7 ∷ block 13 7 ∷ [] }

-- One batch runs and another waits.
abbrev busy : BatchSubmissionProcessor ℕ ℕ BatchProposalError
busy = record {
  request_queue = (later_batch, 40) ∷ [];
  pending_proposal = some (pair, 40);
  results = [];
  suggestions = [];
  max_block_size = 1000;
  da_throttling_factor = 10;
}

poll_round-IsValid_example :
    IsValid
      (poll_round matches_nonce_too_low
        (some (landed 1))
        (submit (record { batch = later_batch; deadline = 41 }) ∷ [])
        busy).1
poll_round-IsValid_example =
    poll_round-IsValid matches_nonce_too_low (some (landed 1))
      (submit (record { batch = later_batch; deadline = 41 }) ∷ []) busy (tt, tt)
