-- ===== src/Processor.antt =====
-- The queue of batches to propose: crates/driver/src/batch_submitter/processor.rs and mod.rs. The
-- channels are lists of what was sent; a proposal that runs is the batch and deadline it was
-- started with, and its outcome is an input of the round of `poll` that sees it. Receipts and
-- proposal errors are parameters, with the test for a nonce that is too low. Logs and metrics are
-- left out.
pub mod Queue
pub mod Throttle
mod Tests
use taiko_mk.Prelude.{
  ℕ, zero, suc, ◌+◌, ◌-◌, ◌/◌, ◌≤◌, Bool, true, false, ◌&&◌, ◌||◌, Option, none, some, List, [],
  ◌∷◌, ◌++◌, map, leb, if◌then◌else◌, length, any, saturating_sub,
}
use taiko_mk.Batch.{Batch, blocks_range}
use taiko_mk.Batch

pub data BatchResult (Receipt Error : Type 0) : Type 0 where
  landed : Receipt → BatchResult Receipt Error
  failed : Error → BatchResult Receipt Error

pub record BatchSubmissionRequest (Tx : Type 0) : Type 0 where
  pub batch : Batch Tx
  pub deadline : ℕ

-- The sender that a size request carries is left out: the answer is in `suggestions`.
pub data BatchSubmissionCmd (Tx : Type 0) : Type 0 where
  submit : BatchSubmissionRequest Tx → BatchSubmissionCmd Tx
  clear_queue : BatchSubmissionCmd Tx
  get_suggested_max_size : BatchSubmissionCmd Tx

pub record BatchSubmissionProcessor (Tx Receipt Error : Type 0) : Type 0 where
  pub request_queue : List (Batch Tx × ℕ)
  pub pending_proposal : Option (Batch Tx × ℕ)
  pub results : List (BatchResult Receipt Error)
  pub suggestions : List ℕ
  pub max_block_size : ℕ
  pub da_throttling_factor : ℕ

abbrev pub da_throttle_threshold : ℕ
da_throttle_threshold = 1

unfoldable pub ranges_overlap : ℕ × ℕ → ℕ × ℕ → Bool
ranges_overlap a b = leb a.0 b.1 && leb b.0 a.1

-- The loop of `calc_max_next_block_size`, on the number of its rounds.
throttle : ℕ → ℕ → ℕ → ℕ
throttle factor zero size = size
throttle factor (suc n) size = throttle factor n (saturating_sub size (size / factor))

module _ {Tx : Type 0} where
  unfoldable pub queue_to_ranges : List (Batch Tx × ℕ) → List (ℕ × ℕ)
  queue_to_ranges queue = map (λ (e : Batch Tx × ℕ). blocks_range e.0) queue

  -- `L1BatchSubmitter::trigger_batch_submission`, as the commands that it sends.
  unfoldable pub trigger_batch_submission : BatchSubmissionRequest Tx → List (BatchSubmissionCmd Tx)
  trigger_batch_submission req = if Batch.is_empty req.batch then [] else submit req ∷ []

module _ {Tx Receipt Error : Type 0} where
  unfoldable pub new : ℕ → ℕ → BatchSubmissionProcessor Tx Receipt Error
  new max_block_size da_throttling_factor = record {
    request_queue = [];
    pending_proposal = none;
    results = [];
    suggestions = [];
    max_block_size = max_block_size;
    da_throttling_factor = da_throttling_factor;
  }

  pub calc_max_next_block_size : BatchSubmissionProcessor Tx Receipt Error → ℕ
  calc_max_next_block_size p =
      let queue_size = length p.request_queue in
      if leb da_throttle_threshold queue_size
      then throttle p.da_throttling_factor queue_size p.max_block_size
      else p.max_block_size

  unfoldable pub handle_batch_submission_request :
      BatchSubmissionProcessor Tx Receipt Error
      → BatchSubmissionRequest Tx
      → BatchSubmissionProcessor Tx Receipt Error
  handle_batch_submission_request p req =
      if any (λ r. ranges_overlap r (blocks_range req.batch)) (queue_to_ranges p.request_queue)
      then p
      else record p { request_queue = p.request_queue ++ (req.batch, req.deadline) ∷ [] }

  unfoldable pub on_cmd :
      BatchSubmissionProcessor Tx Receipt Error
      → BatchSubmissionCmd Tx
      → BatchSubmissionProcessor Tx Receipt Error
  on_cmd p (submit req) = handle_batch_submission_request p req
  on_cmd p clear_queue = record p { request_queue = [] }
  on_cmd p get_suggested_max_size = record p {
    suggestions = p.suggestions ++ calc_max_next_block_size p ∷ [];
  }

  -- The loop over the commands that have arrived.
  on_cmds :
      BatchSubmissionProcessor Tx Receipt Error
      → List (BatchSubmissionCmd Tx)
      → BatchSubmissionProcessor Tx Receipt Error
  on_cmds p [] = p
  on_cmds p (c ∷ cs) = on_cmds (on_cmd p c) cs

  -- The batch in front of the queue is started when no proposal runs.
  start_next :
      Option (Batch Tx × ℕ)
      → List (Batch Tx × ℕ)
      → BatchSubmissionProcessor Tx Receipt Error
      → Bool × BatchSubmissionProcessor Tx Receipt Error
  start_next (some running) queue p = (false, p)
  start_next none [] p = (false, p)
  start_next none (e ∷ queue) p =
      (true, record p { request_queue = queue; pending_proposal = some e })

module _ {Tx Receipt Error : Type 0} (matches_nonce_too_low : Error → Bool) where
  unfoldable pub on_proposal :
      BatchSubmissionProcessor Tx Receipt Error
      → BatchResult Receipt Error
      → BatchSubmissionProcessor Tx Receipt Error
  on_proposal p (landed receipt) = record p { results = p.results ++ landed receipt ∷ [] }
  on_proposal p (failed e) =
      if matches_nonce_too_low e
      then p
      else record p { request_queue = []; results = p.results ++ failed e ∷ [] }

  -- The first part of a round: the running proposal, when it is ready with an outcome.
  poll_proposal :
      Option (Batch Tx × ℕ)
      → Option (BatchResult Receipt Error)
      → BatchSubmissionProcessor Tx Receipt Error
      → Bool × BatchSubmissionProcessor Tx Receipt Error
  poll_proposal (some running) (some res) p =
      (true, on_proposal (record p { pending_proposal = none }) res)
  poll_proposal (some running) none p = (false, p)
  poll_proposal none outcome p = (false, p)

  -- One round of the loop of `poll`: whether it made progress, and the state after it. `outcome` is
  -- the result of the proposal when it is ready, `cmds` are the commands that have arrived.
  pub poll_round :
      Option (BatchResult Receipt Error)
      → List (BatchSubmissionCmd Tx)
      → BatchSubmissionProcessor Tx Receipt Error
      → Bool × BatchSubmissionProcessor Tx Receipt Error
  poll_round outcome cmds p =
      let (finished, p1) = poll_proposal p.pending_proposal outcome p in
      let (started, p2) = start_next p1.pending_proposal p1.request_queue p1 in
      let commanded = leb 1 (length cmds) in (finished || started || commanded, on_cmds p2 cmds)
