-- ===== src/Driver/Sending.antt =====
-- What handlers of crates/driver/src/driver.rs send to the batch submitter.
use mathlib.Core.List.{append_assoc, append-nil}
use taiko_mk.Prelude.{
  ℕ, ◌≡◌, refl, sym, ap, ◌∙◌, inl, inr, true, Bool-cases, Option, Option-cases, List, [], ◌∷◌, ◌++◌,
  is_nil, arith,
}
use taiko_mk.Batch.{PreconfirmedBlock, Batch, take_and_reset, change_anchor}
use taiko_mk.Batch
use taiko_mk.Batch.Adding.{all_blocks}
use taiko_mk.Processor.{
  BatchSubmissionCmd, submit, clear_queue, get_suggested_max_size, BatchSubmissionRequest,
  trigger_batch_submission,
}
use taiko_mk.Driver.{Driver, wait_for_builder, propose, submit_local_outstanding_batch}
use taiko_mk.Driver.Proposals.{requests}

module _ {Tx : Type 0} where
  -- The blocks of the batches that the commands submit.
  abbrev pub blocks_sent : List (BatchSubmissionCmd Tx) → List (PreconfirmedBlock Tx)
  blocks_sent [] = []
  blocks_sent (submit req ∷ cs) = req.batch.blocks ++ blocks_sent cs
  blocks_sent (clear_queue ∷ cs) = blocks_sent cs
  blocks_sent (get_suggested_max_size ∷ cs) = blocks_sent cs

  blocks_sent-append :
      (xs ys : List (BatchSubmissionCmd Tx))
      → blocks_sent (xs ++ ys) ≡ blocks_sent xs ++ blocks_sent ys
  blocks_sent-append [] ys = refl
  blocks_sent-append (submit req ∷ cs) ys =
      ap (req.batch.blocks ++◌) (blocks_sent-append cs ys)
      ∙ sym (append_assoc req.batch.blocks (blocks_sent cs) (blocks_sent ys))
  blocks_sent-append (clear_queue ∷ cs) ys = blocks_sent-append cs ys
  blocks_sent-append (get_suggested_max_size ∷ cs) ys = blocks_sent-append cs ys

  nil_of : (xs : List (PreconfirmedBlock Tx)) → is_nil xs ≡ true → xs ≡ []
  nil_of [] e = refl
  nil_of (x ∷ xs) e = absurd (ground arith)

  pub requests-blocks_sent :
      (deadline : ℕ) (bs : List (Batch Tx)) → blocks_sent (requests deadline bs) ≡ all_blocks bs
  requests-blocks_sent deadline [] = refl
  requests-blocks_sent deadline (b ∷ bs) = elim (Bool-cases (is_nil b.blocks)) [
    | inl e ↦ rw (e, nil_of b.blocks e) (requests-blocks_sent deadline bs)
    | inr e ↦ rw e (ap (b.blocks ++◌) (requests-blocks_sent deadline bs))
  ]

  triggered-blocks_sent :
      (req : BatchSubmissionRequest Tx)
      → blocks_sent (trigger_batch_submission req) ≡ req.batch.blocks
  unfolding trigger_batch_submission Batch.is_empty
  triggered-blocks_sent req = elim (Bool-cases (is_nil req.batch.blocks)) [
    | inl e ↦ rw (e, nil_of req.batch.blocks e) refl
    | inr e ↦ rw e (append-nil req.batch.blocks)
  ]

  -- What was sent between two states, with these blocks.
  abbrev pub Sends : Driver Tx → Driver Tx → List (PreconfirmedBlock Tx) → Type 0
  Sends d s blocks =
      (new : List (BatchSubmissionCmd Tx)) × (s.sent ≡ d.sent ++ new) × (blocks_sent new ≡ blocks)

  pub Sends-then :
      (d s t : Driver Tx) (xs ys : List (PreconfirmedBlock Tx))
      → Sends d s xs
      → Sends s t ys
      → Sends d t (xs ++ ys)
  Sends-then d s t xs ys (new, e, b) (new', e', b') = (
    new ++ new',
    e' ∙ ap (◌++ new') e ∙ append_assoc d.sent new new',
    blocks_sent-append new new' ∙ ap (◌++ blocks_sent new') b ∙ ap (xs ++◌) b',
  )

  pub Sends-nothing : (d s : Driver Tx) → s.sent ≡ d.sent → Sends d s []
  Sends-nothing d s e = ([], e ∙ sym (append-nil d.sent), refl)

  -- The outstanding batch is submitted whole, and is empty afterwards.
  pub submit_local-Sends :
      (d : Driver Tx) (deadline : ℕ) (idle : Option ℕ)
      → let s = submit_local_outstanding_batch d deadline idle in
        Sends d s d.outstanding_batch.blocks
        × (s.outstanding_batch.blocks ≡ [])
        × (s.status ≡ d.status)
  unfolding submit_local_outstanding_batch propose take_and_reset wait_for_builder
  submit_local-Sends d deadline idle = elim (Option-cases d.finalizing) [
    | inl e ↦ rw e ((_, refl, triggered-blocks_sent _), refl, refl)
    | inr (n, e) ↦ rw e ((_, refl, triggered-blocks_sent _), refl, refl)
  ]

  pub submit_local-lookahead :
      (d : Driver Tx) (deadline : ℕ) (idle : Option ℕ)
      → (submit_local_outstanding_batch d deadline idle).lookahead ≡ d.lookahead
  unfolding submit_local_outstanding_batch propose take_and_reset wait_for_builder
  submit_local-lookahead d deadline idle = elim (Option-cases d.finalizing) [
    | inl e ↦ rw e refl
    | inr (n, e) ↦ rw e refl
  ]
