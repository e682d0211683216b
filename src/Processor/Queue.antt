-- ===== src/Processor/Queue.antt =====
-- The invariant of the submission queue: crates/driver/src/batch_submitter/processor.rs.
use taiko_mk.Prelude.{
  ℕ, ◌<◌, ◌≡◌, refl, subst, ◌∙◌, ◌⊎◌, inl, inr, Bool, false, Bool-cases, Option, none, some, List,
  [], ◌∷◌, ◌++◌, arith, any, All, All-append,
}
use taiko_mk.Batch.{Batch, blocks_range}
use taiko_mk.Processor.{
  BatchResult, landed, failed, BatchSubmissionRequest, BatchSubmissionCmd, submit, clear_queue,
  get_suggested_max_size, BatchSubmissionProcessor, ranges_overlap, queue_to_ranges,
  handle_batch_submission_request, on_cmd, on_cmds, start_next, on_proposal, poll_proposal,
  poll_round,
}

-- Two ranges of block numbers without a common number.
abbrev pub IsApart : ℕ × ℕ → ℕ × ℕ → Type 0
IsApart a b = (a.1 < b.0) ⊎ (b.1 < a.0)

ranges_overlap-false : (a b : ℕ × ℕ) → ranges_overlap a b ≡ false → IsApart a b
unfolding ranges_overlap
ranges_overlap-false a b h = ground arith

module _ {Tx : Type 0} where
  -- The ranges of the queued batches are pairwise apart.
  abbrev pub IsDisjoint : List (Batch Tx × ℕ) → Type 0
  IsDisjoint [] = Unit
  IsDisjoint (e ∷ es) =
      All (λ (other : Batch Tx × ℕ). IsApart (blocks_range e.0) (blocks_range other.0)) es
      × IsDisjoint es

  IsDisjoint-snoc :
      (es : List (Batch Tx × ℕ)) (b : Batch Tx) (deadline : ℕ)
      → IsDisjoint es
      → any (λ r. ranges_overlap r (blocks_range b)) (queue_to_ranges es) ≡ false
      → IsDisjoint (es ++ (b, deadline) ∷ [])
  unfolding queue_to_ranges
  IsDisjoint-snoc [] b deadline d h = (tt, tt)
  IsDisjoint-snoc (e ∷ es) b deadline d h =
      let apart : IsApart (blocks_range e.0) (blocks_range b) =
        ranges_overlap-false (blocks_range e.0) (blocks_range b) (ground arith) in
      (All-append _ es _ d.0 (apart, tt), IsDisjoint-snoc es b deadline d.1 (ground arith))

module _ {Tx Receipt Error : Type 0} where
  -- What the processor keeps.
  abbrev pub IsValid : BatchSubmissionProcessor Tx Receipt Error → Type 0
  IsValid p = IsDisjoint p.request_queue

  handle_batch_submission_request-IsValid :
      (p : BatchSubmissionProcessor Tx Receipt Error) (req : BatchSubmissionRequest Tx)
      → IsValid p
      → IsValid (handle_batch_submission_request p req)
  unfolding handle_batch_submission_request
  handle_batch_submission_request-IsValid p req v =
      elim (Bool-cases
        (any (λ r. ranges_overlap r (blocks_range req.batch)) (queue_to_ranges p.request_queue))) [
          | inl e ↦ rw e v
          | inr e ↦ rw e (IsDisjoint-snoc p.request_queue req.batch req.deadline v e)
        ]

  on_cmd-IsValid :
      (p : BatchSubmissionProcessor Tx Receipt Error) (c : BatchSubmissionCmd Tx)
      → IsValid p
      → IsValid (on_cmd p c)
  unfolding on_cmd
  on_cmd-IsValid p (submit req) v = handle_batch_submission_request-IsValid p req v
  on_cmd-IsValid p clear_queue v = tt
  on_cmd-IsValid p get_suggested_max_size v = v

  on_cmds-IsValid :
      (p : BatchSubmissionProcessor Tx Receipt Error) (cs : List (BatchSubmissionCmd Tx))
      → IsValid p
      → IsValid (on_cmds p cs)
  unfolding on_cmds
  on_cmds-IsValid p [] v = v
  on_cmds-IsValid p (c ∷ cs) v = on_cmds-IsValid (on_cmd p c) cs (on_cmd-IsValid p c v)

  start_next-IsValid :
      (o : Option (Batch Tx × ℕ)) (queue : List (Batch Tx × ℕ))
      (p : BatchSubmissionProcessor Tx Receipt Error)
      → IsDisjoint queue
      → IsValid p
      → IsValid (start_next o queue p).1
  unfolding start_next
  start_next-IsValid (some running) queue p d v = v
  start_next-IsValid none [] p d v = v
  start_next-IsValid none (b ∷ queue) p d v = d.1

module _ {Tx Receipt Error : Type 0} (matches_nonce_too_low : Error → Bool) where
  on_proposal-IsValid :
      (p : BatchSubmissionProcessor Tx Receipt Error) (r : BatchResult Receipt Error)
      → IsValid p
      → IsValid (on_proposal matches_nonce_too_low p r)
  unfolding on_proposal
  on_proposal-IsValid p (landed receipt) v = v
  on_proposal-IsValid p (failed e) v = elim (Bool-cases (matches_nonce_too_low e)) [
    | inl h ↦ rw h v
    | inr h ↦ rw h tt
  ]

  poll_proposal-IsValid :
      (o : Option (Batch Tx × ℕ)) (outcome : Option (BatchResult Receipt Error))
      (p : BatchSubmissionProcessor Tx Receipt Error)
      → IsValid p
      → IsValid (poll_proposal matches_nonce_too_low o outcome p).1
  unfolding poll_proposal
  poll_proposal-IsValid (some running) (some res) p v =
      on_proposal-IsValid (record p { pending_proposal = none }) res v
  poll_proposal-IsValid (some running) none p v = v
  poll_proposal-IsValid none outcome p v = v

  -- Whatever arrives in a round, the queued batches still cover ranges of blocks that are pairwise
  -- apart, if they did: no two of them propose the same block.
  pub poll_round-IsValid :
      (outcome : Option (BatchResult Receipt Error)) (cmds : List (BatchSubmissionCmd Tx))
      (p : BatchSubmissionProcessor Tx Receipt Error)
      → IsValid p
      → IsValid (poll_round matches_nonce_too_low outcome cmds p).1
  unfolding poll_round
  poll_round-IsValid outcome cmds p v =
      let (finished, p1) = poll_proposal matches_nonce_too_low p.pending_proposal outcome p in
      let v1 = poll_proposal-IsValid p.pending_proposal outcome p v in
      on_cmds-IsValid _ cmds (start_next-IsValid p1.pending_proposal p1.request_queue p1 v1 v1)

  poll_proposal-idle :
      (o : Option (Batch Tx × ℕ)) (outcome : Option (BatchResult Receipt Error))
      (p : BatchSubmissionProcessor Tx Receipt Error)
      → (poll_proposal matches_nonce_too_low o outcome p).0 ≡ false
      → ((o ≡ none) ⊎ (outcome ≡ none)) × ((poll_proposal matches_nonce_too_low o outcome p).1 ≡ p)
  unfolding poll_proposal
  poll_proposal-idle (some running) (some res) p h = ground arith
  poll_proposal-idle (some running) none p h = (inr refl, refl)
  poll_proposal-idle none outcome p h = (inl refl, refl)

  start_next-idle :
      (o : Option (Batch Tx × ℕ)) (queue : List (Batch Tx × ℕ))
      (p : BatchSubmissionProcessor Tx Receipt Error)
      → (start_next o queue p).0 ≡ false
      → ((queue ≡ []) ⊎ ((b : Batch Tx × ℕ) × (o ≡ some b))) × ((start_next o queue p).1 ≡ p)
  unfolding start_next
  start_next-idle (some running) queue p h = (inr (running, refl), refl)
  start_next-idle none [] p h = (inl refl, refl)
  start_next-idle none (b ∷ queue) p h = ground arith

  -- The loop of `poll` ends only where nothing is left to do: before a round without progress there
  -- was no command, no proposal with an outcome, and no queued batch that could start, and the
  -- round left the state as it was.
  pub poll_round-idle :
      (outcome : Option (BatchResult Receipt Error)) (cmds : List (BatchSubmissionCmd Tx))
      (p : BatchSubmissionProcessor Tx Receipt Error)
      → (poll_round matches_nonce_too_low outcome cmds p).0 ≡ false
      → (cmds ≡ [])
        × ((p.pending_proposal ≡ none) ⊎ (outcome ≡ none))
        × ((p.request_queue ≡ []) ⊎ ((b : Batch Tx × ℕ) × (p.pending_proposal ≡ some b)))
        × ((poll_round matches_nonce_too_low outcome cmds p).1 ≡ p)
  unfolding poll_round on_cmds
  poll_round-idle outcome [] p h =
      let (finished, p1) = poll_proposal matches_nonce_too_low p.pending_proposal outcome p in
      let (quiet, same) = poll_proposal-idle p.pending_proposal outcome p (ground arith) in
      let (waits, same') = start_next-idle p1.pending_proposal p1.request_queue p1 (ground arith) in
      (
        refl,
        quiet,
        subst
            (λ (q : BatchSubmissionProcessor Tx Receipt Error).
              (q.request_queue ≡ []) ⊎ ((b : Batch Tx × ℕ) × (q.pending_proposal ≡ some b)))
            same waits,
        same' ∙ same,
      )
  poll_round-idle outcome (c ∷ cmds) p h = ground arith
