-- ===== src/Poster/Posting/Waiting.antt =====
-- How the wait for a block in crates/driver/src/batch_submitter/poster.rs ends.
use taiko_mk.Prelude.{
  ℕ, zero, suc, ◌+◌, ◌≤◌, ◌<◌, ◌≡◌, refl, ◌⊎◌, inl, inr, arith, ltb, ltb→lt, Bool-cases,
}
use taiko_mk.Batch.{Header}
use taiko_mk.Errors.{BatchProposalError, no_head}
use taiko_mk.Poster.Posting.{
  max_retries_for_new_block, HeadReply, query_error, no_block, head, NewHead, mined, not_mined,
  wait_rounds, wait_for_new_block,
}

reply_cases :
    (r : HeadReply)
    → ((e : BatchProposalError) × (r ≡ query_error e))
      ⊎ ((r ≡ no_block) ⊎ ((h : Header) × (r ≡ head h)))
reply_cases (query_error e) = inl (e, refl)
reply_cases no_block = inr (inl refl)
reply_cases (head h) = inr (inr (h, refl))

module _ (replies : ℕ → HeadReply) (latest : ℕ) where
  -- The reply to tick `i` shows a block that is not newer.
  abbrev pub IsStale : ℕ → Type 0
  IsStale i = (h : Header) × (replies i ≡ head h) × (h.number ≤ latest)

  -- The end of the wait, after at most `last` ticks: the first reply that is not stale decides; without
  -- one there is no head.
  pub data Ends (last : ℕ) : NewHead → Type 0 where
    newer :
        (i : ℕ) (h : Header)
        → i < last
        → ((j : ℕ) → j < i → IsStale j)
        → replies i ≡ head h
        → latest < h.number
        → Ends last (mined h)
    failed :
        (i : ℕ) (e : BatchProposalError)
        → i < last
        → ((j : ℕ) → j < i → IsStale j)
        → replies i ≡ query_error e
        → Ends last (not_mined e)
    missing :
        (i : ℕ)
        → i < last
        → ((j : ℕ) → j < i → IsStale j)
        → replies i ≡ no_block
        → Ends last (not_mined no_head)
    timed_out : ((j : ℕ) → j < last → IsStale j) → Ends last (not_mined no_head)

  one_more :
      (tick : ℕ)
      → ((j : ℕ) → j < tick → IsStale j)
      → IsStale tick
      → (j : ℕ) → j < suc tick
      → IsStale j
  one_more tick before now j h = elim (lt_or_eq j tick h) [ inl k ↦ before j k | inr e ↦ rw e now ]
    where
      lt_or_eq : (a b : ℕ) → a < suc b → (a < b) ⊎ (a ≡ b)
      lt_or_eq a b k = omega arith

  wait_rounds-Ends :
      (left tick last : ℕ)
      → left + tick ≡ last
      → ((j : ℕ) → j < tick → IsStale j)
      → Ends last (wait_rounds left replies tick latest)
  unfolding wait_rounds
  wait_rounds-Ends zero tick last e before = timed_out λ j h. before j (omega arith)
  wait_rounds-Ends (suc left) tick last e before = elim (reply_cases (replies tick)) [
    | inl (f, q) ↦ rw (wait_rounds, q) (failed tick f (omega arith) before q)
    | inr (inl q) ↦ rw (wait_rounds, q) (missing tick (omega arith) before q)
    | inr (inr (h, q)) ↦ elim (Bool-cases (ltb latest h.number)) [
      | inl b ↦ rw (wait_rounds, q, b) (newer tick h (omega arith) before q (ltb→lt _ _ b))
      | inr b ↦
          rw (wait_rounds, q, b)
            (wait_rounds-Ends left (suc tick) last (omega arith)
              (one_more tick before (h, q, ground arith)))
    ]
  ]

-- The wait for a block ends after at most 32 ticks of the clock. The first reply that shows no stale
-- block decides it: a newer block is returned, and a failed query or a missing block is an error. When
-- all replies are stale there is no head.
pub wait_for_new_block-Ends :
    (replies : ℕ → HeadReply) (latest_head : Header)
    → Ends replies latest_head.number max_retries_for_new_block
        (wait_for_new_block replies latest_head)
unfolding wait_for_new_block
wait_for_new_block-Ends replies latest_head =
    wait_rounds-Ends replies latest_head.number max_retries_for_new_block 0
      max_retries_for_new_block (omega arith) (λ j h. absurd (omega arith))
