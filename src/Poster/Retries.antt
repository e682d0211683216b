-- ===== src/Poster/Retries.antt =====
-- The retry loop: `propose_batch_with_retries` in crates/driver/src/batch_submitter/poster.rs.
use taiko_mk.Prelude.{
  ℕ, ◌<◌, ◌≡◌, ◌≢◌, refl, inl, inr, Bool-cases, Option, none, some, List, [], ◌∷◌, ◌++◌, arith, ltb,
}
use taiko_mk.Fees.{bump_base_fee}
use taiko_mk.Errors.{
  error_resp, other_rpc_error, RetryBatchSubmissionError, rpc_error, taiko_inbox, unknown_selector,
  fees_too_high, to_lowercase, contains, extract_base_fee_from_err, blob_gas_too_low_error,
  max_fee_per_gas_too_low_error,
}
use taiko_mk.Poster.{
  Attempt, Submission, submitted, rejected, Waited, receipt, no_receipt, wait_failed, NewHints,
  new_hints, no_hints, Round, Verdict, again, proposed, gave_up, retry_with_new_hints, on_base_fee,
  on_error, on_waited, on_submission, retry_tx_submission, retry_round, retry_rounds, first_or,
}

-- A value that was fixed once stays; one that was not fixed becomes what the round reports, if it does.
abbrev pub IsFixed : Option ℕ → Option ℕ → Option ℕ → Type 0
IsFixed (some old) reported after = after ≡ some old
IsFixed none (some value) after = after ≡ some value
IsFixed none none after = after ≡ none

abbrev pub reported_nonce : Submission → Option ℕ
reported_nonce (submitted tx_hash nonce gas_limit) = some nonce
reported_nonce (rejected e) = none

abbrev pub reported_limit : Submission → Option ℕ
reported_limit (submitted tx_hash nonce gas_limit) = some gas_limit
reported_limit (rejected e) = none

-- What the next attempt keeps of the last one, if there is a next one.
abbrev pub Keeps : {Receipt : Type 0} → Submission → Attempt → Verdict Receipt → Type 0
Keeps s before (again a) =
    IsFixed before.nonce (reported_nonce s) a.nonce
    × IsFixed before.gas_limit (reported_limit s) a.gas_limit
Keeps s before (proposed r) = Unit
Keeps s before (gave_up e) = Unit

IsFixed-before : (old : Option ℕ) → IsFixed old none old
IsFixed-before none = refl
IsFixed-before (some n) = refl

first_or-IsFixed : (old : Option ℕ) (n : ℕ) → IsFixed old (some n) (first_or old n)
first_or-IsFixed none n = refl
first_or-IsFixed (some m) n = refl

kept :
    (e : RetryBatchSubmissionError) (a : Attempt)
    → IsFixed a.nonce none a.nonce × IsFixed a.gas_limit none a.gas_limit
kept e a = (IsFixed-before a.nonce, IsFixed-before a.gas_limit)

abbrev pub IsSubmitted : Submission → Type 0
IsSubmitted (submitted tx_hash nonce gas_limit) = Unit
IsSubmitted (rejected e) = ⊥

retry_with_new_hints-Keeps :
    (Receipt : Type 0) (e : RetryBatchSubmissionError) (hints : NewHints) (a : Attempt)
    → Keeps (rejected e) a (retry_with_new_hints {Receipt = Receipt} hints a)
unfolding retry_with_new_hints
retry_with_new_hints-Keeps Receipt e (new_hints h) a = kept e a
retry_with_new_hints-Keeps Receipt e (no_hints f) a = tt

on_base_fee-Keeps :
    (Receipt : Type 0) (e : RetryBatchSubmissionError) (hints : NewHints) (o : Option ℕ)
    (a : Attempt)
    → Keeps (rejected e) a (on_base_fee {Receipt = Receipt} hints o a)
unfolding on_base_fee
on_base_fee-Keeps Receipt e hints none a = retry_with_new_hints-Keeps Receipt e hints a
on_base_fee-Keeps Receipt e hints (some fee) a =
    elim (Bool-cases (bump_base_fee a.fees_hints fee).1) [
      | inl b ↦ rw b (kept e a)
      | inr b ↦ rw b (retry_with_new_hints-Keeps Receipt e hints a)
    ]

on_error-Keeps :
    (Receipt : Type 0) (hints : NewHints) (e : RetryBatchSubmissionError) (a : Attempt)
    → Keeps (rejected e) a (on_error {Receipt = Receipt} hints e a)
unfolding on_error
on_error-Keeps Receipt hints (rpc_error (error_resp message)) a =
    let msg = to_lowercase message in
    let e : RetryBatchSubmissionError = rpc_error (error_resp message) in
    elim (Bool-cases (contains msg blob_gas_too_low_error)) [
      | inl b ↦ rw b (kept e a)
      | inr b ↦ rw b (elim (Bool-cases (contains msg max_fee_per_gas_too_low_error)) [
        | inl f ↦ rw f (on_base_fee-Keeps Receipt e hints (extract_base_fee_from_err msg) a)
        | inr f ↦ rw f tt
      ])
    ]
on_error-Keeps Receipt hints (rpc_error other_rpc_error) a = tt
on_error-Keeps Receipt hints (taiko_inbox e) a = tt
on_error-Keeps Receipt hints unknown_selector a = tt
on_error-Keeps Receipt hints (fees_too_high got max) a = tt

module _ {Receipt : Type 0} where
  on_waited-Keeps :
      (deadline slot tx_hash nonce gas_limit : ℕ) (w : Waited Receipt) (a : Attempt)
      → Keeps (submitted tx_hash nonce gas_limit) a (
          on_waited deadline slot w (record a {
            nonce = first_or a.nonce nonce;
            gas_limit = first_or a.gas_limit gas_limit;
          }))
  unfolding on_waited
  on_waited-Keeps deadline slot h nonce gas_limit (receipt r) a = tt
  on_waited-Keeps deadline slot h nonce gas_limit (wait_failed e) a = tt
  on_waited-Keeps deadline slot h nonce gas_limit no_receipt a =
      elim (Bool-cases (ltb deadline slot)) [
        | inl e ↦ rw e tt
        | inr e ↦ rw e (first_or-IsFixed a.nonce nonce, first_or-IsFixed a.gas_limit gas_limit)
      ]

  on_submission-Keeps :
      (deadline : ℕ) (r : Round Receipt) (s : Submission) (a : Attempt)
      → Keeps s a (on_submission deadline r s a)
  unfolding on_submission
  on_submission-Keeps deadline r (submitted tx_hash nonce gas_limit) a =
      on_waited-Keeps deadline r.current_slot tx_hash nonce gas_limit r.waited a
  on_submission-Keeps deadline r (rejected e) a = on_error-Keeps Receipt r.hints e a

  -- The first submission fixes the nonce and the gas limit of every later attempt: whatever a round
  -- ends with, a next attempt has the nonce and the limit that this one had; where it had none, it has
  -- those that the round's submission reports, and none if nothing was submitted.
  pub retry_round-Keeps :
      (deadline : ℕ) (r : Round Receipt) (a : Attempt)
      → Keeps (retry_tx_submission r.fill r.send a) a (retry_round deadline r a)
  unfolding retry_round
  retry_round-Keeps deadline r a =
      on_submission-Keeps deadline r (retry_tx_submission r.fill r.send a) a

  on_waited-ends :
      (deadline slot : ℕ) (w : Waited Receipt) (a next : Attempt)
      → deadline < slot
      → on_waited deadline slot w a ≢ again next
  unfolding on_waited
  on_waited-ends deadline slot (receipt r) a next late = ground arith
  on_waited-ends deadline slot (wait_failed e) a next late = ground arith
  on_waited-ends deadline slot no_receipt a next late = ground arith

  on_submission-ends :
      (deadline : ℕ) (r : Round Receipt) (s : Submission) (a next : Attempt)
      → deadline < r.current_slot
      → IsSubmitted s
      → on_submission deadline r s a ≢ again next
  unfolding on_submission on_waited
  on_submission-ends deadline r (submitted tx_hash nonce gas_limit) a next late sub =
      on_waited-ends deadline r.current_slot r.waited _ next late
  on_submission-ends deadline r (rejected e) a next late sub = elim sub [ ]

  loop-ends :
      (deadline : ℕ) (rs : List (Round Receipt)) (v : Verdict Receipt) (next : Attempt)
      → ((a : Attempt) → v ≡ again a → retry_rounds deadline rs a ≢ again next)
      → elim v [
        | again a ↦ retry_rounds deadline rs a
        | proposed found ↦ proposed found
        | gave_up e ↦ gave_up e
      ]
        ≢ again next
  loop-ends deadline rs (again a) next h = h a refl
  loop-ends deadline rs (proposed found) next h = ground arith
  loop-ends deadline rs (gave_up e) next h = ground arith

  -- The loop ends at the deadline: it does not run past a round in which the transaction was sent
  -- and the slot after the wait is later than the deadline.
  pub retry_rounds-ends :
      (deadline : ℕ) (before : List (Round Receipt)) (r : Round Receipt)
      (after : List (Round Receipt)) (a next : Attempt)
      → deadline < r.current_slot
      → ((b : Attempt) → IsSubmitted (retry_tx_submission r.fill r.send b))
      → retry_rounds deadline (before ++ r ∷ after) a ≢ again next
  unfolding retry_rounds retry_round
  retry_rounds-ends deadline [] r after a next late sub =
      loop-ends deadline after (retry_round deadline r a) next (λ b e.
        absurd
          (on_submission-ends deadline r (retry_tx_submission r.fill r.send a) a b late (sub a) e))
  retry_rounds-ends deadline (q ∷ before) r after a next late sub =
      loop-ends deadline (before ++ r ∷ after) (retry_round deadline q a) next
        (λ b e. retry_rounds-ends deadline before r after b next late sub)
