-- ===== src/Poster/Fees.antt =====
-- The cap on fees: `max_batch_fee` in crates/driver/src/batch_submitter/poster.rs.
use taiko_mk.Prelude.{
  ℕ, Bool, if◌then◌else◌, zero, suc, ◌+◌, ◌*◌, ◌≤◌, ◌<◌, ◌≡◌, refl, arith, inl, inr, ltb, leb,
  leb→le, subst, Bool-cases, min,
}
use taiko_mk.Fees.{u128_max}
use taiko_mk.Errors.{fees_too_high}
use taiko_mk.Poster.{
  Envelope, next_gas_limit, max_batch_fee, max_fees, min_gas_limit, bytes_per_blob, Attempt, Filled,
  filled, not_filled, Sent, sent, not_sent, submitted, rejected, submit_filled, finish_submission,
  retry_tx_submission,
}

-- A product with a capped factor, capped itself, is the product where it is below the cap.
capped_product :
    (price used cap : ℕ)
    → min (price * min used cap) cap < cap
    → price * used ≡ min (price * min used cap) cap
capped_product zero used cap lt = omega arith
capped_product (suc p) used cap lt = elim (Bool-cases (leb used cap)) [
  | inl e ↦
      let le : min used cap ≡ used = omega (arith, leb→le used cap e) in
      let small = subst (λ u. min (suc p * u) cap < cap) le lt in rw le (omega arith)
  | inr e ↦
      let gt : min used cap ≡ cap = ground arith in
      let small = subst (λ u. min (suc p * u) cap < cap) gt lt in
      let no : cap ≤ suc p * cap = omega arith in omega arith
]

-- The fees that the transaction can cost at most, without a cap on the sums and products.
abbrev pub uncapped_fee : Envelope → ℕ
uncapped_fee tx =
    tx.max_fee_per_gas * tx.gas_limit + tx.max_fee_per_blob_gas * (tx.blobs_len * bytes_per_blob)

max_batch_fee-uncapped_fee :
    (tx : Envelope) → max_batch_fee tx ≤ max_fees → uncapped_fee tx ≤ max_fees
unfolding max_batch_fee
max_batch_fee-uncapped_fee tx h =
    let used = tx.blobs_len * bytes_per_blob in
    let same = capped_product tx.max_fee_per_blob_gas used u128_max (omega arith) in
    omega (arith, same)

finish_submission-submitted :
    (nonce gas_limit : ℕ) (s : Sent) (tx_hash n g : ℕ)
    → finish_submission nonce gas_limit s ≡ submitted tx_hash n g
    → (s ≡ sent tx_hash) × (n ≡ nonce) × (g ≡ gas_limit)
unfolding finish_submission
finish_submission-submitted nonce gas_limit (sent h) tx_hash n g e = ground arith
finish_submission-submitted nonce gas_limit (not_sent x) tx_hash n g e = ground arith

submit_filled-submitted :
    (send : Envelope → Sent) (f : Filled) (tx_hash nonce gas_limit : ℕ)
    → submit_filled send f ≡ submitted tx_hash nonce gas_limit
    → (tx : Envelope) × (f ≡ filled tx)
      × (send tx ≡ sent tx_hash)
      × (nonce ≡ tx.nonce)
      × (gas_limit ≡ min (tx.gas_limit * 2) min_gas_limit)
      × (uncapped_fee tx ≤ max_fees)
unfolding submit_filled
submit_filled-submitted send (not_filled x) tx_hash nonce gas_limit e = ground arith
submit_filled-submitted send (filled tx) tx_hash nonce gas_limit e =
    elim (Bool-cases (ltb max_fees (max_batch_fee tx))) [
      | inl over ↦ ground arith
      | inr under ↦
          let done : finish_submission tx.nonce (next_gas_limit tx) (send tx)
              ≡ submitted tx_hash nonce gas_limit =
            subst
              (λ (c : Bool).
                (if c
                  then rejected (fees_too_high (max_batch_fee tx) max_fees)
                  else finish_submission tx.nonce (next_gas_limit tx) (send tx))
                ≡ submitted tx_hash nonce gas_limit)
              under e in
          let (accepted, same, limit) =
            finish_submission-submitted tx.nonce (next_gas_limit tx) (send tx) tx_hash nonce
              gas_limit done in
          (tx, refl, accepted, same, omega arith, max_batch_fee-uncapped_fee tx (ground arith))
    ]

-- A transaction is sent only with fees within the maximum: not just the capped sum, which the code
-- compares, but the true one. What is returned for the next attempts is the nonce of the transaction
-- sent, and twice its gas limit but at most the minimum gas limit.
pub retry_tx_submission_lem :
    (fill : Attempt → Filled) (send : Envelope → Sent) (a : Attempt) (tx_hash nonce gas_limit : ℕ)
    → retry_tx_submission fill send a ≡ submitted tx_hash nonce gas_limit
    → (tx : Envelope) × (fill a ≡ filled tx)
      × (send tx ≡ sent tx_hash)
      × (nonce ≡ tx.nonce)
      × (gas_limit ≡ min (tx.gas_limit * 2) min_gas_limit)
      × (uncapped_fee tx ≤ max_fees)
unfolding retry_tx_submission
retry_tx_submission_lem fill send a tx_hash nonce gas_limit e =
    submit_filled-submitted send (fill a) tx_hash nonce gas_limit e
