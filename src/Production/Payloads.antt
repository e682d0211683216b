-- ===== src/Production/Payloads.antt =====
-- What the block builder of crates/driver/src/block_builder/mod.rs builds, and how it frees its state.
use taiko_mk.Prelude.{
  ℕ, ◌≡◌, refl, arith, Bool, true, false, not, ◌||◌, Option, none, some, List, [], ◌∷◌, is_nil,
  Option-cases, inl, inr, add64, ◌⊎◌, ◌%◌, ◌^◌,
}
use taiko_mk.Batch.{Header, PreconfirmedBlock}
use taiko_mk.Builder.{BuilderState, is_finalizing, set_finalizing, drop_response}
use taiko_mk.Production.{
  BuilderConfig, BuildPayloadRequest, BlockPayload, Built, build_error, skipped, built,
  TxPoolContentParams, tx_list_of, fetch_tx_lists, first_list, base_fee_of, payload_of,
  build_payload, trigger_finalize_block, finalized, take_response,
}

-- Something asks for a block even if it is empty.
abbrev pub wants_block : {Tx : Type 0} → BuilderConfig → BuildPayloadRequest Tx → Bool
wants_block cfg req = req.force_empty || req.is_last || cfg.enable_building_empty_blocks

module _ {Tx : Type 0} (cfg : BuilderConfig)
    (tx_pool : TxPoolContentParams → Option (Option (List (List Tx))))
    (get_base_fee_v2 : ℕ → ℕ → Option ℕ) (req : BuildPayloadRequest Tx) where
  -- The base fee: that of the request, or else what the contract answers.
  abbrev pub IsBaseFee : ℕ → Type 0
  IsBaseFee base_fee =
      (req.base_fee ≡ some base_fee)
      ⊎ ((req.base_fee ≡ none)
          × (get_base_fee_v2 (req.parent.gas_used % 2 ^ 32) req.timestamp ≡ some base_fee))

  -- What the pool is asked for a block with a base fee.
  abbrev pub query : ℕ → TxPoolContentParams
  query base_fee = record {
    base_fee = base_fee;
    beneficiary = cfg.operator;
    block_max_gas_limit = cfg.block_max_gas_limit;
    max_bytes_per_tx_list = elim req.max_size [ some n ↦ n | none ↦ cfg.max_block_size_bytes ];
    max_tx_lists_per_call = cfg.max_tx_lists_per_call;
    min_tip = cfg.min_tip_wei;
  }

  -- The first list of a reply; an error and a reply without lists have no transactions.
  abbrev pub IsFirst : List Tx → Option (Option (List (List Tx))) → Type 0
  IsFirst txs none = txs ≡ []
  IsFirst txs (some none) = txs ≡ []
  IsFirst txs (some (some [])) = txs ≡ []
  IsFirst txs (some (some (l ∷ ls))) = txs ≡ l

  -- The transactions: those of the request, or else the first list of the pool.
  abbrev pub IsTxList : ℕ → List Tx → Type 0
  IsTxList base_fee txs =
      (req.transaction_list ≡ some txs)
      ⊎ ((req.transaction_list ≡ none) × IsFirst txs (tx_pool (query base_fee)))

  abbrev pub Answers : Built Tx → Type 0
  Answers build_error =
      (req.base_fee ≡ none) × (get_base_fee_v2 (req.parent.gas_used % 2 ^ 32) req.timestamp ≡ none)
  Answers skipped =
      (wants_block cfg req ≡ false) × ((base_fee : ℕ) × IsBaseFee base_fee × IsTxList base_fee [])
  Answers (built p) =
      (p.parent ≡ req.parent)
      × (p.timestamp ≡ req.timestamp)
      × (p.is_last ≡ req.is_last)
      × IsBaseFee p.base_fee
      × IsTxList p.base_fee p.tx_list_without_anchor_tx
      × ((wants_block cfg req || not (is_nil p.tx_list_without_anchor_tx)) ≡ true)

  reply-IsFirst :
      (reply : Option (Option (List (List Tx))))
      → IsFirst
          (elim reply [
            | none ↦ []
            | some none ↦ []
            | some (some found) ↦ first_list cfg tx_pool found
          ])
          reply
  unfolding first_list
  reply-IsFirst none = refl
  reply-IsFirst (some none) = refl
  reply-IsFirst (some (some [])) = refl
  reply-IsFirst (some (some (l ∷ ls))) = refl

  tx_list_of-IsTxList : (base_fee : ℕ) → IsTxList base_fee (tx_list_of cfg tx_pool req base_fee)
  unfolding tx_list_of fetch_tx_lists
  tx_list_of-IsTxList base_fee = elim (Option-cases req.transaction_list) [
    | inl e ↦ rw (tx_list_of, e) (inr (refl, reply-IsFirst (tx_pool (query base_fee))))
    | inr (txs, e) ↦ rw (tx_list_of, e) (inl refl)
  ]

  payload_of-Answers :
      (base_fee : ℕ) → IsBaseFee base_fee → Answers (payload_of cfg tx_pool req base_fee)
  unfolding payload_of
  payload_of-Answers base_fee fee =
      by_list (tx_list_of cfg tx_pool req base_fee) refl (tx_list_of-IsTxList base_fee)
        (wants_block cfg req) refl
    where
      by_list :
          (txs : List Tx)
          → tx_list_of cfg tx_pool req base_fee ≡ txs
          → IsTxList base_fee txs
          → (b : Bool) → wants_block cfg req ≡ b
          → Answers (payload_of cfg tx_pool req base_fee)
      by_list [] e l true w = rw (w, e) (refl, refl, refl, fee, l, ground arith)
      by_list [] e l false w = rw (w, e) (w, (base_fee, fee, l))
      by_list (t ∷ ts) e l true w = rw (w, e) (refl, refl, refl, fee, l, ground arith)
      by_list (t ∷ ts) e l false w = rw (w, e) (refl, refl, refl, fee, l, ground arith)

  fee_cases :
      ((base_fee_of cfg tx_pool get_base_fee_v2 req ≡ none)
        × (req.base_fee ≡ none)
        × (get_base_fee_v2 (req.parent.gas_used % 2 ^ 32) req.timestamp ≡ none))
      ⊎ ((fee : ℕ) × (base_fee_of cfg tx_pool get_base_fee_v2 req ≡ some fee) × IsBaseFee fee)
  unfolding base_fee_of
  fee_cases =
      go req.base_fee refl (get_base_fee_v2 (req.parent.gas_used % 2 ^ 32) req.timestamp) refl
    where
      go :
          (o : Option ℕ)
          → req.base_fee ≡ o
          → (asked : Option ℕ)
          → get_base_fee_v2 (req.parent.gas_used % 2 ^ 32) req.timestamp ≡ asked
          → ((base_fee_of cfg tx_pool get_base_fee_v2 req ≡ none)
              × (req.base_fee ≡ none)
              × (get_base_fee_v2 (req.parent.gas_used % 2 ^ 32) req.timestamp ≡ none))
            ⊎ ((fee : ℕ) × (base_fee_of cfg tx_pool get_base_fee_v2 req ≡ some fee) × IsBaseFee fee)
      go (some fee) e asked f = inr (fee, simp (base_fee_of, e), inl e)
      go none e none f = inl (simp (base_fee_of, e, f), e, f)
      go none e (some fee) f = inr (fee, simp (base_fee_of, e, f), inr (e, f))

  -- The block builder fails only if neither the request nor the contract gives a base fee. It skips a
  -- block only if nothing asks for an empty one and there is no transaction. A payload has the
  -- request's parent, timestamp and mark, the base fee of the request or else of the contract, the
  -- transactions of the request or else of the pool, and one of the two reasons to exist: something
  -- asks for a block, or it has transactions.
  pub build_payload-Answers : Answers (build_payload cfg tx_pool get_base_fee_v2 req)
  unfolding build_payload
  build_payload-Answers = elim fee_cases [
    | inl (q, e, f) ↦ rw (build_payload, q) (e, f)
    | inr (fee, q, h) ↦ rw (build_payload, q) (payload_of-Answers fee h)
  ]

-- While a block is finalized the builder is busy with the block after the parent. However that ends,
-- with an error or with a response that the driver takes, the builder is free again afterwards.
trigger_finalize_block_lem :
    {Tx : Type 0} (s : BuilderState) (p : BlockPayload Tx)
    (outcome : Option (PreconfirmedBlock Tx × Header))
    → let busy = trigger_finalize_block s p in
      let after = finalized busy outcome [] in
      (is_finalizing busy ≡ some (add64 p.parent.header.number 1))
      × (is_finalizing (take_response after.0 after.1).0 ≡ none)
      × ((take_response after.0 after.1).1 ≡ [])
unfolding trigger_finalize_block finalized take_response is_finalizing set_finalizing drop_response
trigger_finalize_block_lem s p none = (refl, refl, refl)
trigger_finalize_block_lem s p (some response) = (refl, refl, refl)
