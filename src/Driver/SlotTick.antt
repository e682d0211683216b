-- ===== src/Driver/SlotTick.antt =====
-- `on_l2_slot_tick` of crates/driver/src/driver.rs: the decision to build a block, the payload, and
-- the anchor that the block is built on.
use taiko_mk.Prelude.{
  ℕ, ◌≤◌, ◌<◌, ◌≡◌, refl, sym, ap, subst, ◌∙◌, arith, max, true, Option, none, some, List, [], ◌∷◌,
  ltb, if◌then◌else◌, All, retain, Bool-cases, Option-cases, inl, inr,
}
use taiko_mk.Status.{can_sequence}
use taiko_mk.Lookahead.{is_last_block_in_sequencing_window}
use taiko_mk.Batch.{
  Header, PreconfirmedBlock, doesnt_fit, place_block, add_block_and_reset_if_full,
  retain_blocks_before, take_and_reset,
}
use taiko_mk.Production.{
  L2Header, BuilderConfig, BlockPayload, Built, build_error, skipped, built, TxPoolContentParams,
  new_request, with_force_empty, with_is_last, with_max_size, build_payload,
}
use taiko_mk.Driver.{Driver, can_build, force_empty}

module _ {Tx : Type 0} (encoded_length : Tx → ℕ) (estimate : ℕ → ℕ) where
  -- The anchor of the outstanding batch while the block fits it, else the driver's.
  unfoldable pub anchor_for : Driver Tx → List Tx → Header
  anchor_for d tx_list = elim (doesnt_fit encoded_length estimate d.outstanding_batch tx_list) [
    | some reason ↦ d.anchor
    | none ↦ d.outstanding_batch.anchor_block
  ]

  module _ (cfg : BuilderConfig) (tx_pool : TxPoolContentParams → Option (Option (List (List Tx))))
      (get_base_fee_v2 : ℕ → ℕ → Option ℕ) where
    -- `some` is the call of `trigger_finalize_block` with its arguments.
    unfoldable pub trigger : Driver Tx → Built Tx → Option (Header × BlockPayload Tx)
    trigger d build_error = none
    trigger d skipped = none
    trigger d (built p) = some (anchor_for d p.tx_list_without_anchor_tx, p)

    -- The replies are the parent and the highest unsafe block, and the suggested size.
    unfoldable pub on_l2_slot_tick :
        Driver Tx → ℕ → Option (L2Header × ℕ) → ℕ → Option (Header × BlockPayload Tx)
    on_l2_slot_tick d timestamp none max_size = none
    on_l2_slot_tick d timestamp (some (parent, highest_unsafe_block)) max_size =
        if can_build d parent.header highest_unsafe_block
        then trigger d (
            build_payload cfg tx_pool get_base_fee_v2 (
              with_max_size
                (with_is_last
                  (with_force_empty (new_request timestamp parent) (force_empty d timestamp))
                  (is_last_block_in_sequencing_window d.lookahead timestamp))
                max_size))
        else none

  retain_later :
      (n : ℕ) (xs : List (PreconfirmedBlock Tx))
      → All (λ y. y.number < n) xs
      → retain (λ y. ltb y.number n) xs ≡ xs
  retain_later n [] h = refl
  retain_later n (x ∷ xs) h = ground (arith, retain_later n xs h.1)

  anchor_of_place :
      (d : Driver Tx) (x : PreconfirmedBlock Tx)
      → (place_block encoded_length estimate
          (doesnt_fit encoded_length estimate d.outstanding_batch x.tx_list)
          d.outstanding_batch
          x
          (anchor_for d x.tx_list)).0.anchor_block
        ≡ anchor_for d x.tx_list
  unfolding anchor_for place_block take_and_reset
  anchor_of_place d x =
      elim (Option-cases (doesnt_fit encoded_length estimate d.outstanding_batch x.tx_list)) [
        | inl e ↦ rw (e, anchor_for, place_block)
        | inr (r, e) ↦ rw (e, anchor_for, place_block)
      ]

  -- A block that comes after those of the outstanding batch stands under its own anchor there.
  add_block-anchor_for :
      (d : Driver Tx) (x : PreconfirmedBlock Tx)
      → All (λ y. y.number < x.number) d.outstanding_batch.blocks
      → (add_block_and_reset_if_full encoded_length estimate d.outstanding_batch x
          (anchor_for d x.tx_list)).0.anchor_block
        ≡ anchor_for d x.tx_list
  unfolding add_block_and_reset_if_full retain_blocks_before
  add_block-anchor_for d x h =
      rw (retain_later x.number d.outstanding_batch.blocks h) (anchor_of_place d x)

  can_build_lem :
      (d : Driver Tx) (parent : Header) (highest : ℕ)
      → can_build d parent highest ≡ true
      → (can_sequence d.status ≡ true)
        × (d.finalizing ≡ none)
        × (max highest d.head_l1_origin ≤ parent.number)
  unfolding can_build
  can_build_lem d parent highest h = (ground arith, ground arith, ground arith)

  module _ (cfg : BuilderConfig) (tx_pool : TxPoolContentParams → Option (Option (List (List Tx))))
      (get_base_fee_v2 : ℕ → ℕ → Option ℕ) where
    trigger-built :
        (d : Driver Tx) (b : Built Tx) (a : Header) (p : BlockPayload Tx)
        → trigger cfg tx_pool get_base_fee_v2 d b ≡ some (a, p)
        → (a ≡ anchor_for d p.tx_list_without_anchor_tx) × (b ≡ built p)
    unfolding trigger
    trigger-built d build_error a p h = absurd (ground arith)
    trigger-built d skipped a p h = absurd (ground arith)
    trigger-built d (built q) a p h = (
      sym (ap (λ (o : Option (Header × BlockPayload Tx)). elim o [ none ↦ a | some r ↦ r.0 ]) h)
          ∙ ap (λ (r : BlockPayload Tx). anchor_for d r.tx_list_without_anchor_tx) same,
      ap built same,
    )
      where
        same : q ≡ p
        same = ap (λ (o : Option (Header × BlockPayload Tx)). elim o [ none ↦ p | some r ↦ r.1 ]) h

    -- A slot tick triggers a block only while the driver can sequence, no block is being finalized,
    -- and the parent is not below the highest unsafe block nor the head L1 origin. A block with the
    -- payload's transactions, after those of the outstanding batch, then goes into that batch under
    -- the very anchor that it was built on.
    pub on_l2_slot_tick_lem :
        (d : Driver Tx) (timestamp : ℕ) (parent : L2Header) (highest_unsafe_block max_size : ℕ)
        (a : Header) (p : BlockPayload Tx) (x : PreconfirmedBlock Tx)
        → on_l2_slot_tick cfg tx_pool get_base_fee_v2 d timestamp
            (some (parent, highest_unsafe_block))
            max_size
          ≡ some (a, p)
        → x.tx_list ≡ p.tx_list_without_anchor_tx
        → All (λ y. y.number < x.number) d.outstanding_batch.blocks
        → (can_sequence d.status ≡ true)
          × (d.finalizing ≡ none)
          × (max highest_unsafe_block d.head_l1_origin ≤ parent.header.number)
          × ((add_block_and_reset_if_full encoded_length estimate d.outstanding_batch x
                a).0.anchor_block
              ≡ a)
    unfolding on_l2_slot_tick
    on_l2_slot_tick_lem d timestamp parent highest max_size a p x h txs later =
        elim (Bool-cases (can_build d parent.header highest)) [
          | inl e ↦
              let c = can_build_lem d parent.header highest e in
              let t = trigger-built d _ a p (rw e at h) in
              (
                c.0,
                c.1,
                c.2,
                subst
                    (λ (b : Header).
                      (add_block_and_reset_if_full encoded_length estimate d.outstanding_batch x
                        b).0.anchor_block
                      ≡ b)
                    (ap (anchor_for d) txs ∙ sym t.0) (add_block-anchor_for d x later),
              )
          | inr e ↦ absurd (ground arith)
        ]
