-- ===== src/Driver/Reposting/Order.antt =====
-- In which order, and how far, the driver posts the blocks of batches again:
-- crates/driver/src/driver.rs.
use mathlib.Core.List.{append_assoc, append-nil, map-append}
use taiko_mk.Prelude.{
  ℕ, ◌%◌, ◌^◌, ◌≡◌, All, All-append, refl, sym, ap, ◌∙◌, Bool, true, false, Option, some, List, [],
  ◌∷◌, ◌++◌, map, inl, inr, Option-cases, Bool-cases, saturating_sub,
}
use taiko_mk.Batch.{Header, PreconfirmedBlock, Batch}
use taiko_mk.BatchMap.{ReorgReason, only_reanchoring}
use taiko_mk.Production.{
  L2Header, BuilderConfig, BlockPayload, TxPoolContentParams, RequestBody, new_request,
  build_payload, finalize_block, tx_list_of, payload_of, base_fee_of,
}
use taiko_mk.Driver.Reposting.{
  Posted, Reposted, finished, rpc_failed, missing_base_fee, panicked, get, build_and_finalize,
  finalize_payload, repost_request, and_then, repost_block, repost_blocks,
  finalize_all_blocks_from_batches,
}

module _ {Tx : Type 0} where
  abbrev pub wanted_blocks :
      Header → List (PreconfirmedBlock Tx) → List (Header × PreconfirmedBlock Tx)
  wanted_blocks anchor blocks = map (λ (b : PreconfirmedBlock Tx). (anchor, b)) blocks

  -- All blocks of the batches in order, each with the anchor of its batch.
  abbrev pub wanted : List (Batch Tx) → List (Header × PreconfirmedBlock Tx)
  wanted [] = []
  wanted (b ∷ bs) = wanted_blocks b.anchor_block b.blocks ++ wanted bs

  abbrev pub as_wanted : Posted Tx → Header × PreconfirmedBlock Tx
  as_wanted p = (p.anchor, p.block)

abbrev pub is_finished : Reposted → Bool
is_finished finished = true
is_finished _ = false

abbrev pub is_panicked : Reposted → Bool
is_panicked panicked = true
is_panicked _ = false

module _ {Tx : Type 0} (reorg_reasons : List ReorgReason) (basefee_map : List (ℕ × ℕ)) where
  -- The payload has the block's time and transactions; after mere re-anchoring it also has the
  -- base fee that the block had.
  pub record IsRepost (p : Posted Tx) : Type 0 where
    pub same_timestamp : p.payload.timestamp ≡ p.block.timestamp
    pub same_tx_list : p.payload.tx_list_without_anchor_tx ≡ p.block.tx_list
    pub same_base_fee :
        only_reanchoring reorg_reasons ≡ true
        → get basefee_map p.block.number ≡ some p.payload.base_fee

  -- What was posted before stays, and the blocks of the goal are posted behind it from the front
  -- on: all of them when the loop has finished. It does not panic.
  pub record Progress (before : List (Posted Tx)) (goal : List (Header × PreconfirmedBlock Tx))
      (after : Reposted × List (Posted Tx)) : Type 0 where
    pub fresh : List (Posted Tx)
    pub rest : List (Header × PreconfirmedBlock Tx)
    pub behind : after.1 ≡ before ++ fresh
    pub reposts : All IsRepost fresh
    pub in_order : map as_wanted fresh ++ rest ≡ goal
    pub whole : is_finished after.0 ≡ true → rest ≡ []
    pub no_panic : is_panicked after.0 ≡ false

  Progress-nothing :
      (before : List (Posted Tx)) (goal : List (Header × PreconfirmedBlock Tx)) (r : Reposted)
      → (is_finished r ≡ true → goal ≡ [])
      → is_panicked r ≡ false
      → Progress before goal (r, before)
  Progress-nothing before goal r h k = record {
    fresh = [];
    rest = goal;
    behind = sym (append-nil before);
    reposts = tt;
    in_order = refl;
    whole = h;
    no_panic = k;
  }

  -- A loop that stopped stays that far of a longer goal.
  Progress-longer :
      (before : List (Posted Tx)) (goal later : List (Header × PreconfirmedBlock Tx))
      (after : Reposted × List (Posted Tx))
      → is_finished after.0 ≡ false
      → Progress before goal after
      → Progress before (goal ++ later) after
  Progress-longer before goal later after e p = record {
    fresh = p.fresh;
    rest = p.rest ++ later;
    behind = p.behind;
    reposts = p.reposts;
    in_order = sym (append_assoc (map as_wanted p.fresh) p.rest later) ∙ ap (◌++ later) p.in_order;
    whole = λ h. absurd (cc);
    no_panic = p.no_panic;
  }

  all_of_it :
      (fresh : List (Posted Tx)) (rest goal : List (Header × PreconfirmedBlock Tx))
      → rest ≡ []
      → map as_wanted fresh ++ rest ≡ goal
      → map as_wanted fresh ≡ goal
  all_of_it fresh rest goal e h =
      sym (append-nil (map as_wanted fresh)) ∙ ap (map as_wanted fresh ++◌) (sym e) ∙ h

  -- One step, and the rest of the loop behind it.
  Progress-and_then :
      (before : List (Posted Tx)) (goal later : List (Header × PreconfirmedBlock Tx))
      (after : Reposted × List (Posted Tx)) (f : List (Posted Tx) → Reposted × List (Posted Tx))
      → Progress before goal after
      → Progress after.1 later (f after.1)
      → Progress before (goal ++ later) (and_then after f)
  unfolding and_then
  Progress-and_then before goal later (finished, posted) f p q = record {
    fresh = p.fresh ++ q.fresh;
    rest = q.rest;
    behind = q.behind ∙ ap (◌++ q.fresh) p.behind ∙ append_assoc before p.fresh q.fresh;
    reposts = All-append IsRepost p.fresh q.fresh p.reposts q.reposts;
    in_order =
        ap (◌++ q.rest) (map-append as_wanted p.fresh q.fresh)
        ∙ append_assoc (map as_wanted p.fresh) (map as_wanted q.fresh) q.rest
        ∙ ap (map as_wanted p.fresh ++◌) q.in_order
        ∙ ap (◌++ later) (all_of_it p.fresh p.rest goal (p.whole refl) p.in_order);
    whole = q.whole;
    no_panic = q.no_panic;
  }
  Progress-and_then before goal later (rpc_failed, posted) f p q =
      Progress-longer before goal later (rpc_failed, posted) refl p
  Progress-and_then before goal later (missing_base_fee n, posted) f p q =
      Progress-longer before goal later (missing_base_fee n, posted) refl p
  Progress-and_then before goal later (panicked, posted) f p q =
      Progress-longer before goal later (panicked, posted) refl p

module _ {Tx : Type 0} (cfg : BuilderConfig)
    (tx_pool : TxPoolContentParams → Option (Option (List (List Tx))))
    (get_base_fee_v2 : ℕ → ℕ → Option ℕ) (assemble_anchor_tx : L2Header → Header → ℕ → Option Tx)
    (rlp_encode_and_compress : List Tx → Option (List ℕ))
    (build_preconf_block : RequestBody → Option Header)
    (get_header : List (Posted Tx) → ℕ → Option L2Header) (reorg_reasons : List ReorgReason)
    (basefee_map : List (ℕ × ℕ)) where
  abbrev Reaches :
      List (Posted Tx) → List (Header × PreconfirmedBlock Tx) → Reposted × List (Posted Tx) → Type 0
  Reaches = Progress reorg_reasons basefee_map

  -- What is built for the block with this base fee.
  abbrev payload_for : PreconfirmedBlock Tx → L2Header → ℕ → BlockPayload Tx
  payload_for block parent base_fee = record {
    parent = parent;
    base_fee = base_fee;
    is_last = false;
    timestamp = block.timestamp;
    tx_list_without_anchor_tx = block.tx_list;
  }

  finalize_payload-Progress :
      (posted : List (Posted Tx)) (anchor : Header) (block : PreconfirmedBlock Tx)
      (parent : L2Header) (base_fee : ℕ)
      → (only_reanchoring reorg_reasons ≡ true → get basefee_map block.number ≡ some base_fee)
      → Reaches posted ((anchor, block) ∷ []) (
          finalize_payload cfg tx_pool get_base_fee_v2 assemble_anchor_tx rlp_encode_and_compress
            build_preconf_block get_header posted anchor block
            (payload_for block parent base_fee))
  unfolding finalize_payload
  finalize_payload-Progress posted anchor block parent base_fee h =
      elim (Option-cases (
        finalize_block cfg assemble_anchor_tx rlp_encode_and_compress build_preconf_block anchor
          (payload_for block parent base_fee))) [
            | inl e ↦
                rw (finalize_payload, e)
                  (Progress-nothing reorg_reasons basefee_map posted _ rpc_failed (λ k. absurd cc)
                    refl)
            | inr (response, e) ↦
                rw (finalize_payload, e)
                  record {
                    fresh =
                        record {
                          anchor = anchor;
                          block = block;
                          payload = payload_for block parent base_fee;
                          posted_block = response.0;
                        }
                        ∷ [];
                    rest = [];
                    behind = refl;
                    reposts = (
                      record { same_timestamp = refl; same_tx_list = refl; same_base_fee = h },
                      tt,
                    );
                    in_order = refl;
                    whole = λ k. refl;
                    no_panic = refl;
                  }
          ]

  repost_block-Progress :
      (posted : List (Posted Tx)) (anchor : Header) (block : PreconfirmedBlock Tx)
      → Reaches posted ((anchor, block) ∷ []) (
          repost_block cfg tx_pool get_base_fee_v2 assemble_anchor_tx rlp_encode_and_compress
            build_preconf_block get_header reorg_reasons basefee_map posted anchor block)
  unfolding repost_block build_and_finalize build_payload base_fee_of payload_of tx_list_of
      repost_request new_request
  repost_block-Progress posted anchor block =
      elim (Option-cases (get_header posted (saturating_sub block.number 1))) [
        | inl e ↦
            rw (repost_block, e)
              (Progress-nothing reorg_reasons basefee_map posted _ rpc_failed (λ k. absurd cc) refl)
        | inr (parent, e) ↦ elim (Bool-cases (only_reanchoring reorg_reasons)) [
          | inl r ↦ elim (Option-cases (get basefee_map block.number)) [
            | inl g ↦
                rw (repost_block, e, r, g)
                  (Progress-nothing reorg_reasons basefee_map posted _
                    (missing_base_fee block.number) (λ k. absurd cc) refl)
            | inr (fee, g) ↦
                rw (repost_block, e, r, g)
                  (finalize_payload-Progress posted anchor block parent fee (λ k. g))
          ]
          | inr r ↦
              elim (Option-cases (get_base_fee_v2 (parent.gas_used % 2 ^ 32) block.timestamp)) [
                | inl g ↦
                    rw (repost_block, e, r, g)
                      (Progress-nothing reorg_reasons basefee_map posted _ rpc_failed
                        (λ k. absurd cc) refl)
                | inr (fee, g) ↦
                    rw (repost_block, e, r, g)
                      (finalize_payload-Progress posted anchor block parent fee (λ k. absurd cc))
              ]
        ]
      ]

  repost_blocks-Progress :
      (anchor : Header) (blocks : List (PreconfirmedBlock Tx)) (posted : List (Posted Tx))
      → Reaches posted (wanted_blocks anchor blocks) (
          repost_blocks cfg tx_pool get_base_fee_v2 assemble_anchor_tx rlp_encode_and_compress
            build_preconf_block get_header reorg_reasons basefee_map posted anchor blocks)
  unfolding repost_blocks
  repost_blocks-Progress anchor [] posted =
      Progress-nothing reorg_reasons basefee_map posted [] finished (λ k. refl) refl
  repost_blocks-Progress anchor (block ∷ blocks) posted =
      Progress-and_then reorg_reasons basefee_map posted ((anchor, block) ∷ [])
        (wanted_blocks anchor blocks) _ _ (repost_block-Progress posted anchor block)
        (repost_blocks-Progress anchor blocks _)

  -- For whatever replies of the node, contract and compression: the driver posts the blocks of the
  -- batches again one by one and in their order, each with the anchor of its batch, its time and its
  -- transactions, and after mere re-anchoring with the base fee that the map holds for it. It posts
  -- all of them when it finishes and a part from the front when it fails, and it never panics on a
  -- skipped payload.
  pub finalize_all_blocks-Progress :
      (batches : List (Batch Tx)) (posted : List (Posted Tx))
      → Progress reorg_reasons basefee_map posted (wanted batches) (
          finalize_all_blocks_from_batches cfg tx_pool get_base_fee_v2 assemble_anchor_tx
            rlp_encode_and_compress build_preconf_block get_header reorg_reasons basefee_map posted
            batches)
  unfolding finalize_all_blocks_from_batches
  finalize_all_blocks-Progress [] posted =
      Progress-nothing reorg_reasons basefee_map posted [] finished (λ k. refl) refl
  finalize_all_blocks-Progress (batch ∷ batches) posted =
      Progress-and_then reorg_reasons basefee_map posted
        (wanted_blocks batch.anchor_block batch.blocks) (wanted batches) _ _
        (repost_blocks-Progress batch.anchor_block batch.blocks posted)
        (finalize_all_blocks-Progress batches _)
