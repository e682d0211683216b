-- ===== src/Syncer.antt =====
-- The sync routine: crates/driver/src/sync/mod.rs. The replies of the nodes are the argument
-- `chain`; `none` is an error of a query or a panic. Metrics and logs are left out.
pub mod Ranges
mod Tests
use taiko_mk.Prelude.{
  ℕ, ◌+◌, ◌-◌, ◌≤◌, Bool, true, false, Option, none, some, List, [], ◌∷◌, ltb, leb, if◌then◌else◌,
  is_nil, add64, sub64, saturating_sub,
}
use taiko_mk.Config.{
  RuntimeConfig, BatchSettings, batch_settings, default_proposal_time_buffer,
  max_proposable_block_age_secs,
}
use taiko_mk.Status.{DriverStatus, inactive, handover_wait, sequencing_only, inclusion_only, active}
use taiko_mk.Batch.{Header, Batch}
use taiko_mk.Batch
use taiko_mk.Blocks.{Block, AnchoredBlock, into_outstanding, basefee_map}
use taiko_mk.BatchMap.{
  BatchMap, ReorgReason, ensure_unique_coinbase, reanchor, retimestamp, into_vec,
}
use taiko_mk.BatchMap

-- What the nodes reply. `l1_head` and `l1_head_id` are two queries for the L1 block number, at the start
-- and when the batch map is made. `download` is for a range with both ends included, and
-- `unsafe_anchor_id` is `anchor_block_id` of the highest unsafe block.
pub record Chain (Tx : Type 0) : Type 0 where
  pub l2_head : ℕ
  pub head_l1_origin : ℕ
  pub l1_head : ℕ
  pub l1_head_id : ℕ
  pub l1_header : ℕ → Option Header
  pub download : ℕ → ℕ → Option (List (AnchoredBlock Tx))
  pub highest_unsafe : Block Tx
  pub unsafe_anchor_id : Option ℕ
  pub now : ℕ

pub record SyncOutcome (Tx : Type 0) : Type 0 where
  pub batches : List (Batch Tx)
  pub reorg_reasons : List ReorgReason
  pub basefees : List (ℕ × ℕ)

module _ {Tx : Type 0} (encoded_length : Tx → ℕ) (estimate : ℕ → ℕ) where
  -- The steps on the map, for a minimum proposable anchor and the two ends of the timestamps.
  pub assemble :
      BatchMap Tx
      → (min_proposable_anchor : ℕ) → Header
      → BatchSettings
      → (min_ts max_ts : ℕ) → BatchMap Tx
  assemble m min_proposable_anchor safe_l1_anchor settings min_ts max_ts =
      retimestamp
        (reanchor encoded_length estimate (ensure_unique_coinbase m) min_proposable_anchor
          safe_l1_anchor settings)
        min_ts max_ts

  -- The steps, where the map was made and the header was found.
  assemble_replied :
      Option (BatchMap Tx)
      → Option Header
      → Header
      → BatchSettings
      → (min_ts max_ts : ℕ) → Option (BatchMap Tx)
  assemble_replied none o safe_l1_anchor settings min_ts max_ts = none
  assemble_replied (some m) none safe_l1_anchor settings min_ts max_ts = none
  assemble_replied (some m) (some min_proposable_anchor) safe_l1_anchor settings min_ts max_ts =
      some (assemble m min_proposable_anchor.number safe_l1_anchor settings min_ts max_ts)

  unfoldable pub create_batch_map :
      Chain Tx
      → RuntimeConfig
      → BatchSettings
      → List (AnchoredBlock Tx)
      → Header
      → Option (BatchMap Tx)
  unfolding assemble assemble_replied
  create_batch_map chain cfg settings blocks safe_l1_anchor =
      let min_proposable_anchor_id =
        sub64 (add64 chain.l1_head_id cfg.anchor_max_height_buffer) cfg.max_anchor_height_offset in
      let min_proposable_ts =
        sub64 (add64 chain.now (default_proposal_time_buffer cfg))
          (max_proposable_block_age_secs cfg) in
      let batch_map =
        assemble_replied (BatchMap.new encoded_length estimate blocks settings)
          (chain.l1_header min_proposable_anchor_id) safe_l1_anchor settings min_proposable_ts
          chain.now in
      if is_nil blocks then some (record { inner = []; reorg_reasons = [] }) else batch_map

  -- The anchor that is passed on as safe.
  abbrev pub guaranteed_safe_anchor : Chain Tx → ℕ → Header → Header
  guaranteed_safe_anchor chain unsafe_anchor_id safe_l1_anchor =
      if ltb safe_l1_anchor.number unsafe_anchor_id
      then chain.highest_unsafe.header
      else safe_l1_anchor

  unfoldable pub create_batches :
      Chain Tx
      → RuntimeConfig
      → BatchSettings
      → List (AnchoredBlock Tx)
      → Header
      → Option (List (Batch Tx) × List ReorgReason)
  create_batches chain cfg settings blocks safe_l1_anchor = elim chain.unsafe_anchor_id [
    | none ↦ none
    | some unsafe_anchor_id ↦
        elim (create_batch_map chain cfg settings blocks
          (guaranteed_safe_anchor chain unsafe_anchor_id safe_l1_anchor)) [
            | none ↦ none
            | some m ↦ some (into_vec m, m.reorg_reasons)
          ]
  ]

  abbrev pub empty_outcome : Header → BatchSettings → SyncOutcome Tx
  empty_outcome l1_anchor settings = record {
    batches = Batch.new l1_anchor settings ∷ [];
    reorg_reasons = [];
    basefees = [];
  }

  with_basefees :
      List (ℕ × ℕ) → Option (List (Batch Tx) × List ReorgReason) → Option (SyncOutcome Tx)
  with_basefees basefees none = none
  with_basefees basefees (some (batches, reorg_reasons)) =
      some (record { batches = batches; reorg_reasons = reorg_reasons; basefees = basefees })

  -- The soft blocks as one outstanding batch.
  abbrev outstanding_outcome :
      Header → BatchSettings → Option (List (AnchoredBlock Tx)) → Option (SyncOutcome Tx)
  outstanding_outcome l1_anchor settings none = none
  outstanding_outcome l1_anchor settings (some blocks) = some (record {
    batches = into_outstanding blocks l1_anchor settings ∷ [];
    reorg_reasons = [];
    basefees = basefee_map blocks;
  })

  proposable_outcome :
      Chain Tx
      → RuntimeConfig
      → Header
      → BatchSettings
      → Option (List (AnchoredBlock Tx))
      → Option (SyncOutcome Tx)
  proposable_outcome chain cfg l1_anchor settings none = none
  proposable_outcome chain cfg l1_anchor settings (some blocks) =
      with_basefees (basefee_map blocks) (create_batches chain cfg settings blocks l1_anchor)

  -- The `match` on the status, for the range of soft blocks.
  sync_by_status :
      Chain Tx
      → RuntimeConfig
      → Header
      → BatchSettings
      → DriverStatus
      → (first last : ℕ) → Option (SyncOutcome Tx)
  sync_by_status chain cfg l1_anchor settings inactive first last =
      some (empty_outcome l1_anchor settings)
  sync_by_status chain cfg l1_anchor settings sequencing_only first last =
      outstanding_outcome l1_anchor settings (chain.download first last)
  sync_by_status chain cfg l1_anchor settings (handover_wait start) first last =
      outstanding_outcome l1_anchor settings (chain.download first last)
  sync_by_status chain cfg l1_anchor settings inclusion_only first last =
      proposable_outcome chain cfg l1_anchor settings (chain.download first last)
  sync_by_status chain cfg l1_anchor settings active first last =
      proposable_outcome chain cfg l1_anchor settings (chain.download first last)

  -- `max_blobs_per_block` is alloy's constant for `batch_settings`.
  unfoldable pub sync :
      (max_blobs_per_block : ℕ) → Chain Tx → RuntimeConfig → DriverStatus → Option (SyncOutcome Tx)
  unfolding sync_by_status proposable_outcome with_basefees
  sync max_blobs_per_block chain cfg status =
      let settings = batch_settings max_blobs_per_block cfg in
      elim (chain.l1_header (saturating_sub chain.l1_head cfg.anchor_block_lag)) [
        | none ↦ none
        | some l1_anchor ↦
            if leb chain.l2_head chain.head_l1_origin
            then some (empty_outcome l1_anchor settings)
            else sync_by_status chain cfg l1_anchor settings status (add64 chain.head_l1_origin 1)
                chain.l2_head
      ]
