-- ===== src/Syncer/Ranges.antt =====
-- The timestamps of what is proposed: `create_batch_map` in crates/driver/src/sync/mod.rs.
use taiko_mk.Prelude.{
  ℕ, ◌≤◌, ◌≡◌, ap, subst, Option, none, some, List, ◌∷◌, arith, All, add64, sub64,
}
use taiko_mk.Config.{
  RuntimeConfig, BatchSettings, default_proposal_time_buffer, max_proposable_block_age_secs,
}
use taiko_mk.Batch.{Header}
use taiko_mk.Batch.Adding.{all_blocks}
use taiko_mk.Blocks.{AnchoredBlock}
use taiko_mk.BatchMap.{BatchMap, into_vec}
use taiko_mk.BatchMap.Retimestamping.{InRange, retimestamp-InRange}
use taiko_mk.Syncer.{Chain, assemble, assemble_replied, create_batch_map}

module _ {Tx : Type 0} where
  -- The earliest timestamp that can still be proposed, and the clock's.
  abbrev pub min_proposable_ts : Chain Tx → RuntimeConfig → ℕ
  min_proposable_ts chain cfg =
      sub64 (add64 chain.now (default_proposal_time_buffer cfg)) (max_proposable_block_age_secs cfg)

module _ {Tx : Type 0} (encoded_length : Tx → ℕ) (estimate : ℕ → ℕ) where
  assemble_replied-InRange :
      (o : Option (BatchMap Tx)) (p : Option Header) (safe : Header) (settings : BatchSettings)
      (min_ts max_ts : ℕ) (m : BatchMap Tx)
      → min_ts ≤ max_ts
      → assemble_replied encoded_length estimate o p safe settings min_ts max_ts ≡ some m
      → All (InRange min_ts max_ts) (all_blocks (into_vec m))
  unfolding assemble_replied assemble
  assemble_replied-InRange none p safe settings min_ts max_ts m le e = ground arith
  assemble_replied-InRange (some m0) none safe settings min_ts max_ts m le e = ground arith
  assemble_replied-InRange (some m0) (some a) safe settings min_ts max_ts m le e =
      subst (λ (n : BatchMap Tx). All (InRange min_ts max_ts) (all_blocks (into_vec n)))
        (ap (λ (o : Option (BatchMap Tx)). elim o [ none ↦ m0 | some n ↦ n ]) e)
        (retimestamp-InRange min_ts max_ts _ le)

  -- Every block of the batches that are made of soft blocks has a timestamp between the earliest
  -- one that can be proposed and the present, when the first is not after the second.
  pub create_batch_map-InRange :
      (chain : Chain Tx) (cfg : RuntimeConfig) (settings : BatchSettings) (first : AnchoredBlock Tx)
      (others : List (AnchoredBlock Tx)) (safe : Header) (m : BatchMap Tx)
      → min_proposable_ts chain cfg ≤ chain.now
      → create_batch_map encoded_length estimate chain cfg settings (first ∷ others) safe ≡ some m
      → All (InRange (min_proposable_ts chain cfg) chain.now) (all_blocks (into_vec m))
  unfolding create_batch_map
  create_batch_map-InRange chain cfg settings first others safe m le e =
      assemble_replied-InRange _ _ safe settings (min_proposable_ts chain cfg) chain.now m le e
