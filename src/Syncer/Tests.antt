-- ===== src/Syncer/Tests.antt =====
-- Examples for crates/driver/src/sync/mod.rs.
use taiko_mk.Prelude.{ℕ, refl, some, [], ◌∷◌, arith, All}
use taiko_mk.Samples.{header, settings, half, size, config}
use taiko_mk.Config.{default_proposal_time_buffer, max_proposable_block_age_secs}
use taiko_mk.Batch.{from_blocks_unchecked}
use taiko_mk.Batch.Adding.{all_blocks}
use taiko_mk.Blocks.{AnchoredBlock, anchored_id, into_preconfirmed}
use taiko_mk.BatchMap.{BatchMap, into_vec}
use taiko_mk.BatchMap
use taiko_mk.BatchMap.Retimestamping.{InRange}
use taiko_mk.Syncer.{Chain, assemble, assemble_replied, create_batch_map}
use taiko_mk.Syncer.Ranges.{min_proposable_ts, create_batch_map-InRange}

abbrev soft : AnchoredBlock ℕ
soft = record { block = record { header = header 10; transactions = [] }; anchor = header 5 }

abbrev chain : Chain ℕ
chain = record {
  l2_head = 10;
  head_l1_origin = 9;
  l1_head = 100;
  l1_head_id = 100;
  l1_header = λ number. some (header number);
  download = λ first last. some (soft ∷ []);
  highest_unsafe = soft.block;
  unsafe_anchor_id = some 5;
  now = 3000;
}

-- The map of the one soft block.
abbrev made : BatchMap ℕ
made =
    assemble size half
      (record {
        inner =
            (
              5,
              record {
                blocks = record { timestamp = 1120; number = 10; coinbase = 0; tx_list = [] } ∷ [];
                anchor_block = header 5;
                settings = record settings { default_coinbase = 0 };
                coinbase = 0;
              }
                  ∷ [],
            )
            ∷ [];
        reorg_reasons = [];
      })
      42 (header 96) settings (min_proposable_ts chain (config 7)) 3000

create_batch_map-InRange_example :
    All (InRange (min_proposable_ts chain (config 7)) 3000) (all_blocks (into_vec made))
unfolding create_batch_map assemble_replied BatchMap.new default_proposal_time_buffer
    max_proposable_block_age_secs anchored_id from_blocks_unchecked into_preconfirmed
create_batch_map-InRange_example =
    create_batch_map-InRange size half chain (config 7) settings soft [] (header 96) made
      (omega arith) refl
