-- ===== src/Inbox/Tests.antt =====
-- Runs for crates/chainio/src/taiko/inbox.rs.
use taiko_mk.Prelude.{ℕ, ◌≡◌, refl, List, [], ◌∷◌, ◌++◌, length, arith, some}
use taiko_mk.Anchor.{InboxBaseFeeConfig}
use taiko_mk.Blob.Bytes.{ok, zeros, write_slice}
use taiko_mk.Poster.{BlockParams}
use taiko_mk.Inbox.{
  to_be_bytes, first_nonzero, encoded_extra_data, BatchProposed, count_up, block_numbers_proposed,
  latest_batch, get_head_l1_origin, summary_timestamps,
}
use taiko_mk.Inbox.ExtraData.{from_be_bytes, encoded_extra_data_lem}

abbrev sharing : ℕ → InboxBaseFeeConfig
sharing percentage = record {
  inbox_adjustment_quotient = 8;
  inbox_sharing_pctg = percentage;
  inbox_gas_issuance_per_second = 5000000;
  inbox_min_gas_excess = 1340000000;
  inbox_max_gas_issuance_per_block = 600000000;
}

encoded_extra_data_lem_example :
    (bytes : List ℕ) × (encoded_extra_data (sharing 75) ≡ ok bytes)
    × (length bytes ≡ 32)
    × (from_be_bytes 0 bytes ≡ 75)
encoded_extra_data_lem_example = encoded_extra_data_lem (sharing 75) (omega arith)

encoded_test : encoded_extra_data (sharing 75) ≡ ok (zeros 31 ++ 75 ∷ [])
unfolding encoded_extra_data to_be_bytes first_nonzero write_slice zeros
encoded_test = refl

abbrev shifted : ℕ → BlockParams
shifted seconds = record { num_transactions = 1; time_shift = seconds }

-- Three blocks, the last one with number 3.
abbrev event : BatchProposed
event = record {
  last_block_id = 3;
  last_block_timestamp = 1744;
  blocks = shifted 0 ∷ shifted 2 ∷ shifted 4 ∷ [];
}

numbers_test : block_numbers_proposed event ≡ 1 ∷ 2 ∷ 3 ∷ []
unfolding block_numbers_proposed count_up
numbers_test = refl

summary_test : summary_timestamps event.last_block_timestamp event.blocks ≡ (1738, 1744)
unfolding summary_timestamps
summary_test = refl

-- The latest of five batches is batch 4.
origin_test :
    get_head_l1_origin
      (some (record { num_batches = 5 }))
      (λ id. some (record { meta_hash = 0; last_block_id = id }))
    ≡ some 4
unfolding get_head_l1_origin latest_batch
origin_test = refl
