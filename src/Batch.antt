-- ===== src/Batch.antt =====
-- Batches of preconfirmed blocks: crates/primitives/src/taiko/batch.rs. The type of transactions
-- and their encoded length (alloy's `TxEnvelope` and `eip2718_encoded_length`) are parameters. So is
-- the current estimate of the compressed size (`ZlibCompressionEstimate::get`), which computes with
-- floats. Sizes of data in memory do not wrap. Logs are left out.
pub mod Adding
pub mod Sizes
pub mod Age
pub mod Splitting
mod Tests
use taiko_mk.Prelude.{
  ℕ, ◌+◌, ◌-◌, ◌*◌, ◌/◌, ◌<◌, Bool, true, false, not, Option, none, some, List, [], ◌∷◌, ◌++◌, map,
  ltb, leb, ◌==◌, if◌then◌else◌, length, head?, last?, is_nil, retain, sum_by, min, mul64, sub64,
  saturating_sub,
}
use taiko_mk.Config.{Address, BatchSettings}

-- `alloy::rpc::types::Header`: the fields that the modelled code reads.
pub record Header : Type 0 where
  pub number : ℕ
  pub timestamp : ℕ
  pub beneficiary : Address
  pub base_fee_per_gas : Option ℕ

pub record PreconfirmedBlock (Tx : Type 0) : Type 0 where
  pub timestamp : ℕ
  pub number : ℕ
  pub coinbase : Address
  pub tx_list : List Tx

pub record Batch (Tx : Type 0) : Type 0 where
  pub blocks : List (PreconfirmedBlock Tx)
  pub anchor_block : Header
  pub settings : BatchSettings
  pub coinbase : Address

pub data DoesntFitBlockReason : Type 0 where
  capacity : DoesntFitBlockReason
  target_size : ℕ → ℕ → DoesntFitBlockReason
  anchor_changed : ℕ → ℕ → DoesntFitBlockReason

pub data AddBlockResult (Tx : Type 0) : Type 0 where
  added : ℕ → AddBlockResult Tx
  full : DoesntFitBlockReason → Batch Tx → AddBlockResult Tx

-- `SLOT_DURATION_SECS` of alloy's `eips::merge`.
abbrev pub slot_duration_secs : ℕ
slot_duration_secs = 12

-- crates/primitives/src/taiko/constants.rs.
abbrev pub max_timeshift_secs : ℕ
max_timeshift_secs = 255

abbrev pub timeshift_buffer_secs : ℕ
timeshift_buffer_secs = max_timeshift_secs - 4

module _ {Tx : Type 0} where
  unfoldable pub new : Header → BatchSettings → Batch Tx
  new anchor_block settings = record {
    blocks = [];
    anchor_block = anchor_block;
    settings = settings;
    coinbase = settings.default_coinbase;
  }

  unfoldable pub from_blocks_unchecked :
      Header → BatchSettings → List (PreconfirmedBlock Tx) → Batch Tx
  from_blocks_unchecked anchor_block settings blocks = record {
    blocks = blocks;
    anchor_block = anchor_block;
    settings = settings;
    coinbase = settings.default_coinbase;
  }

  unfoldable pub is_empty : Batch Tx → Bool
  is_empty b = is_nil b.blocks

  unfoldable pub anchor_id : Batch Tx → ℕ
  anchor_id b = b.anchor_block.number

  unfoldable pub retain_blocks_after : Batch Tx → ℕ → Batch Tx
  retain_blocks_after b block_number = record b {
    blocks = retain (λ x. ltb block_number x.number) b.blocks;
  }

  unfoldable pub retain_blocks_before : Batch Tx → ℕ → Batch Tx
  retain_blocks_before b block_number = record b {
    blocks = retain (λ x. ltb x.number block_number) b.blocks;
  }

  unfoldable pub tx_count : Batch Tx → ℕ
  tx_count b = sum_by (λ x. length x.tx_list) b.blocks

  -- `RangeInclusive` as its two ends.
  range_of : Option (PreconfirmedBlock Tx) → Option (PreconfirmedBlock Tx) → ℕ × ℕ
  range_of (some first) (some last) = (first.number, last.number)
  range_of _ _ = (0, 0)

  unfoldable pub blocks_range : Batch Tx → ℕ × ℕ
  unfolding range_of
  blocks_range b = range_of (head? b.blocks) (last? b.blocks)

  unfoldable pub first_timestamp : Batch Tx → Option ℕ
  first_timestamp b = elim (head? b.blocks) [ none ↦ none | some x ↦ some x.timestamp ]

  unfoldable pub last_timestamp : Batch Tx → Option ℕ
  last_timestamp b = elim (last? b.blocks) [ none ↦ none | some x ↦ some x.timestamp ]

  unfoldable pub total_time_shift : Batch Tx → ℕ
  unfolding first_timestamp last_timestamp
  total_time_shift b = elim (first_timestamp b) [
    | none ↦ 0
    | some first ↦ elim (last_timestamp b) [ none ↦ 0 | some last ↦ sub64 last first ]
  ]

  -- The batch as it was, and what is left of it.
  unfoldable pub take_and_reset : Batch Tx → Header → Batch Tx × Batch Tx
  take_and_reset b new_anchor_block = (b, record b { blocks = []; anchor_block = new_anchor_block })

  unfoldable pub change_anchor : Batch Tx → Header → Batch Tx
  change_anchor b new_anchor = record b { anchor_block = new_anchor }

  unfoldable pub change_coinbase : Batch Tx → Address → Batch Tx
  change_coinbase b new_coinbase = record b { coinbase = new_coinbase }

  abbrev pub with_timestamp : ℕ → PreconfirmedBlock Tx → PreconfirmedBlock Tx
  with_timestamp timestamp x = record x { timestamp = timestamp }

  unfoldable pub set_all_blocks_timestamp : Batch Tx → ℕ → Batch Tx
  set_all_blocks_timestamp b timestamp = record b {
    blocks = map (with_timestamp timestamp) b.blocks;
  }

  unfoldable pub should_build_empty_block : Batch Tx → ℕ → Bool
  should_build_empty_block b new_block_ts = elim (last_timestamp b) [
    | none ↦ false
    | some last_ts ↦ leb last_ts (saturating_sub new_block_ts timeshift_buffer_secs)
  ]

  unfoldable pub compute_age_limit : Batch Tx → ℕ → ℕ → ℕ
  compute_age_limit b next_block_ts next_block_number =
      let anchor_age = saturating_sub next_block_number (anchor_id b) in
      let anchor_slots_left = saturating_sub b.settings.max_anchor_height_offset anchor_age in
      let timeshift_limit = mul64 b.settings.max_anchor_height_offset slot_duration_secs in
      elim (first_timestamp b) [
        | none ↦ anchor_slots_left
        | some first ↦
            let distance = saturating_sub next_block_ts first in
            let timeshift_seconds_left = saturating_sub timeshift_limit distance in
            min anchor_slots_left (timeshift_seconds_left / slot_duration_secs)
      ]

  unfoldable pub should_reanchor : Batch Tx → ℕ → ℕ → Bool
  should_reanchor b next_block_ts next_block_number =
      ltb (compute_age_limit b next_block_ts next_block_number) b.settings.anchor_max_height_buffer

  -- The loop of `split_by_coinbase` over `current_batch`; `batches` is what it has pushed, and
  -- the result begins with it.
  split_from : Header → BatchSettings → Batch Tx → List (PreconfirmedBlock Tx) → List (Batch Tx)
  split_from anchor settings current [] = current ∷ []
  split_from anchor settings current (x ∷ xs) =
      let fresh : Batch Tx = change_coinbase (new anchor settings) x.coinbase in
      let splits = not (current.coinbase == x.coinbase) in
      let target = if splits then fresh else current in
      let rest =
        split_from anchor settings (record target { blocks = target.blocks ++ x ∷ [] }) xs in
      if splits then current ∷ rest else rest

  unfoldable pub split_by_coinbase : Batch Tx → List (Batch Tx)
  unfolding split_from
  split_by_coinbase b = elim (head? b.blocks) [
    | none ↦ []
    | some first_block ↦
        split_from b.anchor_block b.settings
          (change_coinbase (new b.anchor_block b.settings) first_block.coinbase) b.blocks
  ]

  -- The `OrderedBatches` that is left, and the batch that was popped.
  unfoldable pub pop_with_coinbase : List (Batch Tx) → Address → List (Batch Tx) × Option (Batch Tx)
  pop_with_coinbase [] coinbase = ([], none)
  pop_with_coinbase (b ∷ []) coinbase =
      if b.coinbase == coinbase then ([], some b) else (b ∷ [], none)
  pop_with_coinbase (b ∷ c ∷ bs) coinbase =
      let (rest, popped) = pop_with_coinbase (c ∷ bs) coinbase in (b ∷ rest, popped)

module _ {Tx : Type 0} (encoded_length : Tx → ℕ) where
  unfoldable pub block_raw_size : PreconfirmedBlock Tx → ℕ
  block_raw_size x = sum_by encoded_length x.tx_list

  unfoldable pub raw_size : Batch Tx → ℕ
  raw_size b = sum_by block_raw_size b.blocks

module _ {Tx : Type 0} (encoded_length : Tx → ℕ) (estimate : ℕ → ℕ) where
  unfoldable pub doesnt_fit : Batch Tx → List Tx → Option DoesntFitBlockReason
  doesnt_fit b tx_list =
      let new_block_size = sum_by encoded_length tx_list in
      let new_raw_size = raw_size encoded_length b + new_block_size in
      let new_compressed_size = estimate new_raw_size in
      if ltb b.settings.target_compressed_size new_compressed_size
      then some (target_size new_compressed_size b.settings.target_compressed_size)
      else if length b.blocks == b.settings.capacity
      then some capacity
      else none

  -- What follows the call of `doesnt_fit`, on its result.
  unfoldable pub place_block :
      Option DoesntFitBlockReason
      → Batch Tx
      → PreconfirmedBlock Tx
      → Header
      → Batch Tx × AddBlockResult Tx
  place_block none b block new_anchor =
      let grown : Batch Tx = record b { blocks = b.blocks ++ block ∷ [] } in
      (grown, added (raw_size encoded_length grown))
  place_block (some reason) b block new_anchor =
      let (this, rest) = take_and_reset b new_anchor in
      (record rest { blocks = rest.blocks ++ block ∷ [] }, full reason this)

  unfoldable pub add_block_and_reset_if_full :
      Batch Tx → PreconfirmedBlock Tx → Header → Batch Tx × AddBlockResult Tx
  unfolding place_block
  add_block_and_reset_if_full b block new_anchor =
      let kept = retain_blocks_before b block.number in
      place_block (doesnt_fit kept block.tx_list) kept block new_anchor
