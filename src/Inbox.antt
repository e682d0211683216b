-- ===== src/Inbox.antt =====
-- What crates/chainio/src/taiko/inbox.rs computes around the calls of the inbox contract.
pub mod ExtraData
mod Tests
use taiko_mk.Prelude.{
  ℕ, zero, suc, ◌+◌, ◌-◌, ◌/◌, ◌%◌, Bool, true, false, ◌==◌, Option, none, some, List, [], ◌∷◌,
  ◌++◌, length, drop, sum_by, add64, sub64, u64_max, saturating_sub, if◌then◌else◌,
}
use taiko_mk.Anchor.{InboxBaseFeeConfig}
use taiko_mk.Blob.Bytes.{BlobResult, zeros, write_slice}
use taiko_mk.Poster.{BlockParams}

-- The fields of `Stats2` and `Batch` that are read.
pub record Stats2 : Type 0 where
  pub num_batches : ℕ

pub record InboxBatch : Type 0 where
  pub meta_hash : ℕ
  pub last_block_id : ℕ

-- The batch that was proposed last; `none` is a call that fails. Batch 0 is the genesis.
unfoldable pub latest_batch : Option Stats2 → (ℕ → Option InboxBatch) → Option InboxBatch
latest_batch none get_batch = none
latest_batch (some stats2) get_batch = get_batch (sub64 stats2.num_batches 1)

unfoldable pub get_parent_meta_hash : Option Stats2 → (ℕ → Option InboxBatch) → Option ℕ
get_parent_meta_hash stats2 get_batch = elim (latest_batch stats2 get_batch) [
  | none ↦ none
  | some batch ↦ some batch.meta_hash
]

unfoldable pub get_head_l1_origin : Option Stats2 → (ℕ → Option InboxBatch) → Option ℕ
get_head_l1_origin stats2 get_batch = elim (latest_batch stats2 get_batch) [
  | none ↦ none
  | some batch ↦ some batch.last_block_id
]

-- `to_be_bytes` for `k` bytes.
unfoldable pub to_be_bytes : ℕ → ℕ → List ℕ
to_be_bytes zero n = []
to_be_bytes (suc k) n = to_be_bytes k (n / 256) ++ n % 256 ∷ []

-- The place of the first byte that is not 0, or the length.
unfoldable pub first_nonzero : List ℕ → ℕ
first_nonzero [] = 0
first_nonzero (b ∷ bs) = if b == 0 then suc (first_nonzero bs) else 0

-- A panic is that of the slice, or of `copy_from_slice`.
unfoldable pub encoded_extra_data : InboxBaseFeeConfig → BlobResult (List ℕ)
encoded_extra_data config =
    let uint_bytes = to_be_bytes 8 config.inbox_sharing_pctg in
    let minimal = drop (first_nonzero uint_bytes) uint_bytes in
    write_slice (32 - length minimal) minimal (zeros 32)

-- What is read of a `BatchProposed` event.
pub record BatchProposed : Type 0 where
  pub last_block_id : ℕ
  pub last_block_timestamp : ℕ
  pub blocks : List BlockParams

-- `(first..=last).collect()` by the number of its elements.
unfoldable pub count_up : ℕ → ℕ → List ℕ
count_up first zero = []
count_up first (suc n) = first ∷ count_up (first + 1) n

unfoldable pub block_numbers_proposed : BatchProposed → List ℕ
block_numbers_proposed event =
    let last = event.last_block_id in
    let first = add64 (saturating_sub last (length event.blocks)) 1 in
    count_up first (last + 1 - first)

-- The timestamps of a summary: the first block's, from the last one's and the shifts.
unfoldable pub summary_timestamps : ℕ → List BlockParams → ℕ × ℕ
summary_timestamps last_block_ts blocks = (
  saturating_sub last_block_ts (sum_by (λ (b : BlockParams). b.time_shift) blocks),
  last_block_ts,
)
