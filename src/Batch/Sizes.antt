-- ===== src/Batch/Sizes.antt =====
-- Why a block fits or not: `doesnt_fit` in crates/primitives/src/taiko/batch.rs.
use taiko_mk.Prelude.{
  ℕ, ◌+◌, ◌≤◌, ◌<◌, ◌≡◌, refl, Option, none, some, List, [], ◌∷◌, ◌++◌, arith, length, sum_by,
  sum_by-append,
}
use taiko_mk.Batch.{
  Header, PreconfirmedBlock, Batch, DoesntFitBlockReason, capacity, target_size, anchor_changed,
  AddBlockResult, added, full, block_raw_size, raw_size, doesnt_fit, retain_blocks_before,
  take_and_reset, place_block, add_block_and_reset_if_full,
}

module _ {Tx : Type 0} (encoded_length : Tx → ℕ) (estimate : ℕ → ℕ) where
  -- The reason holds of a batch and the transactions of a block.
  abbrev pub Explains : DoesntFitBlockReason → Batch Tx → List Tx → Type 0
  Explains capacity b tx_list = length b.blocks ≡ b.settings.capacity
  Explains (target_size actual target) b tx_list =
      (actual ≡ estimate (raw_size encoded_length b + sum_by encoded_length tx_list))
      × (target ≡ b.settings.target_compressed_size)
      × (target < actual)
  Explains (anchor_changed old new) b tx_list = ⊥

  doesnt_fit-Explains :
      (b : Batch Tx) (tx_list : List Tx) (reason : DoesntFitBlockReason)
      → doesnt_fit encoded_length estimate b tx_list ≡ some reason
      → Explains reason b tx_list
  unfolding doesnt_fit
  doesnt_fit-Explains b tx_list capacity h = ground arith
  doesnt_fit-Explains b tx_list (target_size actual target) h = ground arith
  doesnt_fit-Explains b tx_list (anchor_changed old new) h = ground arith

  raw_size-append :
      (b : Batch Tx) (x : PreconfirmedBlock Tx)
      → raw_size encoded_length (record b { blocks = b.blocks ++ x ∷ [] })
        ≡ raw_size encoded_length b + sum_by encoded_length x.tx_list
  unfolding raw_size block_raw_size
  raw_size-append b x =
      omega (arith, sum_by-append (block_raw_size encoded_length) b.blocks (x ∷ []))

  doesnt_fit-le :
      (b : Batch Tx) (tx_list : List Tx)
      → doesnt_fit encoded_length estimate b tx_list ≡ none
      → estimate (raw_size encoded_length b + sum_by encoded_length tx_list)
        ≤ b.settings.target_compressed_size
  unfolding doesnt_fit
  doesnt_fit-le b tx_list h = ground arith

  -- What the result says of the batch that stays, or of the one that is handed back.
  abbrev pub Reports : Batch Tx → PreconfirmedBlock Tx → AddBlockResult Tx → Type 0
  Reports after x (added raw) =
      (raw ≡ raw_size encoded_length after) × (estimate raw ≤ after.settings.target_compressed_size)
  Reports after x (full reason b) = Explains reason b x.tx_list

  place_block-Reports :
      (o : Option DoesntFitBlockReason) (b : Batch Tx) (x : PreconfirmedBlock Tx)
      (new_anchor : Header)
      → doesnt_fit encoded_length estimate b x.tx_list ≡ o
      → let (after, result) = place_block encoded_length estimate o b x new_anchor in
        Reports after x result
  unfolding place_block take_and_reset
  place_block-Reports none b x new_anchor h =
      (refl, rw (raw_size-append b x) (doesnt_fit-le b x.tx_list h))
  place_block-Reports (some reason) b x new_anchor h = doesnt_fit-Explains b x.tx_list reason h

  -- A block that was added leaves the batch with the size that is reported, which compresses to at
  -- most the target by the estimate. A batch that is handed back was full in the way that the
  -- reason says: at its capacity, or the estimate with the new block above the target, by the sizes
  -- in the reason; never because of the anchor.
  add_block-Reports :
      (b : Batch Tx) (x : PreconfirmedBlock Tx) (new_anchor : Header)
      → let (after, result) = add_block_and_reset_if_full encoded_length estimate b x new_anchor in
        Reports after x result
  unfolding add_block_and_reset_if_full
  add_block-Reports b x new_anchor =
      place_block-Reports _ (retain_blocks_before b x.number) x new_anchor refl
