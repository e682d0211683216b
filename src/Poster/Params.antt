-- ===== src/Poster/Params.antt =====
-- The parameters of a batch: `generate_batch` in crates/driver/src/batch_submitter/poster.rs.
use taiko_mk.Prelude.{
  ℕ, ◌+◌, ◌≤◌, ◌<◌, ◌≡◌, refl, ◌%◌, ◌^◌, u64_mod, sub64, List, [], ◌∷◌, ◌++◌, map, arith, length,
  take, drop,
}
use taiko_mk.Batch.{PreconfirmedBlock}
use taiko_mk.Poster.{BlockParams, cap_time_shift, blocks_params}

module _ {Tx : Type 0} where
  -- Each timestamp is at most 255 seconds after the one before it, and each block has less than
  -- 2 ^ 16 transactions.
  abbrev pub IsPostable : ℕ → List (PreconfirmedBlock Tx) → Type 0
  IsPostable previous [] = Unit
  IsPostable previous (x ∷ xs) =
      (previous ≤ x.timestamp)
      × (x.timestamp ≤ previous + 255)
      × (x.timestamp < u64_mod)
      × (length x.tx_list < 2 ^ 16)
      × IsPostable x.timestamp xs

  -- The blocks as a reader of the batch makes them: the timestamps from the shifts, and the
  -- transactions from their numbers.
  abbrev pub read_blocks : ℕ → List BlockParams → List Tx → List (ℕ × List Tx)
  read_blocks previous [] txs = []
  read_blocks previous (p ∷ ps) txs =
      (previous + p.time_shift, take p.num_transactions txs)
      ∷ read_blocks (previous + p.time_shift) ps (drop p.num_transactions txs)

  take-length : (xs ys : List Tx) → take (length xs) (xs ++ ys) ≡ xs
  take-length [] ys = ground arith
  take-length (x ∷ xs) ys = ground (arith, take-length xs ys)

  drop-length : (xs ys : List Tx) → drop (length xs) (xs ++ ys) ≡ ys
  drop-length [] ys = ground arith
  drop-length (x ∷ xs) ys = ground (arith, drop-length xs ys)

  -- A reader of the parameters and the transactions gets back the timestamp and the transactions
  -- of every block, when the timestamps, from `previous` on, never go back and never jump by more
  -- than 255 seconds, and the numbers of transactions fit 16 bits.
  pub read_blocks-blocks_params :
      (previous : ℕ) (xs : List (PreconfirmedBlock Tx))
      → IsPostable previous xs
      → let (params, txs) = blocks_params previous xs in
        read_blocks previous params txs
        ≡ map (λ (x : PreconfirmedBlock Tx). (x.timestamp, x.tx_list)) xs
  unfolding blocks_params
  read_blocks-blocks_params previous [] h = refl
  read_blocks-blocks_params previous (x ∷ xs) h =
      let (ge, le, small, few, rest) = h in
      let shift : previous + cap_time_shift (sub64 x.timestamp previous) ≡ x.timestamp =
        ground arith in
      let count : length x.tx_list % 2 ^ 16 ≡ length x.tx_list = omega arith in
      rw
        (
          shift,
          count,
          take-length x.tx_list (blocks_params x.timestamp xs).1,
          drop-length x.tx_list (blocks_params x.timestamp xs).1,
          read_blocks-blocks_params x.timestamp xs rest,
        )
        refl
