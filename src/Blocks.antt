-- ===== src/Blocks.antt =====
-- L2 blocks with their anchors: crates/primitives/src/taiko/block.rs, and `PreconfirmedBlock` of
-- crates/primitives/src/taiko/batch.rs.
pub mod Contiguous
pub mod Outstanding
use taiko_mk.Prelude.{
  ℕ, ◌+◌, ◌-◌, Bool, true, false, not, Option, none, some, List, [], ◌∷◌, map, ◌==◌, leb,
  if◌then◌else◌, length, drop, head?, retain, is_nil, add64, saturating_sub, sort_by_key,
}
use taiko_mk.Config.{Address, BatchSettings}
use taiko_mk.Batch.{Header, PreconfirmedBlock, Batch, from_blocks_unchecked}

-- `TAIKO_GOLDEN_TOUCH_ACCOUNT` of crates/primitives/src/taiko/constants.rs.
abbrev pub taiko_golden_touch_account : Address
taiko_golden_touch_account = 0x7777_3536_7b36_bc9b_61c5_0022_d9d0_700d_b4ec

-- alloy's `Transaction`: the recovered signer and the envelope.
pub record Transaction (Tx : Type 0) : Type 0 where
  pub signer : Address
  pub inner : Tx

-- alloy's `Block`.
pub record Block (Tx : Type 0) : Type 0 where
  pub header : Header
  pub transactions : List (Transaction Tx)

pub record AnchoredBlock (Tx : Type 0) : Type 0 where
  pub block : Block Tx
  pub anchor : Header

pub record GapError : Type 0 where
  pub expected : ℕ
  pub got : ℕ

pub data GapResult {ℓ} (A : Type ℓ) : Type ℓ where
  ok : A → GapResult A
  err : GapError → GapResult A

module _ {Tx : Type 0} where
  -- `PreconfirmedBlock::new`.
  unfoldable pub preconfirm : Header → List Tx → PreconfirmedBlock Tx
  preconfirm header tx_list = record {
    timestamp = header.timestamp;
    number = header.number;
    coinbase = header.beneficiary;
    tx_list = tx_list;
  }

  -- The anchor transactions, signed by the golden touch account, are left out.
  unfoldable pub from_block : Block Tx → PreconfirmedBlock Tx
  from_block value = record {
    timestamp = value.header.timestamp;
    number = value.header.number;
    coinbase = value.header.beneficiary;
    tx_list =
        map (λ t. t.inner)
          (retain (λ t. not (t.signer == taiko_golden_touch_account)) value.transactions);
  }

  unfoldable pub into_preconfirmed : AnchoredBlock Tx → PreconfirmedBlock Tx
  unfolding from_block
  into_preconfirmed b = from_block b.block

  unfoldable pub anchored_id : AnchoredBlock Tx → ℕ
  anchored_id b = b.anchor.number

  abbrev pub block_number : AnchoredBlock Tx → ℕ
  block_number b = b.block.header.number

  -- The loop of `ContiguousAnchoredBlocks::new`: `expected` is `first_bn + i`.
  check_gaps : ℕ → ℕ → List (AnchoredBlock Tx) → Option GapError
  check_gaps first_bn i [] = none
  check_gaps first_bn i (b ∷ bs) =
      let rest = check_gaps first_bn (i + 1) bs in
      if block_number b == add64 first_bn i
      then rest
      else some (record { expected = add64 first_bn i; got = block_number b })

  contiguous_of : List (AnchoredBlock Tx) → GapResult (List (AnchoredBlock Tx))
  contiguous_of [] = ok []
  contiguous_of (b ∷ bs) = elim (check_gaps (block_number b) 0 (b ∷ bs)) [
    | none ↦ ok (b ∷ bs)
    | some e ↦ err e
  ]

  -- `ContiguousAnchoredBlocks::new`; a value of that type is its list.
  unfoldable pub new_contiguous : List (AnchoredBlock Tx) → GapResult (List (AnchoredBlock Tx))
  unfolding contiguous_of check_gaps
  new_contiguous blocks = contiguous_of (sort_by_key block_number blocks)

  -- `max_by_key`: of equal keys the last one.
  max_by_anchor : AnchoredBlock Tx → List (AnchoredBlock Tx) → AnchoredBlock Tx
  max_by_anchor best [] = best
  max_by_anchor best (b ∷ bs) =
      max_by_anchor (if leb (anchored_id best) (anchored_id b) then b else best) bs

  pub highest_anchor : List (AnchoredBlock Tx) → Header → Header
  unfolding max_by_anchor anchored_id
  highest_anchor [] safe_anchor = safe_anchor
  highest_anchor (b ∷ bs) safe_anchor = (max_by_anchor b bs).anchor

  unfoldable pub into_outstanding : List (AnchoredBlock Tx) → Header → BatchSettings → Batch Tx
  unfolding highest_anchor into_preconfirmed
  into_outstanding blocks safe_anchor settings =
      let highest_anchor_block = highest_anchor blocks safe_anchor in
      let outstanding = retain (λ b. anchored_id b == highest_anchor_block.number) blocks in
      let last_ones = drop (saturating_sub (length outstanding) settings.capacity) outstanding in
      from_blocks_unchecked highest_anchor_block settings (map into_preconfirmed last_ones)

  -- The `HashMap` as the list of its pairs.
  unfoldable pub basefee_map : List (AnchoredBlock Tx) → List (ℕ × ℕ)
  basefee_map [] = []
  basefee_map (b ∷ bs) =
      let rest = basefee_map bs in
      elim b.block.header.base_fee_per_gas [
        | none ↦ rest
        | some basefee ↦ (block_number b, basefee) ∷ rest
      ]
