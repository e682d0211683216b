-- ===== src/Fees/Bounds.antt =====
-- What each adjustment does to the fees: crates/primitives/src/blob.rs.
use taiko_mk.Prelude.{ℕ, ◌+◌, ◌-◌, ◌*◌, ◌/◌, ◌^◌, ◌≤◌, ◌<◌, ◌≡◌, ◌↔◌, true, false, arith}
use taiko_mk.Fees.{
  BlobTxFeesHints, with_next_block_increase, with_enforced_min_batch_tip_wei, bump_base_fee,
}

-- The priority fee is part of the maximum fee.
abbrev pub IsOrdered : BlobTxFeesHints → Type 0
IsOrdered h = h.max_priority_fee_per_gas ≤ h.max_fee_per_gas

-- Far below the range of `u128`: 2 ^ 112 wei is over 10 ^ 15 ETH for each unit of gas.
pub record IsSmall (h : BlobTxFeesHints) : Type 0 where
  pub max_small : h.max_fee_per_gas < 2 ^ 112
  pub blob_small : h.blob_fee_per_gas < 2 ^ 112

abbrev pub base_fee : BlobTxFeesHints → ℕ
base_fee h = h.max_fee_per_gas - h.max_priority_fee_per_gas

-- The increase for the next block keeps the priority fee, and raises the base fee and the blob fee
-- by more than 12.5%, but by no more than that and one wei. The fees are below 2 ^ 112, and the
-- priority fee is part of the maximum fee.
pub with_next_block_increase_lem :
    (h : BlobTxFeesHints)
    → IsOrdered h
    → IsSmall h
    → let after = with_next_block_increase h in
      (after.max_priority_fee_per_gas ≡ h.max_priority_fee_per_gas)
      × (base_fee h * 1125 < base_fee after * 1000)
      × (base_fee after * 1000 ≤ base_fee h * 1125 + 1000)
      × (h.blob_fee_per_gas * 1125 < after.blob_fee_per_gas * 1000)
      × (after.blob_fee_per_gas * 1000 ≤ h.blob_fee_per_gas * 1125 + 1000)
unfolding with_next_block_increase
with_next_block_increase_lem h o s = omega arith

-- Enforcing a tip leaves the priority fee at least the tip and the base fee as it was, and lowers
-- no fee; it changes nothing where the tip is met already.
pub with_enforced_min_batch_tip_wei_lem :
    (h : BlobTxFeesHints) (tip : ℕ)
    → IsOrdered h
    → IsSmall h
    → tip < 2 ^ 112
    → let after = with_enforced_min_batch_tip_wei h tip in
      (tip ≤ after.max_priority_fee_per_gas)
      × (base_fee after ≡ base_fee h)
      × (h.max_priority_fee_per_gas ≤ after.max_priority_fee_per_gas)
      × (h.blob_fee_per_gas ≤ after.blob_fee_per_gas)
      × (tip ≤ h.max_priority_fee_per_gas → after ≡ h)
unfolding with_enforced_min_batch_tip_wei
with_enforced_min_batch_tip_wei_lem h tip o s t = ground arith

-- A bump is refused, with the hints as they were, exactly when the new base fee is below the one
-- in the hints; otherwise the base fee becomes the new one, the priority fee is not lowered and is
-- at least a tenth of the new base fee, rounded down, the maximum fee is not lowered, and the blob
-- fee stays. The fees are below 2 ^ 112, and the priority fee is part of the maximum fee.
bump_base_fee_lem :
    (h : BlobTxFeesHints) (new_base_fee : ℕ)
    → IsOrdered h
    → IsSmall h
    → new_base_fee < 2 ^ 112
    → let (after, bumped) = bump_base_fee h new_base_fee in
      ((bumped ≡ false) ↔ (new_base_fee < base_fee h))
      × (bumped ≡ false → after ≡ h)
      × (bumped ≡ true
          → (base_fee after ≡ new_base_fee)
            × (h.max_priority_fee_per_gas ≤ after.max_priority_fee_per_gas)
            × (new_base_fee / 10 ≤ after.max_priority_fee_per_gas)
            × (h.max_fee_per_gas ≤ after.max_fee_per_gas)
            × (after.blob_fee_per_gas ≡ h.blob_fee_per_gas))
unfolding bump_base_fee
bump_base_fee_lem h new_base_fee o s t = ground arith
