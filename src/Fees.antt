-- ===== src/Fees.antt =====
-- The fee hints of a blob transaction: `BlobTxFeesHints` in crates/primitives/src/blob.rs.
-- A method on `&mut self` returns the new hints.
pub mod Bounds
use taiko_mk.Prelude.{
  ℕ, ◌+◌, ◌-◌, ◌*◌, ◌/◌, ◌%◌, ◌^◌, Bool, true, false, ltb, if◌then◌else◌, min, saturating_sub,
}

abbrev pub u128_mod : ℕ
u128_mod = 2 ^ 128

abbrev pub u128_max : ℕ
u128_max = 0xffff_ffff_ffff_ffff_ffff_ffff_ffff_ffff

abbrev pub add128 : ℕ → ℕ → ℕ
add128 a b = (a + b) % u128_mod

abbrev pub sub128 : ℕ → ℕ → ℕ
sub128 a b = (a + u128_mod - b) % u128_mod

abbrev pub mul128 : ℕ → ℕ → ℕ
mul128 a b = (a * b) % u128_mod

abbrev pub saturating_add128 : ℕ → ℕ → ℕ
saturating_add128 a b = min (a + b) u128_max

pub record BlobTxFeesHints : Type 0 where
  pub max_priority_fee_per_gas : ℕ
  pub max_fee_per_gas : ℕ
  pub blob_fee_per_gas : ℕ

-- `Eip1559Estimation` of alloy.
pub record Eip1559Estimation : Type 0 where
  pub max_fee_per_gas : ℕ
  pub max_priority_fee_per_gas : ℕ

unfoldable pub new : ℕ → ℕ → ℕ → BlobTxFeesHints
new max_priority_fee_per_gas max_fee_per_gas blob_fee_per_gas = record {
  max_priority_fee_per_gas = max_priority_fee_per_gas;
  max_fee_per_gas = max_fee_per_gas;
  blob_fee_per_gas = blob_fee_per_gas;
}

unfoldable pub from_estimation : Eip1559Estimation → ℕ → BlobTxFeesHints
from_estimation e blob_fee_per_gas = record {
  max_priority_fee_per_gas = e.max_priority_fee_per_gas;
  max_fee_per_gas = e.max_fee_per_gas;
  blob_fee_per_gas = blob_fee_per_gas;
}

unfoldable pub double : BlobTxFeesHints → BlobTxFeesHints
double h = record {
  max_priority_fee_per_gas = mul128 h.max_priority_fee_per_gas 2;
  max_fee_per_gas = mul128 h.max_fee_per_gas 2;
  blob_fee_per_gas = mul128 h.blob_fee_per_gas 2;
}

unfoldable pub with_next_block_increase : BlobTxFeesHints → BlobTxFeesHints
with_next_block_increase h =
    let base_fee = sub128 h.max_fee_per_gas h.max_priority_fee_per_gas in
    let base_fee_increased = add128 (mul128 base_fee 1_125 / 1_000) 1 in
    let max_fee_per_gas_increased = add128 (sub128 h.max_fee_per_gas base_fee) base_fee_increased in
    let blob_base_fee_increased = add128 (mul128 h.blob_fee_per_gas 1_125 / 1_000) 1 in
    record {
      max_priority_fee_per_gas = h.max_priority_fee_per_gas;
      max_fee_per_gas = max_fee_per_gas_increased;
      blob_fee_per_gas = blob_base_fee_increased;
    }

unfoldable pub with_enforced_min_batch_tip_wei : BlobTxFeesHints → ℕ → BlobTxFeesHints
with_enforced_min_batch_tip_wei h tip =
    let diff = saturating_sub tip h.max_priority_fee_per_gas in
    let raised : BlobTxFeesHints = record {
      max_priority_fee_per_gas = add128 tip 1;
      max_fee_per_gas = add128 (add128 h.max_fee_per_gas diff) 1;
      blob_fee_per_gas = add128 h.blob_fee_per_gas 1;
    } in
    if ltb 0 diff then raised else h

-- `u128::div_ceil` at 10.
abbrev pub div_ceil_10 : ℕ → ℕ
div_ceil_10 n = if ltb 0 (n % 10) then n / 10 + 1 else n / 10

-- The inner `if` of `bump_base_fee`.
raise_priority : BlobTxFeesHints → ℕ → BlobTxFeesHints
raise_priority h new_base_fee =
    let priority = div_ceil_10 new_base_fee in
    let removed = saturating_sub h.max_fee_per_gas h.max_priority_fee_per_gas in
    let raised : BlobTxFeesHints = record h {
      max_priority_fee_per_gas = priority;
      max_fee_per_gas = saturating_add128 removed priority;
    } in
    if ltb h.max_priority_fee_per_gas (new_base_fee / 10) then raised else h

unfoldable pub bump_base_fee : BlobTxFeesHints → ℕ → BlobTxFeesHints × Bool
unfolding raise_priority
bump_base_fee h new_base_fee =
    let max_fee = add128 new_base_fee h.max_priority_fee_per_gas in
    if ltb new_base_fee (saturating_sub h.max_fee_per_gas h.max_priority_fee_per_gas)
    then (h, false)
    else (raise_priority (record h { max_fee_per_gas = max_fee }) new_base_fee, true)
