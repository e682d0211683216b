-- ===== src/Anchor.antt =====
-- The L2 anchor contract: crates/chainio/src/taiko/anchor.rs. The ABI, the hash that is signed, the
-- recovery of signers and the node are outside; the signer is Signer.antt.
pub mod RoundTrip
mod Tests
use taiko_mk.Prelude.{ℕ, Bool, true, false, Option, none, some, List, [], ◌∷◌, ◌==◌, if◌then◌else◌}
use taiko_mk.Config.{Address}
use taiko_mk.Blocks.{taiko_golden_touch_account}
use taiko_mk.Production.{taiko_anchor_v3_gas_limit}
use taiko_mk.Signer.{SignResult, signed, refused, panicked, Curve, sign_hash_deterministic}

pub record BaseFeeConfig : Type 0 where
  pub adjustment_quotient : ℕ
  pub sharing_pctg : ℕ
  pub gas_issuance_per_second : ℕ
  pub min_gas_excess : ℕ
  pub max_gas_issuance_per_block : ℕ

-- The same type in the bindings of the inbox, crates/chainio/src/taiko/inbox.rs.
pub record InboxBaseFeeConfig : Type 0 where
  pub inbox_adjustment_quotient : ℕ
  pub inbox_sharing_pctg : ℕ
  pub inbox_gas_issuance_per_second : ℕ
  pub inbox_min_gas_excess : ℕ
  pub inbox_max_gas_issuance_per_block : ℕ

unfoldable pub from_inbox_config : InboxBaseFeeConfig → BaseFeeConfig
from_inbox_config config = record {
  adjustment_quotient = config.inbox_adjustment_quotient;
  sharing_pctg = config.inbox_sharing_pctg;
  gas_issuance_per_second = config.inbox_gas_issuance_per_second;
  min_gas_excess = config.inbox_min_gas_excess;
  max_gas_issuance_per_block = config.inbox_max_gas_issuance_per_block;
}

pub record TaikoAnchorTxInput : Type 0 where
  pub anchor_block_id : ℕ
  pub anchor_state_root : ℕ
  pub parent_gas_used : ℕ
  pub base_fee_config : BaseFeeConfig
  pub signal_slots : List ℕ

-- `anchorV3Call`, with its arguments.
pub record AnchorCall : Type 0 where
  pub call_anchor_block_id : ℕ
  pub call_anchor_state_root : ℕ
  pub call_parent_gas_used : ℕ
  pub call_base_fee_config : BaseFeeConfig
  pub call_signal_slots : List ℕ

unfoldable pub to_call : TaikoAnchorTxInput → AnchorCall
to_call value = record {
  call_anchor_block_id = value.anchor_block_id;
  call_anchor_state_root = value.anchor_state_root;
  call_parent_gas_used = value.parent_gas_used;
  call_base_fee_config = value.base_fee_config;
  call_signal_slots = value.signal_slots;
}

unfoldable pub from_call : AnchorCall → TaikoAnchorTxInput
from_call anchor = record {
  anchor_block_id = anchor.call_anchor_block_id;
  anchor_state_root = anchor.call_anchor_state_root;
  parent_gas_used = anchor.call_parent_gas_used;
  base_fee_config = anchor.call_base_fee_config;
  signal_slots = anchor.call_signal_slots;
}

-- The EIP-1559 transaction before it is signed; the access list and the value are empty.
pub record AnchorTx : Type 0 where
  pub gas_limit : ℕ
  pub input : List ℕ
  pub chain_id : ℕ
  pub nonce : ℕ
  pub to : Address
  pub max_fee_per_gas : ℕ
  pub max_priority_fee_per_gas : ℕ

pub record SignedTx (Signature : Type 0) : Type 0 where
  pub tx : AnchorTx
  pub signature : Signature

pub data TaikoAnchorError : Type 0 where
  anchor_transaction_not_found : TaikoAnchorError
  invalid_signer : Address → Address → TaikoAnchorError
  transaction_data_decode_error : TaikoAnchorError

pub data Decoded : Type 0 where
  ok : TaikoAnchorTxInput → Decoded
  err : TaikoAnchorError → Decoded

-- `TAIKO_GOLDEN_TOUCH_PRIVATE_KEY`.
abbrev pub taiko_golden_touch_private_key : ℕ
taiko_golden_touch_private_key = 0x92954368afd3caa1f3ce3ead0069c1af414054aefe1ef9aeacc1bf426222ce38

-- The contract's address and chain, and what stands outside.
pub record AnchorContract (Signature : Type 0) : Type 0 where
  pub id : ℕ
  pub address : Address
  pub abi_encode : AnchorCall → List ℕ
  pub abi_decode : List ℕ → Option AnchorCall
  pub signature_hash : AnchorTx → ℕ
  pub signer : SignedTx Signature → Address

module _ {Scalar Signature : Type 0} (c : Curve Scalar Signature)
    (contract : AnchorContract Signature) where
  -- Of the golden touch account; the caller `from` is not in the transaction.
  unfoldable pub unsigned_anchor_tx : TaikoAnchorTxInput → ℕ → ℕ → AnchorTx
  unfolding to_call
  unsigned_anchor_tx value nonce l2_base_fee = record {
    gas_limit = taiko_anchor_v3_gas_limit;
    input = contract.abi_encode (to_call value);
    chain_id = contract.id;
    nonce = nonce;
    to = contract.address;
    max_fee_per_gas = l2_base_fee;
    max_priority_fee_per_gas = 0;
  }

  unfoldable pub with_signature : AnchorTx → SignResult Signature → Option (SignedTx Signature)
  with_signature tx (signed signature) = some (record { tx = tx; signature = signature })
  with_signature tx (refused e) = none
  with_signature tx panicked = none

  -- `transaction_count` is the reply for the account at the parent block. A panic of the signer, which
  -- does not occur, counts as no transaction.
  unfoldable pub build_anchor_v3_tx :
      Option ℕ → TaikoAnchorTxInput → ℕ → Option (SignedTx Signature)
  unfolding unsigned_anchor_tx with_signature
  build_anchor_v3_tx none value l2_base_fee = none
  build_anchor_v3_tx (some nonce) value l2_base_fee =
      let tx = unsigned_anchor_tx value nonce l2_base_fee in
      with_signature tx
        (sign_hash_deterministic c taiko_golden_touch_private_key (contract.signature_hash tx))

  unfoldable pub decode_anchor_tx_data : List ℕ → Decoded
  unfolding from_call
  decode_anchor_tx_data bytes = elim (contract.abi_decode bytes) [
    | some tx_data ↦ ok (from_call tx_data)
    | none ↦ err transaction_data_decode_error
  ]

  -- The transactions of the block, unless it has hashes only.
  unfoldable pub decode_anchor_tx_from_full_block : Option (List (SignedTx Signature)) → Decoded
  unfolding decode_anchor_tx_data
  decode_anchor_tx_from_full_block none = err anchor_transaction_not_found
  decode_anchor_tx_from_full_block (some []) = err anchor_transaction_not_found
  decode_anchor_tx_from_full_block (some (first ∷ txs)) =
      elim (contract.signer first == taiko_golden_touch_account) [
        | true ↦ decode_anchor_tx_data first.tx.input
        | false ↦ err (invalid_signer (contract.signer first) taiko_golden_touch_account)
      ]
