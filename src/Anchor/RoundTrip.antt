-- ===== src/Anchor/RoundTrip.antt =====
-- An anchor transaction that is built is decoded to its input: crates/chainio/src/taiko/anchor.rs.
use taiko_mk.Prelude.{ℕ, ◌%◌, ◌<◌, ◌⊎◌, inl, inr, arith, ◌≡◌, refl, Option, none, some, List, ◌∷◌}
use taiko_mk.Blocks.{taiko_golden_touch_account}
use taiko_mk.Production.{taiko_anchor_v3_gas_limit}
use taiko_mk.Signer.{SignResult, Curve, IsCurve}
use taiko_mk.Signer.Equation.{IsSignature, CannotSign}
use taiko_mk.Signer.Deterministic.{Answer, signed_with, no_nonce, sign_hash_deterministic-Answer}
use taiko_mk.Anchor.{
  TaikoAnchorTxInput, AnchorCall, AnchorTx, SignedTx, ok, to_call, from_call,
  taiko_golden_touch_private_key, AnchorContract, unsigned_anchor_tx, with_signature,
  build_anchor_v3_tx, decode_anchor_tx_data, decode_anchor_tx_from_full_block,
}

zero_or_positive : (n : ℕ) → (n ≡ 0) ⊎ (0 < n)
zero_or_positive n = omega arith

module _ {Scalar Signature : Type 0} (c : Curve Scalar Signature)
    (contract : AnchorContract Signature) where
  -- The ABI decodes what it encodes. Recovery finds the golden touch account from an ECDSA signature with
  -- its key: from bytes r, s and a recovery id that satisfy the signature equation for the hash, as long
  -- as s is not 0.
  pub record IsAnchorContract : Type 0 where
    pub abi_decode-encode :
        (call : AnchorCall) → contract.abi_decode (contract.abi_encode call) ≡ some call
    pub signer-golden :
        (tx : AnchorTx) (signature : Signature) (k : ℕ) (bytes : List ℕ)
        (h : IsSignature c k
          (contract.signature_hash tx % c.modulus)
          (taiko_golden_touch_private_key % c.modulus)
          bytes)
        → 0 < c.value h.s
        → c.signature_of bytes ≡ some signature
        → contract.signer (record { tx = tx; signature = signature }) ≡ taiko_golden_touch_account

  -- What becomes of an anchor transaction: whatever transactions follow it in the block, its input is
  -- read back from there, unless its signature has the s of 0. Without one the node has not answered, or
  -- neither nonce can sign.
  pub data Outcome (count : Option ℕ) (value : TaikoAnchorTxInput)
      : Option (SignedTx Signature) → Type 0 where
    anchored :
        (t : SignedTx Signature)
        → count ≡ some t.tx.nonce
        → t.tx.gas_limit ≡ taiko_anchor_v3_gas_limit
        → ((txs : List (SignedTx Signature))
            → decode_anchor_tx_from_full_block c contract (some (t ∷ txs)) ≡ ok value)
        → Outcome count value (some t)
    zero_s :
        (t : SignedTx Signature) (k : ℕ) (bytes : List ℕ)
        (h : IsSignature c k
          (contract.signature_hash t.tx % c.modulus)
          (taiko_golden_touch_private_key % c.modulus)
          bytes)
        → c.signature_of bytes ≡ some t.signature
        → c.value h.s ≡ 0
        → Outcome count value (some t)
    no_count : count ≡ none → Outcome count value none
    unsignable : CannotSign c 1 → CannotSign c 2 → Outcome count value none

  decode-of :
      (t : SignedTx Signature) (txs : List (SignedTx Signature)) (call : AnchorCall)
      → contract.signer t ≡ taiko_golden_touch_account
      → contract.abi_decode t.tx.input ≡ some call
      → decode_anchor_tx_from_full_block c contract (some (t ∷ txs)) ≡ ok (from_call call)
  unfolding decode_anchor_tx_from_full_block decode_anchor_tx_data
  decode-of t txs call golden decoded =
      rw (decode_anchor_tx_from_full_block, golden, decode_anchor_tx_data, decoded) refl

  module _ (curve_law : IsCurve c) (law : IsAnchorContract) where
    with_signature-Outcome :
        (nonce fee : ℕ) (value : TaikoAnchorTxInput) (r : SignResult Signature)
        → let tx = unsigned_anchor_tx c contract value nonce fee in
          Answer c curve_law taiko_golden_touch_private_key (contract.signature_hash tx) r
          → Outcome (some nonce) value (with_signature c contract tx r)
    unfolding with_signature to_call from_call unsigned_anchor_tx
    with_signature-Outcome nonce fee value _ (signed_with k which bytes h signature found) =
        elim (zero_or_positive (c.value h.s)) [
          | inl e ↦ zero_s _ k bytes h found e
          | inr p ↦ anchored _ refl refl λ txs.
              decode-of _ txs (to_call value) (law.signer-golden _ signature k bytes h p found)
                (law.abi_decode-encode (to_call value))
        ]
    with_signature-Outcome nonce fee value _ (no_nonce h1 h2) = unsignable h1 h2

    -- An anchor transaction of the golden touch account with the nonce that the node gave for it is
    -- built, and from a block that begins with it the input is read back, if its s is not 0. None is
    -- built only when the node does not answer or neither fixed nonce of the signer can sign.
    pub build_anchor_v3_tx-Outcome :
        (count : Option ℕ) (value : TaikoAnchorTxInput) (l2_base_fee : ℕ)
        → Outcome count value (build_anchor_v3_tx c contract count value l2_base_fee)
    unfolding build_anchor_v3_tx
    build_anchor_v3_tx-Outcome none value fee = no_count refl
    build_anchor_v3_tx-Outcome (some nonce) value fee =
        with_signature-Outcome nonce fee value _ (sign_hash_deterministic-Answer c curve_law _ _)
