-- ===== src/Anchor/Tests.antt =====
-- A contract for crates/chainio/src/taiko/anchor.rs, with the arguments of a call as its encoding.
use native.Mathlib.Nat.{mod-mod}
use taiko_mk.Prelude.{
  ℕ, ◌+◌, ◌-◌, ◌*◌, ◌%◌, ◌<◌, ◌≡◌, ◌∙◌, ap, subst, ◌⊎◌, inl, inr, Bool, true, false, ◌==◌, ◌&&◌,
  ◌||◌, arith, if◌then◌else◌, refl, Option, none, some, List, [], ◌∷◌,
}
use taiko_mk.Blocks.{taiko_golden_touch_account}
use taiko_mk.Signer.Tests.{curve, curve-IsCurve}
use taiko_mk.Signer.Equation.{IsSignature}
use taiko_mk.Anchor.{
  AnchorTx, taiko_golden_touch_private_key, TaikoAnchorTxInput, AnchorCall, AnchorContract,
  build_anchor_v3_tx,
}
use taiko_mk.Anchor.RoundTrip.{IsAnchorContract, Outcome, build_anchor_v3_tx-Outcome}

abbrev encode : AnchorCall → List ℕ
encode a =
    a.call_anchor_block_id ∷ a.call_anchor_state_root ∷ a.call_parent_gas_used
    ∷ a.call_base_fee_config.adjustment_quotient ∷ a.call_base_fee_config.sharing_pctg
    ∷ a.call_base_fee_config.gas_issuance_per_second ∷ a.call_base_fee_config.min_gas_excess
    ∷ a.call_base_fee_config.max_gas_issuance_per_block ∷ a.call_signal_slots

abbrev decode : List ℕ → Option AnchorCall
decode (number ∷ root ∷ used ∷ q ∷ p ∷ g ∷ m ∷ b ∷ slots) = some (record {
  call_anchor_block_id = number;
  call_anchor_state_root = root;
  call_parent_gas_used = used;
  call_base_fee_config = record {
    adjustment_quotient = q;
    sharing_pctg = p;
    gas_issuance_per_second = g;
    min_gas_excess = m;
    max_gas_issuance_per_block = b;
  };
  call_signal_slots = slots;
})
decode _ = none

-- The two forms of the signature equation, with the number that belongs to the nonce.
abbrev fits : ℕ → ℕ → ℕ → ℕ → Bool
fits recovery_id s k right =
    recovery_id == 1 && (s * k) % curve.modulus == right
    || recovery_id == 0 && ((curve.modulus - s) * k) % curve.modulus == right

abbrev right_side : ℕ → ℕ → ℕ
right_side hash r =
    (hash % curve.modulus + r * (taiko_golden_touch_private_key % curve.modulus)) % curve.modulus

-- Recovery by trying the golden key: the signature's nonce is read off r, and a recovery id of 1 is that
-- of the point, whose y is always odd here. Other signatures give the account 0.
abbrev verify : ℕ → List ℕ → Bool
verify hash (r ∷ s ∷ recovery_id ∷ _) =
    fits recovery_id (s % curve.modulus) (r % curve.modulus - 5)
      (right_side hash (r % curve.modulus))
verify hash _ = false

abbrev contract : AnchorContract (List ℕ)
contract = record {
  id = 167000;
  address = 10001;
  abi_encode = encode;
  abi_decode = decode;
  signature_hash = λ tx. tx.nonce + 17;
  signer = λ t. if verify (t.tx.nonce + 17) t.signature then taiko_golden_touch_account else 0;
}

fits_lem :
    (recovery_id s k right : ℕ)
    → ((recovery_id ≡ 1) × ((s * k) % curve.modulus ≡ right))
      ⊎ ((recovery_id ≡ 0) × (((curve.modulus - s) * k) % curve.modulus ≡ right))
    → fits recovery_id s k right ≡ true
fits_lem recovery_id s k right (inl (e, f)) = rw (e, f) (ground arith)
fits_lem recovery_id s k right (inr (e, f)) = rw (e, f) (ground arith)

less_five : (a b : ℕ) → a ≡ b + 5 → a - 5 ≡ b
less_five a b e = omega arith

some_inj : {a b : List ℕ} → some b ≡ some a → a ≡ b
some_inj e = cc

recovers :
    (tx : AnchorTx) (signature : List ℕ) (k : ℕ) (bytes : List ℕ)
    (h : IsSignature curve k
      (contract.signature_hash tx % curve.modulus)
      (taiko_golden_touch_private_key % curve.modulus)
      bytes)
    → 0 < curve.value h.s
    → curve.signature_of bytes ≡ some signature
    → contract.signer (record { tx = tx; signature = signature }) ≡ taiko_golden_touch_account
recovers tx signature k bytes h p e =
    let hash : ℕ = contract.signature_hash tx in
    let same : signature ≡ h.r ∷ h.s ∷ h.recovery_id ∷ [] = some_inj e ∙ h.encoded in
    let nonce : h.r % curve.modulus - 5 ≡ k % curve.modulus = less_five _ _ h.is_x in
    let eq =
      subst
        (λ m.
          ((h.recovery_id ≡ 1)
            × ((h.s % curve.modulus * m) % curve.modulus ≡ right_side hash (h.r % curve.modulus)))
          ⊎ ((h.recovery_id ≡ 0)
              × (((curve.modulus - h.s % curve.modulus) * m) % curve.modulus
                  ≡ right_side hash (h.r % curve.modulus))))
        (mod-mod k curve.modulus) h.equation in
    let ok : verify hash signature ≡ true =
      ap (verify hash) same
      ∙ ap (λ m. fits h.recovery_id (h.s % curve.modulus) m (right_side hash (h.r % curve.modulus)))
          nonce
      ∙ fits_lem h.recovery_id (h.s % curve.modulus) (k % curve.modulus) _ eq in
    rw ok refl

contract-IsAnchorContract : IsAnchorContract curve contract
contract-IsAnchorContract = record { abi_decode-encode = λ call. refl; signer-golden = recovers }

abbrev anchor_input : TaikoAnchorTxInput
anchor_input = record {
  anchor_block_id = 16;
  anchor_state_root = 99;
  parent_gas_used = 21000;
  base_fee_config = record {
    adjustment_quotient = 8;
    sharing_pctg = 75;
    gas_issuance_per_second = 5000000;
    min_gas_excess = 1340000000;
    max_gas_issuance_per_block = 600000000;
  };
  signal_slots = 3 ∷ [];
}

build_anchor_v3_tx-Outcome_example :
    Outcome curve contract
      (some 41)
      anchor_input
      (build_anchor_v3_tx curve contract (some 41) anchor_input 10)
build_anchor_v3_tx-Outcome_example =
    build_anchor_v3_tx-Outcome curve contract curve-IsCurve contract-IsAnchorContract (some 41)
      anchor_input 10
