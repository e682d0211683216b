-- ===== src/Signer/Deterministic.antt =====
-- The two nonces that `sign_hash_deterministic` tries:
-- crates/primitives/src/taiko/deterministic_signer.rs.
use taiko_mk.Prelude.{ℕ, ◌%◌, ◌≡◌, refl, ◌⊎◌, inl, inr, some, List}
use taiko_mk.Signer.{
  failed_to_sign_hash, SignResult, signed, refused, Curve, IsCurve, or_else,
  sign_hash_deterministic,
}
use taiko_mk.Signer.Equation.{
  IsSignature, CannotSign, Attempt, well_signed, gave_up, sign_hash_with_fixed_k-Attempt,
}

module _ {Scalar Signature : Type 0} (c : Curve Scalar Signature) (law : IsCurve c) where
  -- A signature of the hash with one of the two nonces, or none when both cannot sign.
  pub data Answer (sk hash : ℕ) : SignResult Signature → Type 0 where
    signed_with :
        (k : ℕ)
        → (k ≡ 1) ⊎ (k ≡ 2)
        → (bytes : List ℕ) → IsSignature c k (hash % c.modulus) (sk % c.modulus) bytes
        → (signature : Signature) → c.signature_of bytes ≡ some signature
        → Answer sk hash (signed signature)
    no_nonce : CannotSign c 1 → CannotSign c 2 → Answer sk hash (refused failed_to_sign_hash)

  or_else-Answer :
      (sk hash k : ℕ) (attempt : SignResult (List ℕ)) (next : SignResult Signature)
      → (k ≡ 1) ⊎ (k ≡ 2)
      → Attempt c k hash sk attempt
      → (CannotSign c k → Answer sk hash next)
      → Answer sk hash (or_else c attempt next)
  unfolding or_else
  or_else-Answer sk hash k _ next which (well_signed bytes h) later =
      let (g, e) = law.signature_of-some h.r h.s h.recovery_id h.is_bit in
      let found : c.signature_of bytes ≡ some g = rw h.encoded e in
      rw (or_else, found) (signed_with k which bytes h g found)
  or_else-Answer sk hash k _ next which (gave_up e h) later = later h

  -- A hash is signed with the nonce 1 or 2: the bytes satisfy the signature equation with a low s and
  -- are accepted as a signature. It fails only when neither nonce can sign, and it never panics.
  pub sign_hash_deterministic-Answer :
      (sk hash : ℕ) → Answer sk hash (sign_hash_deterministic c sk hash)
  unfolding sign_hash_deterministic
  sign_hash_deterministic-Answer sk hash =
      or_else-Answer sk hash 1 _ _ (inl refl) (sign_hash_with_fixed_k-Attempt c law sk hash 1) λ h1.
        or_else-Answer sk hash 2 _ _ (inr refl) (sign_hash_with_fixed_k-Attempt c law sk hash 2)
          λ h2. no_nonce h1 h2
