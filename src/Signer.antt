-- ===== src/Signer.antt =====
-- The signer with fixed nonces: crates/primitives/src/taiko/deterministic_signer.rs. The curve library
-- (k256) and alloy's signature type are the interface `Curve`; the laws that the code relies on stand in
-- `IsCurve`. A `B256` is its value as a big-endian number.
pub mod Modular
pub mod Equation
pub mod Deterministic
pub mod Tests
use taiko_mk.Prelude.{
  ℕ, ◌+◌, ◌-◌, ◌*◌, ◌%◌, ◌<◌, ◌≤◌, ◌≡◌, Bool, true, false, Option, none, some, List, [], ◌∷◌, ◌++◌,
  ltb, if◌then◌else◌,
}

-- `HALF_ORDER`.
abbrev pub half_order : ℕ
half_order = 0x7fffffff_ffffffff_ffffffff_ffffffff_5d576e73_57a4501d_dfe92f46_681b20a0

pub data DeterministicSignerError : Type 0 where
  invalid_private_key_bytes : DeterministicSignerError
  cannot_invert_zero : DeterministicSignerError
  k_too_large : ℕ → DeterministicSignerError
  failed_to_sign_hash : DeterministicSignerError

-- `Result<_, DeterministicSignerError>`, and the panics of `unwrap` and `expect`.
pub data SignResult (A : Type 0) : Type 0 where
  signed : A → SignResult A
  refused : DeterministicSignerError → SignResult A
  panicked : SignResult A

-- `Scalar` with its operators; `multiple k` is the affine point k * G, as its x-coordinate and
-- whether y is odd.
pub record Curve (Scalar Signature : Type 0) : Type 0 where
  pub modulus : ℕ
  pub value : Scalar → ℕ
  pub from_u128 : ℕ → Scalar
  pub from_repr : ℕ → Option Scalar
  pub add : Scalar → Scalar → Scalar
  pub mul : Scalar → Scalar → Scalar
  pub negate : Scalar → Scalar
  pub invert : Scalar → Option Scalar
  pub to_bytes : Scalar → List ℕ
  pub multiple : Scalar → ℕ × Bool
  pub signature_of : List ℕ → Option Signature

module _ {Scalar Signature : Type 0} (c : Curve Scalar Signature) where
  -- The scalar and whether the bytes overflow; `none` is the panic of `unwrap`.
  unfoldable pub scalar_from_bytes : ℕ → Option (Scalar × Bool)
  scalar_from_bytes bytes = elim (c.from_repr bytes) [
    | some scalar ↦ some (scalar, false)
    | none ↦ elim (c.from_repr (bytes % c.modulus)) [
      | some scalar_reduced ↦ some (scalar_reduced, true)
      | none ↦ none
    ]
  ]

  -- `recovery_id`: 1 for an odd y.
  abbrev pub parity : Bool → ℕ
  parity odd = if odd then 1 else 0

  abbrev pub to_array : Scalar → Scalar → ℕ → List ℕ
  to_array r s recovery_id = c.to_bytes r ++ c.to_bytes s ++ recovery_id ∷ []

  -- The end of the function: s above half of the order is negated, and the recovery id flipped.
  unfoldable pub low_s : Scalar → Scalar → Bool → List ℕ
  low_s r s odd = elim (ltb half_order (c.value s)) [
    | true ↦ to_array r (c.negate s) (1 - parity odd)
    | false ↦ to_array r s (parity odd)
  ]

  -- From the scalar k on, with the scalars of the message and of the key.
  unfoldable pub sign_scalars : ℕ → Scalar → Scalar → SignResult (List ℕ)
  sign_scalars k message_scalar secret_key_scalar =
      let (x, odd) = c.multiple (c.from_u128 k) in
      elim (scalar_from_bytes x) [
        | none ↦ panicked
        | some (_, true) ↦ refused (k_too_large k)
        | some (r, false) ↦ elim (c.invert (c.from_u128 k)) [
          | none ↦ refused cannot_invert_zero
          | some k_inv ↦
              signed (low_s r (c.mul (c.add message_scalar (c.mul r secret_key_scalar)) k_inv) odd)
        ]
      ]

  unfoldable pub sign_hash_with_fixed_k : ℕ → ℕ → ℕ → SignResult (List ℕ)
  sign_hash_with_fixed_k sk message k = elim (scalar_from_bytes message) [
    | none ↦ panicked
    | some (message_scalar, _) ↦ elim (scalar_from_bytes sk) [
      | none ↦ panicked
      | some (secret_key_scalar, _) ↦ sign_scalars k message_scalar secret_key_scalar
    ]
  ]

  -- One attempt: `next` is what follows when it is refused.
  unfoldable pub or_else : SignResult (List ℕ) → SignResult Signature → SignResult Signature
  or_else (signed bytes) next = elim (c.signature_of bytes) [
    | some signature ↦ signed signature
    | none ↦ panicked
  ]
  or_else (refused e) next = next
  or_else panicked next = panicked

  unfoldable pub sign_hash_deterministic : ℕ → ℕ → SignResult Signature
  sign_hash_deterministic secret_key hash =
      or_else (sign_hash_with_fixed_k secret_key hash 1)
        (or_else (sign_hash_with_fixed_k secret_key hash 2) (refused failed_to_sign_hash))

-- What k256 documents: scalars are the numbers below the odd order of the curve, with arithmetic
-- modulo that order; 65 bytes with a parity are a signature.
pub record IsCurve {Scalar Signature : Type 0} (c : Curve Scalar Signature) : Type 0 where
  pub modulus-half : c.modulus ≡ 2 * half_order + 1
  pub value-lt : (a : Scalar) → c.value a < c.modulus
  pub value-from_u128 : (k : ℕ) → c.value (c.from_u128 k) ≡ k % c.modulus
  pub value-from_repr : (v : ℕ) (a : Scalar) → c.from_repr v ≡ some a → c.value a ≡ v
  pub from_repr-some : (v : ℕ) → v < c.modulus → (a : Scalar) × (c.from_repr v ≡ some a)
  pub value-add : (a b : Scalar) → c.value (c.add a b) ≡ (c.value a + c.value b) % c.modulus
  pub value-mul : (a b : Scalar) → c.value (c.mul a b) ≡ (c.value a * c.value b) % c.modulus
  pub value-negate : (a : Scalar) → c.value (c.negate a) ≡ (c.modulus - c.value a) % c.modulus
  pub invert-inverse :
      (a i : Scalar) → c.invert a ≡ some i → (c.value i * c.value a) % c.modulus ≡ 1
  pub signature_of-some :
      (r s : Scalar) (v : ℕ)
      → v ≤ 1
      → (g : Signature) × (c.signature_of (c.to_bytes r ++ c.to_bytes s ++ v ∷ []) ≡ some g)
