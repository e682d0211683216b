-- ===== src/Signer/Equation.antt =====
-- The signature equation, and the low s, of what crates/primitives/src/taiko/deterministic_signer.rs
-- signs.
use native.Mathlib.Nat.{add-mod-mod, mod-eq_of_lt, mod-lt}
use taiko_mk.Prelude.{
  ℕ, ◌+◌, ◌-◌, ◌*◌, ◌%◌, ◌<◌, ◌≤◌, ◌≡◌, refl, sym, subst, ap, ◌∙◌, ◌⊎◌, inl, inr, Bool, true, false,
  Option, none, some, List, arith, ltb, ltb→lt, Bool-cases, Option-cases,
}
use taiko_mk.Signer.{
  half_order, DeterministicSignerError, SignResult, signed, refused, Curve, IsCurve,
  scalar_from_bytes, parity, to_array, low_s, sign_scalars, sign_hash_with_fixed_k,
}
use taiko_mk.Signer.Modular.{cancel_inverse}

lt_or_le : (a b : ℕ) → (a < b) ⊎ (b ≤ a)
lt_or_le a b = omega arith

-- The half of an odd order bounds one of a number and its negation.
negated_low :
    (n v : ℕ)
    → n ≡ 2 * half_order + 1
    → v < n
    → half_order < v
    → (n - v ≤ half_order) × (n - (n - v) ≡ v) × (n - v < n)
negated_low n v e lt big = omega arith

module _ {Scalar Signature : Type 0} (c : Curve Scalar Signature) where
  -- The bytes are r, s and the recovery id, where r is the x-coordinate of k * G and s is low. With the
  -- number z of the message and the key d, s * k is z + r * d modulo the order, or -s * k is, and then
  -- the recovery id is flipped.
  pub record IsSignature (k z d : ℕ) (bytes : List ℕ) : Type 0 where
    pub r : Scalar
    pub s : Scalar
    pub recovery_id : ℕ
    pub encoded : bytes ≡ to_array c r s recovery_id
    pub is_x : c.value r ≡ (c.multiple (c.from_u128 k)).0
    pub low : c.value s ≤ half_order
    pub is_bit : recovery_id ≤ 1
    pub equation :
        ((recovery_id ≡ parity c (c.multiple (c.from_u128 k)).1)
          × ((c.value s * c.value (c.from_u128 k)) % c.modulus ≡ (z + c.value r * d) % c.modulus))
        ⊎ ((recovery_id ≡ 1 - parity c (c.multiple (c.from_u128 k)).1)
            × (((c.modulus - c.value s) * c.value (c.from_u128 k)) % c.modulus
                ≡ (z + c.value r * d) % c.modulus))

  -- The nonce k cannot sign: its point is beyond the order, or it has no inverse.
  abbrev pub CannotSign : ℕ → Type 0
  CannotSign k = (c.modulus ≤ (c.multiple (c.from_u128 k)).0) ⊎ (c.invert (c.from_u128 k) ≡ none)

  -- What an attempt with the nonce k answers; there is no panic.
  pub data Attempt (k message sk : ℕ) : SignResult (List ℕ) → Type 0 where
    well_signed :
        (bytes : List ℕ)
        → IsSignature k (message % c.modulus) (sk % c.modulus) bytes
        → Attempt k message sk (signed bytes)
    gave_up : (e : DeterministicSignerError) → CannotSign k → Attempt k message sk (refused e)

  parity_bit : (odd : Bool) → (parity c odd ≤ 1) × (1 - parity c odd ≤ 1)
  parity_bit true = omega arith
  parity_bit false = omega arith

  module _ (law : IsCurve c) where
    low_s-IsSignature :
        (k z d : ℕ) (r s : Scalar)
        → c.value r ≡ (c.multiple (c.from_u128 k)).0
        → (c.value s * c.value (c.from_u128 k)) % c.modulus ≡ (z + c.value r * d) % c.modulus
        → IsSignature k z d (low_s c r s (c.multiple (c.from_u128 k)).1)
    unfolding low_s
    low_s-IsSignature k z d r s x e = elim (Bool-cases (ltb half_order (c.value s))) [
      | inl h ↦
          rw (low_s, h)
            (let (small, back, less) =
                negated_low c.modulus (c.value s) law.modulus-half (law.value-lt s)
                  (ltb→lt _ _ h) in
              let v : c.value (c.negate s) ≡ c.modulus - c.value s =
                law.value-negate s ∙ mod-eq_of_lt less in
              record {
                r = r;
                s = c.negate s;
                recovery_id = 1 - parity c (c.multiple (c.from_u128 k)).1;
                encoded = refl;
                is_x = x;
                low = rw v small;
                is_bit = (parity_bit _).1;
                equation = inr (refl, rw (v, back) e);
              })
      | inr h ↦
          rw (low_s, h)
            (record {
              r = r;
              s = s;
              recovery_id = parity c (c.multiple (c.from_u128 k)).1;
              encoded = refl;
              is_x = x;
              low = ground arith;
              is_bit = (parity_bit _).0;
              equation = inl (refl, e);
            })
    ]

    -- Bytes are read modulo the order, and the flag is set when that changed them.
    record Reads (bytes : ℕ) (read : Option (Scalar × Bool)) : Type 0 where
      scalar : Scalar
      overflow : Bool
      is_read : read ≡ some (scalar, overflow)
      reduced : c.value scalar ≡ bytes % c.modulus
      flag :
          ((overflow ≡ true) × (c.modulus ≤ bytes))
          ⊎ ((overflow ≡ false) × (c.value scalar ≡ bytes))

    positive : 1 < c.modulus
    positive = let e = law.modulus-half in omega arith

    from_repr-lt : (v : ℕ) (a : Scalar) → c.from_repr v ≡ some a → v < c.modulus
    from_repr-lt v a e = subst (◌< c.modulus) (law.value-from_repr v a e) (law.value-lt a)

    from_repr-none : (v : ℕ) → c.from_repr v ≡ none → c.modulus ≤ v
    from_repr-none v e = elim (lt_or_le v c.modulus) [
      | inl h ↦ let (a, q) = law.from_repr-some v h in absurd (cc)
      | inr h ↦ h
    ]

    scalar_from_bytes-Reads : (bytes : ℕ) → Reads bytes (scalar_from_bytes c bytes)
    unfolding scalar_from_bytes
    scalar_from_bytes-Reads bytes = elim (Option-cases (c.from_repr bytes)) [
      | inr (a, e) ↦
          rw (scalar_from_bytes, e)
            (record {
              scalar = a;
              overflow = false;
              is_read = refl;
              reduced = law.value-from_repr bytes a e ∙ sym (mod-eq_of_lt (from_repr-lt bytes a e));
              flag = inr (refl, law.value-from_repr bytes a e);
            })
      | inl e ↦
          let (a, q) =
            law.from_repr-some (bytes % c.modulus) (mod-lt bytes (omega (arith, positive))) in
          rw (scalar_from_bytes, e, q)
            (record {
              scalar = a;
              overflow = true;
              is_read = refl;
              reduced = law.value-from_repr _ a q;
              flag = inl (refl, from_repr-none bytes e);
            })
    ]

    equation_of :
        (m d r i k : Scalar)
        → c.invert k ≡ some i
        → (c.value (c.mul (c.add m (c.mul r d)) i) * c.value k) % c.modulus
          ≡ (c.value m + c.value r * c.value d) % c.modulus
    equation_of m d r i k e =
        ap (λ s. (s * c.value k) % c.modulus) (law.value-mul (c.add m (c.mul r d)) i)
        ∙ cancel_inverse (c.value (c.add m (c.mul r d))) (c.value i) (c.value k) c.modulus positive
            (law.value-lt _) (law.invert-inverse k i e)
        ∙ law.value-add m (c.mul r d)
        ∙ ap (λ p. (c.value m + p) % c.modulus) (law.value-mul r d)
        ∙ add-mod-mod (c.value m) (c.value r * c.value d) c.modulus

    sign_scalars-Attempt :
        (k message sk : ℕ) (m d : Scalar)
        → c.value m ≡ message % c.modulus
        → c.value d ≡ sk % c.modulus
        → Attempt k message sk (sign_scalars c k m d)
    unfolding sign_scalars
    sign_scalars-Attempt k message sk m d em ed =
        let read = scalar_from_bytes-Reads (c.multiple (c.from_u128 k)).0 in
        elim read.flag [
          | inl (big, h) ↦ rw (sign_scalars, read.is_read, big) (gave_up _ (inl h))
          | inr (fits, x) ↦ elim (Option-cases (c.invert (c.from_u128 k))) [
            | inl e ↦ rw (sign_scalars, read.is_read, fits, e) (gave_up _ (inr e))
            | inr (i, e) ↦
                rw (sign_scalars, read.is_read, fits, e)
                  (well_signed _ (
                    low_s-IsSignature k _ _ read.scalar _ x
                      (rw (← em, ← ed) (equation_of m d read.scalar i (c.from_u128 k) e))))
          ]
        ]

    -- For whatever key, message and nonce: an attempt does not panic. It is refused only for a nonce
    -- whose point is beyond the order of the curve or that has no inverse; otherwise its bytes satisfy
    -- the signature equation with a low s and the matching recovery id.
    pub sign_hash_with_fixed_k-Attempt :
        (sk message k : ℕ) → Attempt k message sk (sign_hash_with_fixed_k c sk message k)
    unfolding sign_hash_with_fixed_k
    sign_hash_with_fixed_k-Attempt sk message k =
        let m = scalar_from_bytes-Reads message in
        let d = scalar_from_bytes-Reads sk in
        rw (sign_hash_with_fixed_k, m.is_read, d.is_read)
          (sign_scalars-Attempt k message sk m.scalar d.scalar m.reduced d.reduced)
