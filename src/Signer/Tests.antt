-- ===== src/Signer/Tests.antt =====
-- A curve for the signer of crates/primitives/src/taiko/deterministic_signer.rs: numbers modulo the
-- order of secp256k1, with points whose x-coordinates are made up.
use native.Mathlib.Nat.{mod-mod, mod-lt}
use taiko_mk.Prelude.{
  ℕ, ◌+◌, ◌-◌, ◌*◌, ◌%◌, ◌≡◌, refl, true, false, Option, none, some, List, [], ◌∷◌, arith, ◌==◌,
  ltb, lt→ltb, Bool-cases, inl, inr, if◌then◌else◌,
}
use taiko_mk.Signer.{
  half_order, signed, Curve, IsCurve, scalar_from_bytes, low_s, sign_scalars,
  sign_hash_with_fixed_k, sign_hash_deterministic,
}
use taiko_mk.Signer.Deterministic.{Answer, sign_hash_deterministic-Answer}

abbrev order : ℕ
order = 2 * half_order + 1

-- The inverses of the two nonces.
abbrev invert_nonce : ℕ → Option ℕ
invert_nonce k =
    if k % order == 1 then some 1 else if k % order == 2 then some (half_order + 1) else none

abbrev pub curve : Curve ℕ (List ℕ)
curve = record {
  modulus = order;
  value = λ a. a % order;
  from_u128 = λ k. k % order;
  from_repr = λ v. if ltb v order then some v else none;
  add = λ a b. (a % order + b % order) % order;
  mul = λ a b. (a % order * (b % order)) % order;
  negate = λ a. (order - a % order) % order;
  invert = invert_nonce;
  to_bytes = λ a. a ∷ [];
  multiple = λ k. (k + 5, true);
  signature_of = λ bytes. some bytes;
}

inverse_of_nonce : (a i : ℕ) → invert_nonce a ≡ some i → (i % order * (a % order)) % order ≡ 1
inverse_of_nonce a i e = elim (Bool-cases (a % order == 1)) [
  | inl h ↦
      let one : a % order ≡ 1 = ground arith in
      let same : i ≡ 1 = ground arith in rw (same, one) (omega arith)
  | inr h ↦ elim (Bool-cases (a % order == 2)) [
    | inl k ↦
        let two : a % order ≡ 2 = ground arith in
        let half : i ≡ half_order + 1 = ground arith in rw (half, two) (omega arith)
    | inr k ↦ absurd (ground arith)
  ]
]

pub curve-IsCurve : IsCurve curve
curve-IsCurve = record {
  modulus-half = refl;
  value-lt = λ a. mod-lt a (omega arith);
  value-from_u128 = λ k. mod-mod k order;
  value-from_repr = λ v a e. ground arith;
  from_repr-some = λ v h. (v, rw (lt→ltb v order h) refl);
  value-add = λ a b. mod-mod _ order;
  value-mul = λ a b. mod-mod _ order;
  value-negate = λ a. mod-mod _ order;
  invert-inverse = inverse_of_nonce;
  signature_of-some = λ r s v h. (_, refl);
}

sign_hash_deterministic-Answer_example :
    Answer curve curve-IsCurve 77 1234 (sign_hash_deterministic curve 77 1234)
sign_hash_deterministic-Answer_example = sign_hash_deterministic-Answer curve curve-IsCurve 77 1234

-- The x-coordinate of 2 * G on secp256k1, whose y is even.
abbrev double_generator : ℕ
double_generator = 0xc6047f9441ed7d6d3045406e95c07cd85c778e4b8cef3ca7abac09b95c709ee5

abbrev double_curve : Curve ℕ (List ℕ)
double_curve = record curve { multiple = λ k. (double_generator, false) }

-- The key of the test in the source, and its first payload.
abbrev test_key : ℕ
test_key = 0x92954368afd3caa1f3ce3ead0069c1af414054aefe1ef9aeacc1bf426222ce38

abbrev first_payload : ℕ
first_payload = 0x44943399d1507f3ce7525e9be2f987c3db9136dc759cb7f92f742154196868b9

go_compatibility_test :
    sign_hash_with_fixed_k double_curve test_key first_payload 2
    ≡ signed (
        double_generator ∷ 0x38940d69b21d5b088beb706e9ebabe6422307e12863997a44239774467e240d5 ∷ 1
        ∷ [])
unfolding sign_hash_with_fixed_k sign_scalars scalar_from_bytes low_s
go_compatibility_test = refl

-- The second payload needs no flip.
go_compatibility_second_test :
    sign_hash_with_fixed_k double_curve test_key
      0x663d210fa6dba171546498489de1ba024b89db49e21662f91bf83cdffe788820 2
    ≡ signed (
        double_generator ∷ 0x5840695138a83611aa9dac67beb95aba7323429787a78df993f1c5c7f2c0ef7f ∷ 0
        ∷ [])
unfolding sign_hash_with_fixed_k sign_scalars scalar_from_bytes low_s
go_compatibility_second_test = refl
