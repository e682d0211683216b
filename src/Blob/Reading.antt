-- ===== src/Blob/Reading.antt =====
-- Reads of crates/primitives/src/blob.rs: at the offset `min p (length input)` they show the input
-- from `p` on, with zeros after its end.
use taiko_mk.Prelude.{
  ℕ, ◌+◌, ◌-◌, ◌/◌, ◌%◌, ◌^◌, ◌≤◌, ◌<◌, min, ◌≡◌, refl, sym, ap, ap₂, ◌∙◌, arith,
}
use taiko_mk.Prelude.{inl, inr, false, List, ◌∷◌, ◌++◌, []}
use taiko_mk.Prelude.{ltb, length, length-drop, take, drop, Bool-cases}
use taiko_mk.Blob.{read_one_byte, read_31_bytes, first_chunk}
use taiko_mk.Blob.Bytes.{ok, zeros, pad_take, write_slice, first_or_zero}
use taiko_mk.Blob.Bytes.{
  byte_at-drop, drop_all, take-min, take-pad, length-take, slice-inside, write_slice-zeros,
  pad_take-nil,
}

min_below : (p l : ℕ) → p < l → min p l ≡ p
min_below p l h = omega arith

min_above : (p l : ℕ) → l ≤ p → min p l ≡ l
min_above p l h = omega arith

ltb-false : (a b : ℕ) → b ≤ a → ltb a b ≡ false
ltb-false a b h = ground arith

pub first_or_zero-drop_all : (p : ℕ) (xs : List ℕ) → length xs ≤ p → first_or_zero (drop p xs) ≡ 0
unfolding first_or_zero
first_or_zero-drop_all p xs h = rw (drop_all p xs h)

pub read_one_byte_at :
    (input : List ℕ) (p : ℕ)
    → read_one_byte input (min p (length input))
      ≡ ok (first_or_zero (drop p input), min (p + 1) (length input))
unfolding read_one_byte
read_one_byte_at input p = elim (Bool-cases (ltb p (length input))) [
  | inl e ↦
      rw (min_below p (length input) (ground arith), e, byte_at-drop input p (ground arith))
        (ap (λ (t : ℕ). ok (first_or_zero (drop p input), t)) (ground arith))
  | inr e ↦
      rw
        (
          min_above p (length input) (ground arith),
          ltb-false (length input) (length input) (omega arith),
        )
        (ap₂ (λ (a t : ℕ). ok (a, t)) (sym (first_or_zero-drop_all p input (ground arith)))
          (ground arith))
]

-- Bytes that are copied to the front of zeros.
pub padded :
    (n m : ℕ) (xs : List ℕ) → n ≡ min m (length xs) → take n xs ++ zeros (m - n) ≡ pad_take m xs
padded n m xs e =
    ap (λ (t : ℕ). take t xs ++ zeros (m - t)) e
    ∙ (ap₂ (λ (a : List ℕ) (t : ℕ). a ++ zeros t) (take-min m xs) (omega arith)
        ∙ sym (take-pad m xs))

-- The bytes that `n = min m (rest)` says are there, copied into a buffer of `m` zeros.
pub copied :
    (head : List ℕ) (m n : ℕ) (xs : List ℕ)
    → n ≡ min m (length xs)
    → write_slice (length head) (take n xs) (head ++ zeros m) ≡ ok (head ++ pad_take m xs)
copied head m n xs e =
    write_slice-zeros (length head) m (m - n) head (take n xs) refl
      (omega (arith, length-take n xs))
    ∙ ap (λ t. ok (head ++ t)) (padded n m xs e)

pub read_31_bytes_at :
    (input : List ℕ) (p : ℕ)
    → read_31_bytes input (min p (length input))
      ≡ ok (pad_take 31 (drop p input), min (p + 31) (length input))
unfolding read_31_bytes
read_31_bytes_at input p = elim (Bool-cases (ltb p (length input))) [
  | inl e ↦
      rw
        (
          min_below p (length input) (ground arith),
          e,
          slice-inside input p (min 31 (length input - p)) (ground arith),
          copied [] 31 (min 31 (length input - p)) (drop p input)
              (omega (arith, length-drop p input)),
        )
        (ap (λ (t : ℕ). ok (pad_take 31 (drop p input), t)) (ground arith))
  | inr e ↦
      rw
        (
          min_above p (length input) (ground arith),
          ltb-false (length input) (length input) (omega arith),
          drop_all p input (ground arith),
          pad_take-nil 31,
        )
        (ap (λ (t : ℕ). ok (zeros 31, t)) (ground arith))
]

-- The header of round 0.
abbrev pub header_bytes : List ℕ → List ℕ
header_bytes input =
    let ilen = length input % 2 ^ 32 in
    0 ∷ (ilen / 2 ^ 16 % 256) ∷ (ilen / 2 ^ 8 % 256) ∷ (ilen % 256) ∷ []

pub first_chunk_at :
    (input : List ℕ)
    → first_chunk input 0 ≡ ok (header_bytes input ++ pad_take 27 input, min 27 (length input))
unfolding first_chunk
first_chunk_at input =
    rw
      (
        slice-inside input 0 (min (31 - 4) (length input - 0)) (omega arith),
        copied (header_bytes input) 27 (min 27 (length input - 0)) input (omega arith),
      )
      (ap (λ (t : ℕ). ok (header_bytes input ++ pad_take 27 input, t)) (omega arith))
