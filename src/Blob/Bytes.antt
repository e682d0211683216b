-- ===== src/Blob/Bytes.antt =====
-- Byte buffers of crates/primitives/src/blob.rs: indexing, slices and `copy_from_slice`, with the
-- panic of an index out of range, and runs of zeros.
use taiko_mk.Prelude.{ℕ, zero, suc, ◌+◌, ◌-◌, ◌≤◌, ◌<◌, ◌≡◌, refl, sym, ap, ◌∙◌, arith}
use taiko_mk.Prelude.{Bool, true, false, ◌==◌, List, [], ◌∷◌, ◌++◌}
use taiko_mk.Prelude.{
  if◌then◌else◌, min, true, le→leb, subst, leb, length, length-append, take, drop, All,
}

-- `InvalidVersion { got }`, `InvalidLength { got }`, `InputTooLarge(len)` and
-- `DataDidNotFit { read_offset, data_len }` keep their numbers, `ExtraneousData` says which buffer
-- it means, and the errors of the KZG library and of the thread pool are opaque.
pub data BlobError : Type 0 where
  input_too_large : ℕ → BlobError
  data_did_not_fit : (read_offset data_len : ℕ) → BlobError
  kzg_error : BlobError
  thread_panicked : BlobError
  invalid_version : (got : ℕ) → BlobError
  invalid_length : (got : ℕ) → BlobError
  extraneous_field_element : ℕ → BlobError
  extraneous_input : ℕ → BlobError
  invalid_field_element : BlobError

-- A `Result`, or a panic.
pub data BlobResult (A : Type 0) : Type 0 where
  panicked : BlobResult A
  err : BlobError → BlobResult A
  ok : A → BlobResult A

infixl 10 ◌>>=◌
abbrev pub ◌>>=◌ : {A B : Type 0} → BlobResult A → (A → BlobResult B) → BlobResult B
panicked >>= next = panicked
err why >>= next = err why
ok found >>= next = next found

-- `[0; n]`.
unfoldable pub zeros : ℕ → List ℕ
zeros zero = []
zeros (suc n) = 0 ∷ zeros n

-- `bs[i]`.
unfoldable pub byte_at : List ℕ → ℕ → BlobResult ℕ
byte_at bs i = elim (drop i bs) [ [] ↦ panicked | b ∷ _ ↦ ok b ]

-- `&bs[i..i + n]`.
unfoldable pub slice : List ℕ → ℕ → ℕ → BlobResult (List ℕ)
slice bs i n = if leb (i + n) (length bs) then ok (take n (drop i bs)) else panicked

-- `out[i..i + n].copy_from_slice(bs)` for `n` bytes `bs`.
unfoldable pub write_slice : ℕ → List ℕ → List ℕ → BlobResult (List ℕ)
write_slice i bs out =
    if leb (i + length bs) (length out)
    then ok (take i out ++ (bs ++ drop (i + length bs) out))
    else panicked

-- The first `n` bytes, with zeros after the end.
unfoldable pub pad_take : ℕ → List ℕ → List ℕ
pad_take zero xs = []
pad_take (suc n) [] = 0 ∷ pad_take n []
pad_take (suc n) (x ∷ xs) = x ∷ pad_take n xs

suc_add : (m n : ℕ) → suc m + n ≡ suc (m + n)
suc_add m n = omega arith

pub length-zeros : (n : ℕ) → length (zeros n) ≡ n
unfolding zeros
length-zeros zero = refl
length-zeros (suc n) = ap suc (length-zeros n)

pub length-pad_take : (n : ℕ) (xs : List ℕ) → length (pad_take n xs) ≡ n
unfolding pad_take
length-pad_take zero xs = refl
length-pad_take (suc n) [] = ap suc (length-pad_take n [])
length-pad_take (suc n) (x ∷ xs) = ap suc (length-pad_take n xs)

pub pad_take-nil : (n : ℕ) → pad_take n [] ≡ zeros n
unfolding pad_take zeros
pad_take-nil zero = refl
pad_take-nil (suc n) = ap (◌∷◌ 0) (pad_take-nil n)

pub zeros-add : (m n : ℕ) → zeros (m + n) ≡ zeros m ++ zeros n
unfolding zeros
zeros-add zero n = ground arith
zeros-add (suc m) n = rw (suc_add m n) (ap (◌∷◌ 0) (zeros-add m n))

pub zeros-suc : (n : ℕ) → zeros (suc n) ≡ (0 ∷ []) ++ zeros n
unfolding zeros
zeros-suc n = refl

pub drop-nil : (n : ℕ) → drop {A = ℕ} n [] ≡ []
drop-nil zero = refl
drop-nil (suc n) = refl

pub drop-drop : (m n : ℕ) (xs : List ℕ) → drop n (drop m xs) ≡ drop (m + n) xs
drop-drop zero n xs = ground arith
drop-drop (suc m) n [] = drop-nil n ∙ sym (drop-nil (suc m + n))
drop-drop (suc m) n (x ∷ xs) = rw (suc_add m n) (drop-drop m n xs)

pub drop_all : (n : ℕ) (xs : List ℕ) → length xs ≤ n → drop n xs ≡ []
drop_all zero [] h = refl
drop_all zero (x ∷ xs) h = absurd (omega arith)
drop_all (suc n) [] h = refl
drop_all (suc n) (x ∷ xs) h = drop_all n xs (omega arith)

pub drop-append : (xs ys : List ℕ) → drop (length xs) (xs ++ ys) ≡ ys
drop-append [] ys = refl
drop-append (x ∷ xs) ys = drop-append xs ys

pub take-append : (xs ys : List ℕ) → take (length xs) (xs ++ ys) ≡ xs
take-append [] ys = refl
take-append (x ∷ xs) ys = ap (◌∷◌ x) (take-append xs ys)

pub pad_take-add :
    (m n : ℕ) (xs : List ℕ) → pad_take (m + n) xs ≡ pad_take m xs ++ pad_take n (drop m xs)
unfolding pad_take
pad_take-add zero n xs = ground arith
pad_take-add (suc m) n [] = rw (suc_add m n) (ap (◌∷◌ 0) (rw (drop-nil m) at (pad_take-add m n [])))
pad_take-add (suc m) n (x ∷ xs) = rw (suc_add m n) (ap (◌∷◌ x) (pad_take-add m n xs))

pub take-pad : (n : ℕ) (xs : List ℕ) → pad_take n xs ≡ take n xs ++ zeros (n - length xs)
unfolding pad_take zeros
take-pad zero xs = ground arith
take-pad (suc n) [] = ground (arith, pad_take-nil (suc n))
take-pad (suc n) (x ∷ xs) = ground (arith, take-pad n xs)

-- The first byte, or zero at the end.
unfoldable pub first_or_zero : List ℕ → ℕ
first_or_zero [] = 0
first_or_zero (x ∷ xs) = x

pub pad_take-first :
    (n : ℕ) (xs : List ℕ) → pad_take (suc n) xs ≡ first_or_zero xs ∷ pad_take n (drop 1 xs)
unfolding pad_take first_or_zero
pad_take-first n [] = refl
pad_take-first n (x ∷ xs) = refl

pub first_or_zero-byte : (xs : List ℕ) (m : ℕ) → 0 < m → All (λ b. b < m) xs → first_or_zero xs < m
unfolding first_or_zero
first_or_zero-byte [] m h bs = h
first_or_zero-byte (x ∷ xs) m h bs = bs.0

min-suc : (m n : ℕ) → min (suc m) (suc n) ≡ suc (min m n)
min-suc m n = omega arith

suc_sub : (m n : ℕ) → suc m - suc n ≡ m - n
suc_sub m n = omega arith

pub length-take : (n : ℕ) (xs : List ℕ) → length (take n xs) ≡ min n (length xs)
length-take zero xs = omega arith
length-take (suc n) [] = omega arith
length-take (suc n) (x ∷ xs) = omega (arith, length-take n xs)

pub take-min : (n : ℕ) (xs : List ℕ) → take (min n (length xs)) xs ≡ take n xs
take-min zero xs = ground arith
take-min (suc n) [] = ground arith
take-min (suc n) (x ∷ xs) = rw (min-suc n (length xs)) (ap (◌∷◌ x) (take-min n xs))

pub drop-zeros : (m n : ℕ) → drop m (zeros n) ≡ zeros (n - m)
unfolding zeros
drop-zeros zero n = ground arith
drop-zeros (suc m) zero = ground arith
drop-zeros (suc m) (suc n) = rw (suc_sub n m) (drop-zeros m n)

-- A slice inside the buffer, as the rest of the buffer shows it.
pub slice-inside :
    (bs : List ℕ) (i n : ℕ) → i + n ≤ length bs → slice bs i n ≡ ok (take n (drop i bs))
unfolding slice
slice-inside bs i n h = ground arith

pub byte_at-drop :
    (bs : List ℕ) (i : ℕ) → i < length bs → byte_at bs i ≡ ok (first_or_zero (drop i bs))
unfolding byte_at first_or_zero
byte_at-drop [] i h = absurd (omega arith)
byte_at-drop (x ∷ xs) zero h = refl
byte_at-drop (x ∷ xs) (suc i) h = byte_at-drop xs i (omega arith)

-- A write behind `done`, over zeros or over other bytes.
pub write_slice-over :
    (i : ℕ) (done bs old rest : List ℕ)
    → length done ≡ i
    → length old ≡ length bs
    → write_slice i bs (done ++ (old ++ rest)) ≡ ok (done ++ (bs ++ rest))
unfolding write_slice
write_slice-over i done bs old rest p q = rw (fits, front, back)
  where
    front : take i (done ++ (old ++ rest)) ≡ done
    front =
        subst (λ (t : ℕ). take t (done ++ (old ++ rest)) ≡ done) p (take-append done (old ++ rest))

    back : drop (i + length bs) (done ++ (old ++ rest)) ≡ rest
    back =
        sym (drop-drop i (length bs) (done ++ (old ++ rest)))
        ∙ (ap (drop (length bs)) (
              subst (λ (t : ℕ). drop t (done ++ (old ++ rest)) ≡ old ++ rest) p
                (drop-append done (old ++ rest)))
            ∙ subst (λ (t : ℕ). drop t (old ++ rest) ≡ rest) q (drop-append old rest))

    fits : leb (i + length bs) (length (done ++ (old ++ rest))) ≡ true
    fits = le→leb _ _ (omega (arith, length-append done (old ++ rest), length-append old rest))

pub write_slice-zeros :
    (i k m : ℕ) (done bs : List ℕ)
    → length done ≡ i
    → length bs + m ≡ k
    → write_slice i bs (done ++ zeros k) ≡ ok (done ++ (bs ++ zeros m))
write_slice-zeros i k m done bs p q =
    ap (λ (t : ℕ). write_slice i bs (done ++ zeros t)) (sym q)
    ∙ (ap (λ t. write_slice i bs (done ++ t)) (zeros-add (length bs) m)
        ∙ write_slice-over i done bs (zeros (length bs)) (zeros m) p (length-zeros (length bs)))

abbrev pub all_zero : List ℕ → Bool
all_zero [] = true
all_zero (b ∷ bs) = elim (b == 0) [ true ↦ all_zero bs | false ↦ false ]

pub all_zero-zeros : (n : ℕ) → all_zero (zeros n) ≡ true
unfolding zeros
all_zero-zeros zero = refl
all_zero-zeros (suc n) = all_zero-zeros n

-- The result is a value of which `P` holds.
abbrev pub Returns : {A : Type 0} → BlobResult A → (A → Type 0) → Type 0
Returns (ok a) P = P a
Returns (err e) P = ⊥
Returns panicked P = ⊥

pub Returns-bind :
    {A B : Type 0} (r : BlobResult A) (P : A → Type 0) (f : A → BlobResult B) (b : BlobResult B)
    → Returns r P
    → ((a : A) → P a → f a ≡ b)
    → (r >>= f) ≡ b
Returns-bind (ok a) P f b h k = k a h
Returns-bind (err e) P f b h k = absurd h
Returns-bind panicked P f b h k = absurd h
