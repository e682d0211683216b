-- ===== src/Blob/RoundTrip.antt =====
-- `decode_blob_data` undoes `create_blob_from_data`: crates/primitives/src/blob.rs.
use taiko_mk.Prelude.{
  ℕ, zero, suc, ◌+◌, ◌-◌, ◌*◌, ◌/◌, ◌%◌, ◌^◌, ◌≤◌, ◌≡◌, refl, sym, ap, ◌∙◌, arith,
}
use taiko_mk.Prelude.{true, false, not, List, ◌∷◌, ◌++◌, []}
use taiko_mk.Prelude.{
  if◌then◌else◌, ltb, length, length-append, length-drop, take, drop, All, All-drop,
}
use taiko_mk.Config.{max_blob_data_size}
use taiko_mk.Blob.{IsByte, decode_blob_data, create_blob_from_data, decode_rounds}
use taiko_mk.Blob.Bytes.{ok, err, ◌>>=◌, Returns-bind, all_zero, all_zero-zeros, zeros, pad_take}
use taiko_mk.Blob.Bytes.{
  extraneous_field_element, extraneous_input, length-pad_take, pad_take-add, write_slice-zeros,
  drop-append, take-append, take-pad,
}
use taiko_mk.Blob.Reading.{header_bytes}
use taiko_mk.Blob.Groups.{
  groups, drop-groups, group, element_0, element_1, element_2, element_3, byte_x,
}
use taiko_mk.Blob.Creation.{create_blob_from_data-lem}
use taiko_mk.Blob.Decoding.{byte_at_rest, slice_rest, drop_rest}
use taiko_mk.Blob.Rounds.{decode_rest-lem, decode_rounds-lem}
use mathlib.Core.List.{append_assoc}

take_all : (n : ℕ) (xs : List ℕ) → length xs ≤ n → take n xs ≡ xs
take_all zero [] h = refl
take_all zero (x ∷ xs) h = absurd (omega arith)
take_all (suc n) [] h = refl
take_all (suc n) (x ∷ xs) h = ap (◌∷◌ x) (take_all n xs (omega arith))

-- A padded input, cut at its length.
module _ (n : ℕ) (input : List ℕ) (fits : length input ≤ n) where
  pad_take_whole : pad_take n input ≡ input ++ zeros (n - length input)
  pad_take_whole =
      take-pad n input ∙ ap (λ t. t ++ zeros (n - length input)) (take_all n input fits)

  take_whole : take (length input) (pad_take n input) ≡ input
  take_whole =
      ap (take (length input)) pad_take_whole ∙ take-append input (zeros (n - length input))

  padding : all_zero (drop (length input) (take n (pad_take n input))) ≡ true
  padding =
      ap (λ (t : List ℕ). all_zero (drop (length input) t))
        (take_all n (pad_take n input) (omega (arith, length-pad_take n input)))
      ∙ (ap (λ (t : List ℕ). all_zero (drop (length input) t)) pad_take_whole
          ∙ (ap all_zero (drop-append input (zeros (n - length input)))
              ∙ all_zero-zeros (n - length input)))

abbrev pub stream : List ℕ → List ℕ
stream input = header_bytes input ++ input

-- The first bytes of a blob that holds the stream.
module _ (input blob : List ℕ) (n : ℕ) (h : blob ≡ groups (suc n) (stream input)) where
  abbrev len : ℕ
  len = length input % 2 ^ 32

  tail : List ℕ
  tail =
      element_1 (stream input)
      ++ (element_2 (stream input) ++ (element_3 (stream input) ++ groups n (drop 123 input)))

  shape :
      blob
      ≡ (byte_x (stream input) % 64)
        ∷ 0
        ∷ (len / 2 ^ 16 % 256)
        ∷ (len / 2 ^ 8 % 256)
        ∷ (len % 256)
        ∷ (pad_take 27 input ++ tail)
  unfolding tail
  shape = h ∙ unfold groups group element_0 pad_take in simp append_assoc

  behind_header : drop 32 blob ≡ tail
  behind_header =
      drop_rest blob 5 27 (pad_take 27 input) tail (length-pad_take 27 input) (ap (drop 5) shape)

-- What the decoder does on the groups of the stream.
pub decode_blob_data-groups :
    (input : List ℕ)
    → All IsByte input
    → length input ≤ max_blob_data_size
    → decode_blob_data (groups 1024 (stream input)) ≡ ok input
unfolding decode_blob_data
decode_blob_data-groups input bytes fits =
    rw
      (
        byte_at_rest blob 1 0 _ (ap (drop 1) parts),
        byte_at_rest blob 2 (l / 2 ^ 16 % 256) _ (ap (drop 2) parts),
        byte_at_rest blob 3 (l / 2 ^ 8 % 256) _ (ap (drop 3) parts),
        byte_at_rest blob 4 (l % 256) _ (ap (drop 4) parts),
        length_back,
        in_bounds,
        slice_rest blob 5 27 (pad_take 27 input) rest (length-pad_take 27 input) (omega arith)
            (ap (drop 5) parts),
        write_slice-zeros 0 max_blob_data_size (96 + 127 * 1023) [] (pad_take 27 input) refl
            (omega (arith, length-pad_take 27 input)),
        byte_at_rest blob 0 (byte_x (stream input) % 64) _ parts,
        decode_rest-lem blob (stream input) (groups 1023 (drop 123 input)) stream_bytes 27 32
            (127 * 1023) (pad_take 27 input) (unfold tail in behind_header input blob 1023 refl)
            (length-pad_take 27 input),
      )
      (Returns-bind
        (decode_rounds blob (length input) 1023 (record {
          output_pos = 123;
          input_pos = 128;
          output = (pad_take 27 input ++ pad_take 96 (drop 27 input)) ++ zeros (127 * 1023);
        }))
        (λ t.
          (t.output
            ≡ (pad_take 27 input ++ pad_take 96 (drop 27 input))
              ++ pad_take (127 * 1023) (drop 123 input))
          × (all_zero (drop t.input_pos blob) ≡ true))
        (λ t.
          if not (all_zero (drop (length input) (take max_blob_data_size t.output)))
          then err (extraneous_field_element (t.output_pos / 32))
          else (if not (all_zero (drop t.input_pos blob))
              then err (extraneous_input t.input_pos)
              else ok (take (length input) t.output)))
        (ok input)
        (decode_rounds-lem 1023 blob (drop 123 input) (length input) 123 128
          (pad_take 27 input ++ pad_take 96 (drop 27 input)) (All-drop IsByte 123 input bytes)
          (drop-groups 1 1023 (stream input))
          (omega (
            arith,
            length-append (pad_take 27 input) (pad_take 96 (drop 27 input)),
            length-pad_take 27 input,
            length-pad_take 96 (drop 27 input),
          ))
          (omega (arith, length-drop 123 input)))
        (λ t p. rw (
          p.0,
          whole,
          padding max_blob_data_size input fits,
          p.1,
          take_whole max_blob_data_size input fits,
        )))
  where
    l : ℕ
    l = length input % 2 ^ 32

    blob : List ℕ
    blob = groups 1024 (stream input)

    rest : List ℕ
    rest = tail input blob 1023 refl

    length_back : l / 2 ^ 16 % 256 * 2 ^ 16 + l / 2 ^ 8 % 256 * 2 ^ 8 + l % 256 ≡ length input
    length_back = omega arith

    in_bounds : ltb max_blob_data_size (length input) ≡ false
    in_bounds = ground arith

    stream_bytes : All IsByte (stream input)
    stream_bytes = (omega arith, (omega arith, (omega arith, (omega arith, bytes))))

    whole :
        (pad_take 27 input ++ pad_take 96 (drop 27 input)) ++ pad_take (127 * 1023) (drop 123 input)
        ≡ pad_take max_blob_data_size input
    whole =
        ap (λ t. t ++ pad_take (127 * 1023) (drop 123 input)) (sym (pad_take-add 27 96 input))
        ∙ sym (pad_take-add 123 (127 * 1023) input)

    parts :
        blob
        ≡ (byte_x (stream input) % 64)
          ∷ 0
          ∷ (l / 2 ^ 16 % 256)
          ∷ (l / 2 ^ 8 % 256)
          ∷ (l % 256)
          ∷ (pad_take 27 input ++ tail input blob 1023 refl)
    parts = shape input blob 1023 refl

-- A byte string of at most `MAX_BLOB_DATA_SIZE` bytes is encoded, and the blob decodes to the same
-- byte string: neither step fails or panics.
pub decode_blob_data-create_blob_from_data :
    (input : List ℕ)
    → All IsByte input
    → length input ≤ max_blob_data_size
    → (create_blob_from_data input >>= decode_blob_data) ≡ ok input
decode_blob_data-create_blob_from_data input bytes fits =
    ap (λ r. r >>= decode_blob_data) (create_blob_from_data-lem input bytes)
    ∙ rw in_bounds (decode_blob_data-groups input bytes fits)
  where
    in_bounds : ltb max_blob_data_size (length input) ≡ false
    in_bounds = ground arith
