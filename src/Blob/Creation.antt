-- ===== src/Blob/Creation.antt =====
-- `create_blob_from_data` of crates/primitives/src/blob.rs writes the groups of the stream.
use taiko_mk.Prelude.{ℕ, zero, suc, ◌+◌, ◌*◌, ◌%◌, ◌≤◌, min, ◌≡◌, ◌≢◌, refl, sym, ap, ◌∙◌, arith}
use taiko_mk.Prelude.{inl, inr, true, List, ◌∷◌, ◌++◌, []}
use taiko_mk.Prelude.{
  if◌then◌else◌, ltb, leb, ◌==◌, length, length-append, drop, Bool-cases, All, All-drop,
}
use taiko_mk.Config.{max_blob_data_size}
use taiko_mk.Blob.{
  IsByte, encode_round, encode_rounds, create_blob_from_data, first_chunk, read_31_bytes,
  bytes_per_blob,
}
use taiko_mk.Blob.Bytes.{
  ok, err, Returns, Returns-bind, input_too_large, data_did_not_fit, zeros, pad_take, drop_all,
  drop-drop,
}
use taiko_mk.Blob.Reading.{read_31_bytes_at, first_chunk_at, header_bytes}
use taiko_mk.Blob.Groups.{group, groups, length-group, groups-nil, groups-zeros, groups_next}
use taiko_mk.Blob.Encoding.{encode_round-lem}

nothing_read :
    (n : ℕ) (input : List ℕ)
    → length input ≤ 0
    → zeros (128 * suc n) ≡ groups (suc n) (header_bytes input ++ input)
nothing_read n [] h = sym (groups-zeros n)
nothing_read n (b ∷ bs) h = absurd (omega arith)

module _ (input : List ℕ) (bytes : All IsByte input) where
  later_round :
      (round p off m : ℕ) (done : List ℕ)
      → round ≢ 0
      → length done ≡ off
      → off % 32 ≡ 0
      → encode_round input round (record {
        out = done ++ zeros (128 + m);
        write_offset = off;
        read_offset = min p (length input);
      })
        ≡ ok (record {
          out = (done ++ group (drop p input)) ++ zeros m;
          write_offset = off + 128;
          read_offset = min (p + 127) (length input);
        })
  later_round round p off m done later at_end aligned = rw (offsets) at (
      encode_round-lem input (drop p input) round (p + 31) off (128 + m) m done
        (All-drop IsByte p input bytes) (sym (drop-drop p 31 input)) at_end aligned (omega arith)
        (min p (length input)) first)
    where
      offsets : p + 31 + 96 ≡ p + 127
      offsets = omega arith

      first :
          (if round == 0
            then first_chunk input (min p (length input))
            else read_31_bytes input (min p (length input)))
          ≡ ok (pad_take 31 (drop p input), min (p + 31) (length input))
      first = ground (arith, read_31_bytes_at input p)

  later_rounds :
      (n round p off : ℕ) (done : List ℕ)
      → round ≢ 0
      → length done ≡ off
      → off % 32 ≡ 0
      → Returns
          (encode_rounds input n round (record {
            out = done ++ zeros (128 * n);
            write_offset = off;
            read_offset = min p (length input);
          }))
          (λ s.
            (s.out ≡ done ++ groups n (drop p input))
            × (min (p + 127 * n) (length input) ≤ s.read_offset))
  unfolding encode_rounds
  later_rounds zero round p off done later at_end aligned =
      unfold groups zeros in (refl, omega arith)
  later_rounds (suc n) round p off done later at_end aligned =
      elim (Bool-cases (leb (length input) (min p (length input)))) [
        | inl e ↦ rw (e, encode_rounds) (ap (◌++◌ done) (at_the_end e), ground arith)
        | inr e ↦
            rw
              (
                e,
                encode_rounds,
                more,
                later_round round p off (128 * n) done later at_end aligned,
                counts,
                groups_next n p done input,
              )
              (later_rounds n (round + 1) (p + 127) (off + 128) (done ++ group (drop p input))
                (omega arith)
                (omega
                  (arith, length-append done (group (drop p input)), length-group (drop p input)))
                (omega arith))
      ]
    where
      more : 128 * suc n ≡ 128 + 128 * n
      more = omega arith

      counts : p + 127 * suc n ≡ p + 127 + 127 * n
      counts = omega arith

      at_the_end :
          leb (length input) (min p (length input)) ≡ true
          → zeros (128 * suc n) ≡ groups (suc n) (drop p input)
      at_the_end e = rw (drop_all p input (ground arith)) (sym (groups-nil (suc n)))

  -- Round 0 reads the header and the first 123 bytes of the input.
  first_round :
      (k m : ℕ)
      → 128 + m ≡ k
      → encode_round input 0 (record { out = zeros k; write_offset = 0; read_offset = 0 })
        ≡ ok (record {
          out = group (header_bytes input ++ input) ++ zeros m;
          write_offset = 128;
          read_offset = min 123 (length input);
        })
  first_round k m room =
      encode_round-lem input (header_bytes input ++ input) 0 27 0 k m [] stream_bytes refl refl refl
        room 0 first
    where
      stream_bytes : All IsByte (header_bytes input ++ input)
      stream_bytes = (omega arith, (omega arith, (omega arith, (omega arith, bytes))))

      first :
          first_chunk input 0
          ≡ ok (pad_take 31 (header_bytes input ++ input), min 27 (length input))
      first = first_chunk_at input ∙ unfold pad_take in refl

  -- The blob that the stream makes.
  all_rounds :
      (n : ℕ)
      → Returns
          (encode_rounds input
            (suc n)
            0
            (record { out = zeros (128 * suc n); write_offset = 0; read_offset = 0 }))
          (λ s.
            (s.out ≡ groups (suc n) (header_bytes input ++ input))
            × (min (123 + 127 * n) (length input) ≤ s.read_offset))
  unfolding encode_rounds
  all_rounds n = elim (Bool-cases (leb (length input) 0)) [
    | inl e ↦ rw (e, encode_rounds) (nothing e, ground arith)
    | inr e ↦
        rw (e, encode_rounds, more, first_round (128 + 128 * n) (128 * n) refl)
          (unfold groups in
            later_rounds n 1 123 128 (group (header_bytes input ++ input)) (omega arith)
              (length-group (header_bytes input ++ input)) refl)
  ]
    where
      more : 128 * suc n ≡ 128 + 128 * n
      more = omega arith

      nothing :
          leb (length input) 0 ≡ true
          → zeros (128 * suc n) ≡ groups (suc n) (header_bytes input ++ input)
      nothing e = nothing_read n input (ground arith)

-- An input that fits is encoded, with no panic and no byte left over: the blob is the 1024 groups
-- of the stream of the header and the input. A longer input is refused.
pub create_blob_from_data-lem :
    (input : List ℕ)
    → All IsByte input
    → create_blob_from_data input ≡ (
        if ltb max_blob_data_size (length input)
        then err (input_too_large (length input))
        else ok (groups 1024 (header_bytes input ++ input)))
unfolding create_blob_from_data
create_blob_from_data-lem input bytes = elim (Bool-cases (ltb max_blob_data_size (length input))) [
  | inl e ↦ rw e
  | inr e ↦ rw e (
      Returns-bind
        (encode_rounds input 1024 0
          (record { out = zeros bytes_per_blob; write_offset = 0; read_offset = 0 }))
        (λ s.
          (s.out ≡ groups 1024 (header_bytes input ++ input))
          × (min (123 + 127 * 1023) (length input) ≤ s.read_offset))
        (λ s.
          if ltb s.read_offset (length input)
          then err (data_did_not_fit s.read_offset (length input))
          else ok s.out)
        (ok (groups 1024 (header_bytes input ++ input))) (all_rounds input bytes 1023)
        (λ s h. ground arith))
]
