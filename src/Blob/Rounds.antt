-- ===== src/Blob/Rounds.antt =====
-- The loop of `decode_blob_data` of crates/primitives/src/blob.rs: what it does on the groups of a
-- stream.
use taiko_mk.Prelude.{
  ℕ, zero, suc, ◌+◌, ◌-◌, ◌*◌, ◌/◌, ◌%◌, ◌≤◌, ◌<◌, ◌≡◌, refl, sym, ap, ap₂, ◌∙◌, arith,
}
use taiko_mk.Prelude.{inl, inr, true, List, ◌∷◌, ◌++◌}
use taiko_mk.Prelude.{leb, length, length-append, length-drop, drop, Bool-cases, All, All-drop}
use taiko_mk.Blob.{IsByte, decode_field_element, decode_rest, decode_rounds}
use taiko_mk.Blob.Bytes.{
  ok, Returns, all_zero, all_zero-zeros, pad_take-nil, drop_all, zeros, pad_take, first_or_zero,
}
use taiko_mk.Blob.Bytes.{
  drop-drop, length-pad_take, pad_take-add, pad_take-first, first_or_zero-byte,
}
use taiko_mk.Blob.Groups.{
  groups, groups-nil, length-group, length-element_0, byte_x, byte_y, byte_z, element_0, element_1,
  element_2, element_3, group, length-element_1, length-element_2,
}
use taiko_mk.Blob.Decoding.{
  decode_field_element-append, decode_field_element-lem, reassemble_bytes-lem, drop_rest,
}
use mathlib.Core.List.{append_assoc}

-- The bytes of a group from the 31st on.
module _ (s : List ℕ) where
  one_and_31 :
      (n : ℕ) → pad_take 32 (drop n s) ≡ first_or_zero (drop n s) ∷ pad_take 31 (drop (n + 1) s)
  one_and_31 n =
      pad_take-first 31 (drop n s)
      ∙ ap (λ t. first_or_zero (drop n s) ∷ pad_take 31 t) (drop-drop n 1 s)

  tail_of_group :
      (byte_x s ∷ pad_take 31 (drop 32 s))
        ++ ((byte_y s ∷ pad_take 31 (drop 64 s)) ++ (byte_z s ∷ pad_take 31 (drop 96 s)))
      ≡ pad_take 96 (drop 31 s)
  tail_of_group =
      ap₂ ◌++◌ (sym (one_and_31 31)) (ap₂ ◌++◌ (sym (one_and_31 63)) (sym (one_and_31 95)))
      ∙ (ap₂ (λ t u. pad_take 32 (drop 31 s) ++ (pad_take 32 t ++ pad_take 32 u))
            (sym (drop-drop 31 32 s)) (sym (drop-drop 31 64 s))
          ∙ (ap₂ (λ t u. pad_take 32 (drop 31 s) ++ (pad_take 32 t ++ pad_take 32 u)) refl
                (sym (drop-drop 32 32 (drop 31 s)))
              ∙ (ap (λ t. pad_take 32 (drop 31 s) ++ t)
                    (sym (pad_take-add 32 32 (drop 32 (drop 31 s))))
                  ∙ sym (pad_take-add 32 64 (drop 31 s)))))

module _ (blob s rest : List ℕ) (bytes : All IsByte s) (o q m : ℕ) where
  byte_below : (n : ℕ) → first_or_zero (drop n s) < 256
  byte_below n = first_or_zero-byte (drop n s) 256 (omega arith) (All-drop IsByte n s bytes)

  pub decode_rest-lem :
      (front : List ℕ)
      → drop q blob ≡ element_1 s ++ (element_2 s ++ (element_3 s ++ rest))
      → length front ≡ o
      → decode_rest blob
          (byte_x s % 64)
          (record { output_pos = o + 1; input_pos = q; output = front ++ zeros (96 + m) })
        ≡ ok (record {
          output_pos = o + 96;
          input_pos = q + 96;
          output = (front ++ pad_take 96 (drop 31 s)) ++ zeros m;
        })
  unfolding decode_rest element_1 element_2 element_3
  decode_rest-lem front h at_end = rw (
    decode_field_element-lem blob q (o + 1) (96 + m) (64 + m) (byte_y s % 16 + byte_x s / 64 * 16)
        (pad_take 31 (drop 32 s)) (element_2 s ++ (element_3 s ++ rest)) front h
        (length-pad_take 31 (drop 32 s)) (omega (arith, byte_below 31)) (omega arith) (omega arith),
    decode_field_element-lem blob (q + 32) (o + 1 + 32) (64 + m) (32 + m) (byte_z s % 64)
        (pad_take 31 (drop 64 s)) (element_3 s ++ rest) front_1 h_1 (length-pad_take 31 (drop 64 s))
        (omega arith) l_1 (omega arith),
    decode_field_element-lem blob (q + 32 + 32) (o + 1 + 32 + 32) (32 + m) m
        (byte_y s / 16 + byte_z s / 64 * 16) (pad_take 31 (drop 96 s)) rest front_2 h_2
        (length-pad_take 31 (drop 96 s)) (omega (arith, byte_below 63, byte_below 95)) l_2 refl,
    positions.0,
    positions.1,
    reassemble_bytes-lem (byte_x s) (byte_y s) (byte_z s) (byte_below 31) (byte_below 63)
        (byte_below 95) front (pad_take 31 (drop 32 s)) (pad_take 31 (drop 64 s))
        (pad_take 31 (drop 96 s)) o (q + 96) m at_end (length-pad_take 31 (drop 32 s))
        (length-pad_take 31 (drop 64 s)),
    tail_of_group s,
  )
    where
      positions : (o + 1 + 32 + 32 + 32 ≡ o + 97) × (q + 32 + 32 + 32 ≡ q + 96)
      positions = omega arith

      front_1 : List ℕ
      front_1 = front ++ (0 ∷ pad_take 31 (drop 32 s))

      front_2 : List ℕ
      front_2 = front_1 ++ (0 ∷ pad_take 31 (drop 64 s))

      l_1 : suc (length front_1) ≡ o + 1 + 32
      l_1 =
          omega (
            arith,
            length-append front (0 ∷ pad_take 31 (drop 32 s)),
            length-pad_take 31 (drop 32 s),
          )

      l_2 : suc (length front_2) ≡ o + 1 + 32 + 32
      l_2 = omega (
        arith,
        l_1,
        length-append front_1 (0 ∷ pad_take 31 (drop 64 s)),
        length-pad_take 31 (drop 64 s),
      )

      h_1 : drop (q + 32) blob ≡ element_2 s ++ (element_3 s ++ rest)
      h_1 =
          drop_rest blob q 32 (element_1 s) (element_2 s ++ (element_3 s ++ rest))
            (length-element_1 s) h

      h_2 : drop (q + 32 + 32) blob ≡ element_3 s ++ rest
      h_2 = drop_rest blob (q + 32) 32 (element_2 s) (element_3 s ++ rest) (length-element_2 s) h_1

  -- A round appends the 127 bytes of its group.
  module _ (done : List ℕ) (h : drop q blob ≡ group s ++ rest) (at_end : length done ≡ o) where
    elements : drop q blob ≡ element_0 s ++ (element_1 s ++ (element_2 s ++ (element_3 s ++ rest)))
    unfolding group
    elements = h ∙ simp append_assoc

    first_of_round :
        decode_field_element blob
          (record { output_pos = o; input_pos = q; output = done ++ zeros (127 + m) })
        ≡ ok (
          byte_x s % 64,
          record {
            output_pos = o + 31 + 1;
            input_pos = q + 32;
            output = (done ++ pad_take 31 s) ++ zeros (96 + m);
          },
        )
    unfolding element_0
    first_of_round =
        rw (sym next, append_assoc)
          (decode_field_element-append blob q o (127 + m) (96 + m) (byte_x s % 64) (pad_take 31 s)
            (element_1 s ++ (element_2 s ++ (element_3 s ++ rest))) done elements
            (length-pad_take 31 s) (omega arith) at_end (omega arith))
      where
        next : o + 32 ≡ o + 31 + 1
        next = omega arith

module _ (blob s rest : List ℕ) (bytes : All IsByte s) (o q m : ℕ) (done : List ℕ)
    (h : drop q blob ≡ group s ++ rest) (at_end : length done ≡ o) where
  rest_of_round :
      decode_rest blob (byte_x s % 64) (record {
        output_pos = o + 31 + 1;
        input_pos = q + 32;
        output = (done ++ pad_take 31 s) ++ zeros (96 + m);
      })
      ≡ ok (record {
        output_pos = o + 127;
        input_pos = q + 128;
        output = (done ++ pad_take 127 s) ++ zeros m;
      })
  rest_of_round =
      rw (sym places.0, sym places.1, sym pieces)
        (decode_rest-lem blob s rest bytes (o + 31) (q + 32) m (done ++ pad_take 31 s) behind
          (omega (arith, length-append done (pad_take 31 s), length-pad_take 31 s)))
    where
      places : (o + 31 + 96 ≡ o + 127) × (q + 32 + 96 ≡ q + 128)
      places = omega arith

      pieces : (done ++ pad_take 31 s) ++ pad_take 96 (drop 31 s) ≡ done ++ pad_take 127 s
      pieces =
          append_assoc done (pad_take 31 s) (pad_take 96 (drop 31 s))
          ∙ ap (λ t. done ++ t) (sym (pad_take-add 31 96 s))

      behind : drop (q + 32) blob ≡ element_1 s ++ (element_2 s ++ (element_3 s ++ rest))
      behind =
          drop_rest blob q 32 (element_0 s) (element_1 s ++ (element_2 s ++ (element_3 s ++ rest)))
            (length-element_0 s) (elements blob s rest bytes o q m done h at_end)

-- The loop reads the groups of what is left of the stream, stops early only where nothing but zeros
-- is left, and has then appended all of it.
pub decode_rounds-lem :
    (n : ℕ) (blob s : List ℕ) (output_len o q : ℕ) (done : List ℕ)
    → All IsByte s
    → drop q blob ≡ groups n s
    → length done ≡ o
    → length s ≤ output_len - o
    → Returns
        (decode_rounds blob output_len n
          (record { output_pos = o; input_pos = q; output = done ++ zeros (127 * n) }))
        (λ t. (t.output ≡ done ++ pad_take (127 * n) s) × (all_zero (drop t.input_pos blob) ≡ true))
unfolding decode_rounds
decode_rounds-lem zero blob s output_len o q done bytes h at_end fits =
    unfold groups zeros pad_take in (refl, ap all_zero h)
decode_rounds-lem (suc n) blob s output_len o q done bytes h at_end fits =
    elim (Bool-cases (leb output_len o)) [
      | inl e ↦ rw (e, decode_rounds) (all_read (ground arith))
      | inr e ↦
          rw
            (
              e,
              decode_rounds,
              more,
              first_of_round blob s (groups n (drop 127 s)) bytes o q (127 * n) done
                  (unfold groups in h) at_end,
              rest_of_round blob s (groups n (drop 127 s)) bytes o q (127 * n) done
                  (unfold groups in h) at_end,
              pieces,
            )
            (decode_rounds-lem n blob (drop 127 s) output_len (o + 127) (q + 128)
              (done ++ pad_take 127 s) (All-drop IsByte 127 s bytes)
              (drop_rest blob q 128 (group s) (groups n (drop 127 s)) (length-group s)
                (unfold groups in h))
              (omega (arith, length-append done (pad_take 127 s), length-pad_take 127 s))
              (ground (arith, length-drop 127 s)))
    ]
  where
    more : 127 * suc n ≡ 127 + 127 * n
    more = omega arith

    pieces :
        done ++ pad_take (127 + 127 * n) s
        ≡ (done ++ pad_take 127 s) ++ pad_take (127 * n) (drop 127 s)
    pieces =
        ap (λ t. done ++ t) (pad_take-add 127 (127 * n) s)
        ∙ sym (append_assoc done (pad_take 127 s) (pad_take (127 * n) (drop 127 s)))

    all_read :
        length s ≤ 0
        → (done ++ zeros (127 * suc n) ≡ done ++ pad_take (127 * suc n) s)
          × (all_zero (drop q blob) ≡ true)
    all_read none_left = (
      ap (◌++◌ done)
          (sym (ap (pad_take (127 * suc n)) (drop_all 0 s none_left) ∙ pad_take-nil (127 * suc n))),
      ap all_zero (h ∙ (ap (groups (suc n)) (drop_all 0 s none_left) ∙ groups-nil (suc n)))
          ∙ all_zero-zeros (128 * suc n),
    )
