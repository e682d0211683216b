-- ===== src/Blob/Safety.antt =====
-- `decode_blob_data` of crates/primitives/src/blob.rs on blobs that nobody encoded: no index is out
-- of range.
use taiko_mk.Prelude.{ℕ, zero, suc, ◌+◌, ◌-◌, ◌*◌, ◌≤◌, ◌<◌, ◌≡◌, refl, ◌∙◌, arith}
use taiko_mk.Prelude.{inl, inr, Bool, true, false, List, ◌++◌}
use taiko_mk.Prelude.{
  if◌then◌else◌, leb, le→leb, length, length-append, length-drop, take, drop, Bool-cases,
}
use taiko_mk.Config.{max_blob_data_size}
use taiko_mk.Blob.{
  Decoder, decode_field_element, reassemble_bytes, decode_rest, decode_rounds, decode_blob_data,
  bytes_per_blob,
}
use taiko_mk.Blob.Bytes.{
  BlobError, invalid_field_element, invalid_version, invalid_length, extraneous_input,
  extraneous_field_element, BlobResult, ok, err, ◌>>=◌, zeros, byte_at, slice, write_slice,
  length-take, length-zeros, byte_at-drop,
}

-- No panic, and `P` of a value.
pub data Ensures {A : Type 0} (P : A → Type 0) : BlobResult A → Type 0 where
  value : (a : A) → P a → Ensures P (ok a)
  error : (e : BlobError) → Ensures P (err e)

bind :
    {A B : Type 0} {P : A → Type 0} {Q : B → Type 0} {r : BlobResult A} {f : A → BlobResult B}
    → Ensures P r
    → ((a : A) → P a → Ensures Q (f a))
    → Ensures Q (r >>= f)
bind (value a h) k = k a h
bind (error e) k = error e

either :
    {A : Type 0} {P : A → Type 0} {r s : BlobResult A} (b : Bool)
    → Ensures P r
    → Ensures P s
    → Ensures P (if b then r else s)
either true h k = h
either false h k = k

weaken :
    {A : Type 0} {P Q : A → Type 0} {r : BlobResult A}
    → Ensures P r
    → ((a : A) → P a → Q a)
    → Ensures Q r
weaken (value a h) k = value a (k a h)
weaken (error e) k = error e

byte_at-Ensures : (bs : List ℕ) (i : ℕ) → i < length bs → Ensures (λ b. Unit) (byte_at bs i)
byte_at-Ensures bs i h = rw (byte_at-drop bs i h) (value _ tt)

slice-Ensures :
    (bs : List ℕ) (i n : ℕ) → i + n ≤ length bs → Ensures (λ front. length front ≡ n) (slice bs i n)
unfolding slice
slice-Ensures bs i n h =
    rw (le→leb (i + n) (length bs) h)
      (value _ (omega (arith, length-take n (drop i bs), length-drop i bs)))

write_slice-Ensures :
    (i : ℕ) (bs out : List ℕ)
    → i + length bs ≤ length out
    → Ensures (λ o. length o ≡ length out) (write_slice i bs out)
unfolding write_slice
write_slice-Ensures i bs out h = rw (le→leb (i + length bs) (length out) h) (
    value _ (
      omega (
        arith,
        length-append (take i out) (bs ++ drop (i + length bs) out),
        length-append bs (drop (i + length bs) out),
        length-take i out,
        length-drop (i + length bs) out,
      )))

-- After a step the positions have advanced and the output has kept its length.
abbrev Advanced : ℕ → ℕ → Decoder → Decoder → Type 0
Advanced o q s t =
    (t.output_pos ≡ s.output_pos + o)
    × (t.input_pos ≡ s.input_pos + q)
    × (length t.output ≡ length s.output)

module _ (blob : List ℕ) where
  decode_field_element-Ensures :
      (s : Decoder)
      → s.input_pos + 32 ≤ length blob
      → s.output_pos + 31 ≤ length s.output
      → Ensures (λ (r : ℕ × Decoder). Advanced 32 32 s r.1) (decode_field_element blob s)
  unfolding decode_field_element
  decode_field_element-Ensures s in_ out_ =
      bind (byte_at-Ensures blob s.input_pos (omega arith)) (λ result h0.
        either _ (error invalid_field_element) (
          bind (slice-Ensures blob (s.input_pos + 1) 31 (omega arith)) (λ front h1.
            bind (write_slice-Ensures s.output_pos front s.output (omega arith))
              (λ out h2. value _ (refl, refl, h2)))))

  reassemble_bytes-Ensures :
      (e0 e1 e2 e3 : ℕ) (s : Decoder)
      → 97 ≤ s.output_pos
      → s.output_pos ≤ length s.output + 1
      → Ensures
          (λ (t : Decoder).
            (t.output_pos ≡ s.output_pos - 1)
            × (t.input_pos ≡ s.input_pos)
            × (length t.output ≡ length s.output))
          (reassemble_bytes e0 e1 e2 e3 s)
  unfolding reassemble_bytes
  reassemble_bytes-Ensures e0 e1 e2 e3 s low high =
      bind (write_slice-Ensures (s.output_pos - 1 - 32) _ s.output (omega arith)) (λ o1 h1.
        bind (write_slice-Ensures (s.output_pos - 1 - 32 * 2) _ o1 (omega arith)) (λ o2 h2.
          bind (write_slice-Ensures (s.output_pos - 1 - 32 * 3) _ o2 (omega arith))
            (λ o3 h3. value _ (refl, refl, h3 ∙ (h2 ∙ h1)))))

  decode_rest-Ensures :
      (e0 : ℕ) (s : Decoder)
      → s.input_pos + 96 ≤ length blob
      → 1 ≤ s.output_pos
      → s.output_pos + 95 ≤ length s.output
      → Ensures (λ (t : Decoder). Advanced 95 96 s t) (decode_rest blob e0 s)
  unfolding decode_rest
  decode_rest-Ensures e0 s in_ low out_ =
      bind (decode_field_element-Ensures s (omega arith) (omega arith)) (λ e1 h1.
        bind (decode_field_element-Ensures e1.1 (omega arith) (omega arith)) (λ e2 h2.
          bind (decode_field_element-Ensures e2.1 (omega arith) (omega arith)) (λ e3 h3.
            weaken (reassemble_bytes-Ensures e0 e1.0 e2.0 e3.0 e3.1 (omega arith) (omega arith))
              (λ t h4. omega arith))))

  -- There is room for all the rounds.
  decode_rounds-Ensures :
      (output_len n : ℕ) (s : Decoder)
      → s.input_pos + 128 * n ≤ length blob
      → s.output_pos + 127 * n ≤ length s.output
      → Ensures
          (λ (t : Decoder). length t.output ≡ length s.output)
          (decode_rounds blob output_len n s)
  unfolding decode_rounds
  decode_rounds-Ensures output_len zero s in_ out_ = value s refl
  decode_rounds-Ensures output_len (suc n) s in_ out_ =
      elim (Bool-cases (leb output_len s.output_pos)) [
        | inl e ↦ rw (e, decode_rounds) (value s refl)
        | inr e ↦
            rw (e, decode_rounds)
              (bind (decode_field_element-Ensures s (omega arith) (omega arith)) (λ e0 h0.
                bind (decode_rest-Ensures e0.0 e0.1 (omega arith) (omega arith) (omega arith))
                  (λ t h1.
                    weaken (decode_rounds-Ensures output_len n t (omega arith) (omega arith))
                      (λ u h2. omega arith))))
      ]

-- Decoding a blob of the size of a blob, whatever its bytes, does not panic: it gives an error or at
-- most `MAX_BLOB_DATA_SIZE` bytes.
pub decode_blob_data-Ensures :
    (blob : List ℕ)
    → length blob ≡ bytes_per_blob
    → Ensures (λ out. length out ≤ max_blob_data_size) (decode_blob_data blob)
unfolding decode_blob_data
decode_blob_data-Ensures blob size = bind (byte_at-Ensures blob 1 (omega arith)) (λ version h0.
    either _ (error (invalid_version version)) (
      bind (byte_at-Ensures blob 2 (omega arith)) (λ l2 h2.
        bind (byte_at-Ensures blob 3 (omega arith)) (λ l3 h3.
          bind (byte_at-Ensures blob 4 (omega arith)) (λ l4 h4.
            either _ (error (invalid_length _)) (
              bind (slice-Ensures blob 5 27 (omega arith)) (λ front h5.
                bind
                  (write_slice-Ensures 0 front (zeros max_blob_data_size)
                    (omega (arith, length-zeros max_blob_data_size)))
                  (λ output h6. bind (byte_at-Ensures blob 0 (omega arith)) (λ b0 h7.
                    bind
                      (decode_rest-Ensures blob b0
                        (record { output_pos = 28; input_pos = 32; output = output }) (omega arith)
                        (omega arith) (omega (arith, length-zeros max_blob_data_size)))
                      (λ s0 h8.
                        bind
                          (decode_rounds-Ensures blob _ 1023 s0 (omega arith)
                            (omega (arith, length-zeros max_blob_data_size)))
                          (λ s h9. either _ (error (extraneous_field_element _)) (
                            either _ (error (extraneous_input _)) (
                              value _ (
                                omega (
                                  arith,
                                  length-take _ s.output,
                                  length-zeros max_blob_data_size,
                                )))))))))))))))
