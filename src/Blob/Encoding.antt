-- ===== src/Blob/Encoding.antt =====
-- One round of `create_blob_from_data` of crates/primitives/src/blob.rs: it appends the four field
-- elements that hold the next 127 bytes of the stream.
use taiko_mk.Prelude.{ℕ, ◌+◌, ◌*◌, ◌/◌, ◌%◌, ◌^◌, ◌<◌, min, ◌≡◌, sym, ap, ap₂, ◌∙◌, arith}
use taiko_mk.Prelude.{List, ◌∷◌, ◌++◌, []}
use taiko_mk.Prelude.{if◌then◌else◌, ◌==◌, length, length-append, drop, All, All-drop}
use taiko_mk.Blob.{IsByte, write_one_byte, write_31_bytes, write_element, encode_round}
use taiko_mk.Blob.{read_one_byte, read_31_bytes, first_chunk}
use taiko_mk.Blob.Bytes.{ok, zeros, pad_take, write_slice, first_or_zero}
use taiko_mk.Blob.Bytes.{drop-drop, length-pad_take, write_slice-zeros, first_or_zero-byte}
use taiko_mk.Blob.Bits.{
  low_six, high_two, low_four, high_four, or_nibbles, or_nibbles_flipped, top_clear,
}
use taiko_mk.Blob.Reading.{read_one_byte_at, read_31_bytes_at}
use taiko_mk.Blob.Groups.{
  byte_x, byte_y, byte_z, element_0, element_1, element_2, element_3, group, length-element_0,
  length-element_1, length-element_2,
}
use Prim.Native.Nat.{bit_and, bit_or}
use mathlib.Core.List.{append_assoc}

module _ (done buf : List ℕ) (off k m v : ℕ) (at_end : length done ≡ off) (aligned : off % 32 ≡ 0)
    (room : 32 + m ≡ k) (six : v < 64) (full : length buf ≡ 31) where
  one : write_one_byte (done ++ zeros k) off v ≡ ok (done ++ ((v ∷ []) ++ zeros (31 + m)), off + 1)
  unfolding write_one_byte
  one = rw (
    aligned,
    top_clear v six,
    write_slice-zeros off k (31 + m) done (v ∷ []) at_end (omega arith),
  )

  rest :
      write_31_bytes (done ++ ((v ∷ []) ++ zeros (31 + m))) (off + 1) buf
      ≡ ok (done ++ ((v ∷ buf) ++ zeros m), off + 1 + 31)
  unfolding write_31_bytes
  rest =
      rw (misaligned_by_one, sym (append_assoc done (v ∷ []) (zeros (31 + m))), behind)
        (ap (λ t. ok (t, off + 1 + 31)) (append_assoc done (v ∷ []) (buf ++ zeros m)))
    where
      misaligned_by_one : (off + 1) % 32 ≡ 1
      misaligned_by_one = omega arith

      behind :
          write_slice (off + 1) buf ((done ++ (v ∷ [])) ++ zeros (31 + m))
          ≡ ok ((done ++ (v ∷ [])) ++ (buf ++ zeros m))
      behind =
          write_slice-zeros (off + 1) (31 + m) m (done ++ (v ∷ [])) buf
            (omega (arith, length-append done (v ∷ []))) (omega arith)

  pub write_element-lem :
      write_element (done ++ zeros k) off v buf ≡ ok ((done ++ (v ∷ buf)) ++ zeros m, off + 32)
  unfolding write_element
  write_element-lem =
      rw (one, rest)
        (ap₂ (λ (t : List ℕ) (o : ℕ). ok (t, o)) (sym (append_assoc done (v ∷ buf) (zeros m)))
          (omega arith))

-- The bytes that the code builds are those of the four field elements.
module _ (stream : List ℕ) (bytes : All IsByte stream) where
  byte_below : (n : ℕ) → first_or_zero (drop n stream) < 256
  byte_below n =
      first_or_zero-byte (drop n stream) 256 (omega arith) (All-drop IsByte n stream bytes)

  module _ (done : List ℕ) (off k m : ℕ) (at_end : length done ≡ off) (aligned : off % 32 ≡ 0)
      (room : 32 + m ≡ k) where
    put_0 :
        write_element
          (done ++ zeros k)
          off
          (bit_and (byte_x stream) 0b0011_1111)
          (pad_take 31 stream)
        ≡ ok ((done ++ element_0 stream) ++ zeros m, off + 32)
    unfolding element_0
    put_0 = rw (low_six (byte_x stream) (byte_below 31)) (
        write_element-lem done (pad_take 31 stream) off k m (byte_x stream % 64) at_end aligned room
          (omega arith) (length-pad_take 31 stream))

    put_1 :
        write_element
          (done ++ zeros k)
          off
          (bit_or
            (bit_and (byte_y stream) 0b0000_1111)
            (bit_and (byte_x stream) 0b1100_0000 / 2 ^ 2))
          (pad_take 31 (drop 32 stream))
        ≡ ok ((done ++ element_1 stream) ++ zeros m, off + 32)
    unfolding element_1
    put_1 =
        rw
          (
            low_four (byte_y stream) (byte_below 63),
            high_two (byte_x stream) (byte_below 31),
            or_nibbles (byte_y stream % 16) (byte_x stream / 64) (omega arith)
                (omega (arith, byte_below 31)),
          )
          (write_element-lem done (pad_take 31 (drop 32 stream)) off k m
            (byte_y stream % 16 + byte_x stream / 64 * 16) at_end aligned room
            (omega (arith, byte_below 31)) (length-pad_take 31 (drop 32 stream)))

    put_2 :
        write_element
          (done ++ zeros k)
          off
          (bit_and (byte_z stream) 0b0011_1111)
          (pad_take 31 (drop 64 stream))
        ≡ ok ((done ++ element_2 stream) ++ zeros m, off + 32)
    unfolding element_2
    put_2 = rw (low_six (byte_z stream) (byte_below 95)) (
        write_element-lem done (pad_take 31 (drop 64 stream)) off k m (byte_z stream % 64) at_end
          aligned room (omega arith) (length-pad_take 31 (drop 64 stream)))

    put_3 :
        write_element
          (done ++ zeros k)
          off
          (bit_or
            (bit_and (byte_z stream) 0b1100_0000 / 2 ^ 2)
            (bit_and (byte_y stream) 0b1111_0000 / 2 ^ 4))
          (pad_take 31 (drop 96 stream))
        ≡ ok ((done ++ element_3 stream) ++ zeros m, off + 32)
    unfolding element_3
    put_3 =
        rw
          (
            high_four (byte_y stream) (byte_below 63),
            high_two (byte_z stream) (byte_below 95),
            or_nibbles_flipped (byte_y stream / 16) (byte_z stream / 64)
                (omega (arith, byte_below 63)) (omega (arith, byte_below 95)),
          )
          (write_element-lem done (pad_take 31 (drop 96 stream)) off k m
            (byte_y stream / 16 + byte_z stream / 64 * 16) at_end aligned room
            (omega (arith, byte_below 63, byte_below 95)) (length-pad_take 31 (drop 96 stream)))

-- One round, from a first chunk that shows the stream.
module _ (input stream : List ℕ) (round p off k m : ℕ) (done : List ℕ) (bytes : All IsByte stream)
    (same : drop p input ≡ drop 31 stream) (at_end : length done ≡ off) (aligned : off % 32 ≡ 0)
    (room : 128 + m ≡ k) where
  later : (n : ℕ) → drop (p + n) input ≡ drop (31 + n) stream
  later n = sym (drop-drop p n input) ∙ (ap (drop n) same ∙ drop-drop 31 n stream)

  one_at :
      (n q : ℕ)
      → q ≡ p + n
      → read_one_byte input (min q (length input))
        ≡ ok (first_or_zero (drop (31 + n) stream), min (q + 1) (length input))
  one_at n q e = rw (e, sym (later n)) (read_one_byte_at input (p + n))

  chunk_at :
      (n q : ℕ)
      → q ≡ p + n
      → read_31_bytes input (min q (length input))
        ≡ ok (pad_take 31 (drop (31 + n) stream), min (q + 31) (length input))
  chunk_at n q e = rw (e, sym (later n)) (read_31_bytes_at input (p + n))

  pub encode_round-lem :
      (r : ℕ)
      → (if round == 0 then first_chunk input r else read_31_bytes input r)
        ≡ ok (pad_take 31 stream, min p (length input))
      → encode_round input round
          (record { out = done ++ zeros k; write_offset = off; read_offset = r })
        ≡ ok (record {
          out = (done ++ group stream) ++ zeros m;
          write_offset = off + 128;
          read_offset = min (p + 96) (length input);
        })
  unfolding encode_round group
  encode_round-lem r first =
      rw
        (
          first,
          one_at 0 p (omega arith),
          put_0 stream bytes done off k (96 + m) at_end aligned (omega arith),
          chunk_at 1 (p + 1) (omega arith),
          one_at 32 (p + 1 + 31) (omega arith),
          put_1 stream bytes (done ++ element_0 stream) (off + 32) (96 + m) (64 + m) at_1
              (omega arith) (omega arith),
          chunk_at 33 (p + 1 + 31 + 1) (omega arith),
          one_at 64 (p + 1 + 31 + 1 + 31) (omega arith),
          put_2 stream bytes ((done ++ element_0 stream) ++ element_1 stream) (off + 32 + 32)
              (64 + m) (32 + m) at_2 (omega arith) (omega arith),
          chunk_at 65 (p + 1 + 31 + 1 + 31 + 1) (omega arith),
          put_3 stream bytes (((done ++ element_0 stream) ++ element_1 stream) ++ element_2 stream)
              (off + 32 + 32 + 32) (32 + m) m at_3 (omega arith) (omega arith),
        )
        (ground (arith, flat))
    where
      flat :
          (((done ++ element_0 stream) ++ element_1 stream) ++ element_2 stream) ++ element_3 stream
          ≡ done ++ group stream
      flat = simp append_assoc

      at_1 : length (done ++ element_0 stream) ≡ off + 32
      at_1 = omega (arith, length-append done (element_0 stream), length-element_0 stream)

      at_2 : length ((done ++ element_0 stream) ++ element_1 stream) ≡ off + 32 + 32
      at_2 = omega (
        arith,
        length-append (done ++ element_0 stream) (element_1 stream),
        length-element_1 stream,
        at_1,
      )

      at_3 :
          length (((done ++ element_0 stream) ++ element_1 stream) ++ element_2 stream)
          ≡ off + 32 + 32 + 32
      at_3 = omega (
        arith,
        length-append ((done ++ element_0 stream) ++ element_1 stream) (element_2 stream),
        length-element_2 stream,
        at_2,
      )
