-- ===== src/Blob.antt =====
-- crates/primitives/src/blob.rs: the encoding of a byte string in a blob, 127 bytes into 128 in
-- each of 1024 rounds, and its decoding. A byte is a number below 256, `x >> k` is a division and
-- `x << k` a multiplication by `2 ^ k`.
pub mod Bytes
pub mod Bits
pub mod Reading
pub mod Groups
pub mod Encoding
pub mod Creation
pub mod Decoding
pub mod Rounds
pub mod RoundTrip
pub mod Sidecar
pub mod Payload
pub mod Safety
pub mod Tests
use taiko_mk.Prelude.{
  ℕ, zero, suc, ◌+◌, ◌-◌, ◌*◌, ◌/◌, ◌%◌, ◌^◌, ◌<◌, min, Bool, true, false, not, List, [], ◌∷◌, ◌++◌,
}
use taiko_mk.Prelude.{if◌then◌else◌, ltb, leb, ◌==◌, length, take, drop, All}
use taiko_mk.Blob.Bytes.{BlobError, BlobResult, ok, err, panicked, ◌>>=◌}
use taiko_mk.Blob.Bytes.{
  input_too_large, data_did_not_fit, invalid_version, invalid_length, extraneous_field_element,
  extraneous_input, invalid_field_element,
}
use taiko_mk.Blob.Bytes.{zeros, byte_at, slice, write_slice, all_zero}
use taiko_mk.Config.{max_blob_data_size}
use Prim.Native.Nat.{bit_and, bit_or}

abbrev pub IsByte : ℕ → Type 0
IsByte b = b < 256

abbrev pub bytes_per_blob : ℕ
bytes_per_blob = 131072

-- A value that was read and the read offset after it.
unfoldable pub read_one_byte : List ℕ → ℕ → BlobResult (ℕ × ℕ)
read_one_byte input read_offset =
    if ltb read_offset (length input)
    then (do b ← byte_at input read_offset; ok (b, read_offset + 1))
    else ok (0, read_offset)

unfoldable pub read_31_bytes : List ℕ → ℕ → BlobResult (List ℕ × ℕ)
read_31_bytes input read_offset =
    if ltb read_offset (length input)
    then (do
      let n = min 31 (length input - read_offset)
      bytes ← slice input read_offset n
      buf ← write_slice 0 bytes (zeros 31)
      ok (buf, read_offset + n))
    else ok (zeros 31, read_offset)

-- A blob that is written and the write offset.
unfoldable pub write_one_byte : List ℕ → ℕ → ℕ → BlobResult (List ℕ × ℕ)
write_one_byte out write_offset v =
    if not (write_offset % 32 == 0)
    then panicked
    else (if not (bit_and v 0b1100_0000 == 0)
        then panicked
        else (do out ← write_slice write_offset (v ∷ []) out; ok (out, write_offset + 1)))

unfoldable pub write_31_bytes : List ℕ → ℕ → List ℕ → BlobResult (List ℕ × ℕ)
write_31_bytes out write_offset buf =
    if not (write_offset % 32 == 1)
    then panicked
    else (do out ← write_slice write_offset buf out; ok (out, write_offset + 31))

-- One field element: a byte of six bits, then 31 bytes.
unfoldable pub write_element : List ℕ → ℕ → ℕ → List ℕ → BlobResult (List ℕ × ℕ)
write_element out write_offset v buf = do
  w ← write_one_byte out write_offset v
  write_31_bytes w.0 w.1 buf

-- The buffer of the first field element of round 0: the version, the length in three bytes (the
-- casts to `u8` keep the lowest eight bits), and the first 27 bytes of the input.
unfoldable pub first_chunk : List ℕ → ℕ → BlobResult (List ℕ × ℕ)
first_chunk input read_offset = do
  let ilen = length input % 2 ^ 32
  let n = min (31 - 4) (length input - read_offset)
  bytes ← slice input read_offset n
  buf ←
      write_slice 4 bytes
        (0 ∷ (ilen / 2 ^ 16 % 256) ∷ (ilen / 2 ^ 8 % 256) ∷ (ilen % 256) ∷ zeros 27)
  ok (buf, read_offset + n)

pub record Encoder : Type 0 where
  out : List ℕ
  write_offset : ℕ
  read_offset : ℕ

-- The body of the loop of `create_blob_from_data`, after its check on the read offset.
unfoldable pub encode_round : List ℕ → ℕ → Encoder → BlobResult Encoder
encode_round input round s = do
  c0 ← (if round == 0 then first_chunk input s.read_offset else read_31_bytes input s.read_offset)
  rx ← read_one_byte input c0.1
  let x = rx.0
  w0 ← write_element s.out s.write_offset (bit_and x 0b0011_1111) c0.0
  c1 ← read_31_bytes input rx.1
  ry ← read_one_byte input c1.1
  let y = ry.0
  let b = bit_or (bit_and y 0b0000_1111) (bit_and x 0b1100_0000 / 2 ^ 2)
  w1 ← write_element w0.0 w0.1 b c1.0
  c2 ← read_31_bytes input ry.1
  rz ← read_one_byte input c2.1
  let z = rz.0
  w2 ← write_element w1.0 w1.1 (bit_and z 0b0011_1111) c2.0
  c3 ← read_31_bytes input rz.1
  let d = bit_or (bit_and z 0b1100_0000 / 2 ^ 2) (bit_and y 0b1111_0000 / 2 ^ 4)
  w3 ← write_element w2.0 w2.1 d c3.0
  ok (record { out = w3.0; write_offset = w3.1; read_offset = c3.1 })

-- The rounds from `round` on, `n` of them.
unfoldable pub encode_rounds : List ℕ → ℕ → ℕ → Encoder → BlobResult Encoder
encode_rounds input zero round s = ok s
encode_rounds input (suc n) round s = elim (leb (length input) s.read_offset) [
  | true ↦ ok s
  | false ↦ encode_round input round s >>= encode_rounds input n (round + 1)
]

unfoldable pub create_blob_from_data : List ℕ → BlobResult (List ℕ)
create_blob_from_data input =
    if ltb max_blob_data_size (length input) then err (input_too_large (length input)) else (do
      s ←
          encode_rounds input 1024 0
            (record { out = zeros bytes_per_blob; write_offset = 0; read_offset = 0 })
      if ltb s.read_offset (length input)
          then err (data_did_not_fit s.read_offset (length input))
          else ok s.out)

pub record Decoder : Type 0 where
  output_pos : ℕ
  input_pos : ℕ
  output : List ℕ

unfoldable pub decode_field_element : List ℕ → Decoder → BlobResult (ℕ × Decoder)
decode_field_element blob s = do
  result ← byte_at blob s.input_pos
  if not (bit_and result 0b1100_0000 == 0) then err invalid_field_element else (do
    bytes ← slice blob (s.input_pos + 1) 31
    output ← write_slice s.output_pos bytes s.output
    ok (
      result,
      record { output_pos = s.output_pos + 32; input_pos = s.input_pos + 32; output = output },
    ))

-- The shifts to the left are on a `u8`. The output position is at least 124 here, so that the
-- subtractions do not go below 0.
unfoldable pub reassemble_bytes : ℕ → ℕ → ℕ → ℕ → Decoder → BlobResult Decoder
reassemble_bytes e0 e1 e2 e3 s = do
  let output_pos = s.output_pos - 1
  let x = bit_or (bit_and e0 0b0011_1111) (bit_and e1 0b0011_0000 * 2 ^ 2 % 256)
  let y = bit_or (bit_and e1 0b0000_1111) (bit_and e3 0b0000_1111 * 2 ^ 4 % 256)
  let z = bit_or (bit_and e2 0b0011_1111) (bit_and e3 0b0011_0000 * 2 ^ 2 % 256)
  o1 ← write_slice (output_pos - 32) (z ∷ []) s.output
  o2 ← write_slice (output_pos - 32 * 2) (y ∷ []) o1
  o3 ← write_slice (output_pos - 32 * 3) (x ∷ []) o2
  ok (record { output_pos = output_pos; input_pos = s.input_pos; output = o3 })

-- The last three field elements of a round, and the reassembly with the first one's byte.
unfoldable pub decode_rest : List ℕ → ℕ → Decoder → BlobResult Decoder
decode_rest blob e0 s = do
  e1 ← decode_field_element blob s
  e2 ← decode_field_element blob e1.1
  e3 ← decode_field_element blob e2.1
  reassemble_bytes e0 e1.0 e2.0 e3.0 e3.1

unfoldable pub decode_rounds : List ℕ → ℕ → ℕ → Decoder → BlobResult Decoder
decode_rounds blob output_len zero s = ok s
decode_rounds blob output_len (suc n) s = elim (leb output_len s.output_pos) [
  | true ↦ ok s
  | false ↦ do
    e0 ← decode_field_element blob s
    s' ← decode_rest blob e0.0 e0.1
    decode_rounds blob output_len n s'
]

unfoldable pub decode_blob_data : List ℕ → BlobResult (List ℕ)
decode_blob_data blob = do
  version ← byte_at blob 1
  if not (version == 0) then err (invalid_version version) else (do
    l2 ← byte_at blob 2
    l3 ← byte_at blob 3
    l4 ← byte_at blob 4
    let output_len = l2 * 2 ^ 16 + l3 * 2 ^ 8 + l4
    if ltb max_blob_data_size output_len then err (invalid_length output_len) else (do
      first ← slice blob 5 27
      output ← write_slice 0 first (zeros max_blob_data_size)
      b0 ← byte_at blob 0
      s0 ← decode_rest blob b0 (record { output_pos = 28; input_pos = 32; output = output })
      s ← decode_rounds blob output_len 1023 s0
      if not (all_zero (drop output_len (take max_blob_data_size s.output)))
          then err (extraneous_field_element (s.output_pos / 32))
          else (if not (all_zero (drop s.input_pos blob))
              then err (extraneous_input s.input_pos)
              else ok (take output_len s.output))))
