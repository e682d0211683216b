-- ===== src/Blob/Tests.antt =====
-- Runs of crates/primitives/src/blob.rs on small inputs.
use taiko_mk.Prelude.{ℕ, ◌≤◌, ◌≡◌, refl, arith, List, [], ◌∷◌, ◌++◌, map, length, retain}
use taiko_mk.Prelude.{if◌then◌else◌, ltb}
use taiko_mk.Config.{max_blob_data_size}
use taiko_mk.Blob.{bytes_per_blob, create_blob_from_data, decode_blob_data, write_one_byte}
use taiko_mk.Blob.Bytes.{ok, err, panicked, ◌>>=◌, zeros, input_too_large, length-zeros}
use taiko_mk.Blob.Groups.{groups}
use taiko_mk.Blob.Reading.{header_bytes}
use taiko_mk.Blob.Creation.{create_blob_from_data-lem}
use taiko_mk.Blob.RoundTrip.{decode_blob_data-create_blob_from_data}
use taiko_mk.Blob.Sidecar.{
  BlobSidecar, create_blobs, decode_blobs_into_bytes_async, is_wanted, chunks,
}
use taiko_mk.Blob.Payload.{
  sidecar_of, hash_of, decode_blobs_into_bytes_async-create_blobs,
  decode_blobs_into_bytes_async-retain,
}
use taiko_mk.Blob.Safety.{Ensures, decode_blob_data-Ensures}

abbrev message : List ℕ
message = 7 ∷ 0 ∷ 255 ∷ 128 ∷ []

-- A commitment and a hash for the examples: the length, and the bytes with one in front.
abbrev commit : List ℕ → List ℕ
commit b = length b ∷ []

abbrev hash : List ℕ → List ℕ
hash bs = 1 ∷ bs

chunks_test : chunks 4 3 message ≡ (7 ∷ 0 ∷ 255 ∷ []) ∷ (128 ∷ []) ∷ []
unfolding chunks
chunks_test = refl

write_one_byte_test : write_one_byte (zeros 32) 1 5 ≡ panicked
unfolding write_one_byte
write_one_byte_test = refl

create_blob_from_data-lem_example : create_blob_from_data message ≡ (
    if ltb max_blob_data_size (length message)
    then err (input_too_large (length message))
    else ok (groups 1024 (header_bytes message ++ message)))
create_blob_from_data-lem_example = create_blob_from_data-lem message (omega arith)

decode_blob_data-create_blob_from_data_example :
    (create_blob_from_data message >>= decode_blob_data) ≡ ok message
decode_blob_data-create_blob_from_data_example =
    decode_blob_data-create_blob_from_data message (omega arith) (omega arith)

decode_blob_data-Ensures_example :
    Ensures (λ out. length out ≤ max_blob_data_size) (decode_blob_data (zeros bytes_per_blob))
decode_blob_data-Ensures_example =
    decode_blob_data-Ensures (zeros bytes_per_blob) (length-zeros bytes_per_blob)

decode_blobs_into_bytes_async-create_blobs_example :
    (create_blobs message >>= (λ blobs.
      decode_blobs_into_bytes_async hash
        (map (sidecar_of hash commit) blobs)
        (map (hash_of hash commit) blobs)))
    ≡ ok message
decode_blobs_into_bytes_async-create_blobs_example =
    decode_blobs_into_bytes_async-create_blobs hash commit message (omega arith)

abbrev sidecars : List BlobSidecar
sidecars =
    record { kzg_commitment = 5 ∷ []; blob = 1 ∷ [] }
    ∷ record { kzg_commitment = 9 ∷ []; blob = zeros 64 }
    ∷ []

decode_blobs_into_bytes_async-retain_example :
    decode_blobs_into_bytes_async hash sidecars ((1 ∷ 9 ∷ []) ∷ [])
    ≡ decode_blobs_into_bytes_async hash
        (retain (is_wanted hash ((1 ∷ 9 ∷ []) ∷ [])) sidecars)
        ((1 ∷ 9 ∷ []) ∷ [])
decode_blobs_into_bytes_async-retain_example =
    decode_blobs_into_bytes_async-retain hash sidecars ((1 ∷ 9 ∷ []) ∷ [])
