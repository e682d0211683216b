-- ===== src/Blob/Sidecar.antt =====
-- The blobs of one payload: `create_blob_sidecar_from_data_blocking`, its wrapper on the thread
-- pool, `decode_blobs_into_bytes_async` and `calculate_blob_versioned_hash` of
-- crates/primitives/src/blob.rs. The KZG library's `try_from_blobs_bytes` and `keccak256` are
-- parameters.
use taiko_mk.Prelude.{ℕ, zero, suc}
use taiko_mk.Prelude.{Bool, true, false, ◌&&◌, Option, none, some, List, ◌∷◌, ◌++◌, []}
use taiko_mk.Prelude.{◌==◌, length, take, drop, any}
use taiko_mk.Config.{max_blob_data_size}
use taiko_mk.Blob.{decode_blob_data, create_blob_from_data}
use taiko_mk.Blob.Bytes.{BlobResult, ok, err, panicked, ◌>>=◌, kzg_error, thread_panicked}

-- `slice::chunks(n)`, for a list of at most `fuel` bytes.
unfoldable pub chunks : ℕ → ℕ → List ℕ → List (List ℕ)
chunks zero n xs = []
chunks (suc fuel) n [] = []
chunks (suc fuel) n (x ∷ xs) = take n (x ∷ xs) ∷ chunks fuel n (drop n (x ∷ xs))

-- `.map(f).collect::<Result<Vec<_>, _>>()`: the first error ends it.
unfoldable pub collect_map :
    (List ℕ → BlobResult (List ℕ)) → List (List ℕ) → BlobResult (List (List ℕ))
collect_map f [] = ok []
collect_map f (x ∷ xs) = f x >>= λ y. collect_map f xs >>= λ ys. ok (y ∷ ys)

-- The blobs that the input is split into.
unfoldable pub create_blobs : List ℕ → BlobResult (List (List ℕ))
create_blobs input =
    collect_map create_blob_from_data (chunks (length input) max_blob_data_size input)

-- `spawn_blocking(…).await.map_err(BlobError::ThreadPanicked)?`.
unfoldable pub on_thread_pool : {A : Type 0} → BlobResult A → BlobResult A
on_thread_pool (ok a) = ok a
on_thread_pool (err e) = err e
on_thread_pool panicked = err thread_panicked

module _ {S : Type 0} (try_from_blobs_bytes : List (List ℕ) → Option S) where
  unfoldable pub create_blob_sidecar_from_data_blocking : List ℕ → BlobResult S
  create_blob_sidecar_from_data_blocking input = do
    blobs ← create_blobs input
    elim (try_from_blobs_bytes blobs) [ none ↦ err kzg_error | some sidecar ↦ ok sidecar ]

  unfoldable pub create_blob_sidecar_from_data_async : List ℕ → BlobResult S
  create_blob_sidecar_from_data_async input =
      on_thread_pool (create_blob_sidecar_from_data_blocking input)

pub record BlobSidecar : Type 0 where
  pub kzg_commitment : List ℕ
  pub blob : List ℕ

abbrev pub same_bytes : List ℕ → List ℕ → Bool
same_bytes [] [] = true
same_bytes [] (y ∷ ys) = false
same_bytes (x ∷ xs) [] = false
same_bytes (x ∷ xs) (y ∷ ys) = (x == y) && same_bytes xs ys

module _ (keccak256 : List ℕ → List ℕ) where
  -- `VERSIONED_HASH_VERSION_KZG` is 1.
  unfoldable pub calculate_blob_versioned_hash : List ℕ → List ℕ
  calculate_blob_versioned_hash kzg_commitment = 1 ∷ drop 1 (keccak256 kzg_commitment)

  unfoldable pub is_wanted : List (List ℕ) → BlobSidecar → Bool
  is_wanted blob_hashes b =
      any (same_bytes (calculate_blob_versioned_hash b.kzg_commitment)) blob_hashes

  unfoldable pub decode_wanted : List (List ℕ) → List BlobSidecar → List ℕ → BlobResult (List ℕ)
  decode_wanted blob_hashes [] decoded_blobs_data = ok decoded_blobs_data
  decode_wanted blob_hashes (b ∷ blobs) decoded_blobs_data = elim (is_wanted blob_hashes b) [
    | true ↦ do
      decoded ← decode_blob_data b.blob
      decode_wanted blob_hashes blobs (decoded_blobs_data ++ decoded)
    | false ↦ decode_wanted blob_hashes blobs decoded_blobs_data
  ]

  unfoldable pub decode_blobs_into_bytes_async :
      List BlobSidecar → List (List ℕ) → BlobResult (List ℕ)
  decode_blobs_into_bytes_async blobs blob_hashes =
      on_thread_pool (decode_wanted blob_hashes blobs [])
