-- ===== src/Blob/Payload.antt =====
-- A payload of any length goes through blobs and back: the two ends of
-- crates/primitives/src/blob.rs that work on lists of blobs.
use taiko_mk.Prelude.{ℕ, zero, suc, ◌≤◌, ◌<◌, ◌≡◌, refl, sym, ap, ◌∙◌, arith}
use taiko_mk.Prelude.{inl, inr, true, false, List, ◌∷◌, ◌++◌, [], map}
use taiko_mk.Prelude.{
  ltb, length, length-drop, take, drop, take-append-drop, any, retain, Bool-cases, All, All-drop,
}
use taiko_mk.Config.{max_blob_data_size}
use taiko_mk.Blob.{IsByte, decode_blob_data, create_blob_from_data}
use taiko_mk.Blob.Bytes.{BlobResult, ok, ◌>>=◌, length-take}
use taiko_mk.Blob.Groups.{groups}
use taiko_mk.Blob.Creation.{create_blob_from_data-lem}
use taiko_mk.Blob.RoundTrip.{stream, decode_blob_data-groups}
use taiko_mk.Blob.Sidecar.{
  chunks, collect_map, create_blobs, on_thread_pool, BlobSidecar, same_bytes,
  calculate_blob_versioned_hash, is_wanted, decode_wanted, decode_blobs_into_bytes_async,
}
use mathlib.Core.Path.{fun_ext}
use mathlib.Core.List.{append_assoc, append-nil}

concat : List (List ℕ) → List ℕ
concat [] = []
concat (xs ∷ xss) = xs ++ concat xss

-- Chunks lose nothing, and are short.
concat-chunks :
    (fuel n : ℕ) (xs : List ℕ) → length xs ≤ fuel → 0 < n → concat (chunks fuel n xs) ≡ xs
unfolding chunks concat
concat-chunks zero n [] h pos = refl
concat-chunks zero n (x ∷ xs) h pos = absurd (omega arith)
concat-chunks (suc fuel) n [] h pos = refl
concat-chunks (suc fuel) n (x ∷ xs) h pos =
    ap (λ t. take n (x ∷ xs) ++ t)
      (concat-chunks fuel n (drop n (x ∷ xs)) (omega (arith, length-drop n (x ∷ xs))) pos)
    ∙ take-append-drop n (x ∷ xs)

Fits : List ℕ → Type 0
Fits c = All IsByte c × (length c ≤ max_blob_data_size)

All-take : (n : ℕ) (xs : List ℕ) → All IsByte xs → All IsByte (take n xs)
All-take zero xs h = tt
All-take (suc n) [] h = tt
All-take (suc n) (x ∷ xs) h = (h.0, All-take n xs h.1)

chunks-Fits :
    (fuel : ℕ) (xs : List ℕ) → All IsByte xs → All Fits (chunks fuel max_blob_data_size xs)
unfolding chunks Fits
chunks-Fits zero xs h = tt
chunks-Fits (suc fuel) [] h = tt
chunks-Fits (suc fuel) (x ∷ xs) h = (
  (All-take max_blob_data_size (x ∷ xs) h, omega (arith, length-take max_blob_data_size (x ∷ xs))),
  chunks-Fits fuel (drop max_blob_data_size (x ∷ xs))
      (All-drop IsByte max_blob_data_size (x ∷ xs) h),
)

-- The blob of a chunk.
blob_of : List ℕ → List ℕ
blob_of c = groups 1024 (stream c)

blobs_of_chunks :
    (cs : List (List ℕ)) → All Fits cs → collect_map create_blob_from_data cs ≡ ok (map blob_of cs)
unfolding collect_map blob_of Fits
blobs_of_chunks [] h = refl
blobs_of_chunks (c ∷ cs) h =
    rw (create_blob_from_data-lem c h.0.0, in_bounds, blobs_of_chunks cs h.1)
  where
    in_bounds : ltb max_blob_data_size (length c) ≡ false
    in_bounds = ground arith

same_bytes_refl : (xs : List ℕ) → same_bytes xs xs ≡ true
same_bytes_refl [] = refl
same_bytes_refl (x ∷ xs) = ground (arith, same_bytes_refl xs)

module _ (keccak256 : List ℕ → List ℕ) where
  -- Sidecars whose hash is not asked for change nothing.
  decode_wanted-retain :
      (hs : List (List ℕ)) (bs : List BlobSidecar) (acc : List ℕ)
      → decode_wanted keccak256 hs bs acc
        ≡ decode_wanted keccak256 hs (retain (is_wanted keccak256 hs) bs) acc
  unfolding decode_wanted
  decode_wanted-retain hs [] acc = refl
  decode_wanted-retain hs (b ∷ bs) acc = elim (Bool-cases (is_wanted keccak256 hs b)) [
    | inl e ↦
        rw (e, decode_wanted)
          (ap (λ (f : List ℕ → BlobResult (List ℕ)). decode_blob_data b.blob >>= f)
              (fun_ext (λ decoded. decode_wanted-retain hs bs (acc ++ decoded)))
            ∙ rw e)
    | inr e ↦ rw (e, decode_wanted) (decode_wanted-retain hs bs acc)
  ]

  -- A sidecar whose hash is not asked for has no influence on the result, neither on the bytes nor
  -- on an error.
  pub decode_blobs_into_bytes_async-retain :
      (blobs : List BlobSidecar) (blob_hashes : List (List ℕ))
      → decode_blobs_into_bytes_async keccak256 blobs blob_hashes
        ≡ decode_blobs_into_bytes_async keccak256
            (retain (is_wanted keccak256 blob_hashes) blobs)
            blob_hashes
  unfolding decode_blobs_into_bytes_async
  decode_blobs_into_bytes_async-retain blobs blob_hashes =
      ap on_thread_pool (decode_wanted-retain blob_hashes blobs [])

  -- `commit` is the KZG library's commitment to a blob.
  module _ (commit : List ℕ → List ℕ) where
    unfoldable pub sidecar_of : List ℕ → BlobSidecar
    sidecar_of b = record { kzg_commitment = commit b; blob = b }

    unfoldable pub hash_of : List ℕ → List ℕ
    hash_of b = calculate_blob_versioned_hash keccak256 (commit b)

    any_listed :
        (b : List ℕ) (front bs : List (List ℕ))
        → any (same_bytes (hash_of b)) (map hash_of (front ++ (b ∷ bs))) ≡ true
    any_listed b [] bs = ground (arith, same_bytes_refl (hash_of b))
    any_listed b (a ∷ front) bs = ground (arith, any_listed b front bs)

    listed :
        (front bs : List (List ℕ))
        → All (λ b. is_wanted keccak256 (map hash_of (front ++ bs)) (sidecar_of b) ≡ true) bs
    listed front [] = tt
    listed front (b ∷ bs) = (
      unfold is_wanted sidecar_of hash_of in any_listed b front bs,
      rw (append_assoc) at (listed (front ++ (b ∷ [])) bs),
    )

    decode_each :
        (hs : List (List ℕ)) (cs : List (List ℕ)) (acc : List ℕ)
        → All Fits cs
        → All (λ b. is_wanted keccak256 hs (sidecar_of b) ≡ true) (map blob_of cs)
        → decode_wanted keccak256 hs (map sidecar_of (map blob_of cs)) acc ≡ ok (acc ++ concat cs)
    unfolding decode_wanted concat
    decode_each hs [] acc fits wanted = ap ok (sym (append-nil acc))
    decode_each hs (c ∷ cs) acc fits wanted =
        rw (wanted.0, decode_wanted, decoded, sym (append_assoc acc c (concat cs)))
          (decode_each hs cs (acc ++ c) fits.1 wanted.1)
      where
        decoded : decode_blob_data (sidecar_of (blob_of c)).blob ≡ ok c
        decoded = unfold sidecar_of blob_of Fits in decode_blob_data-groups c fits.0.0 fits.0.1

-- A payload of any length is split into blobs without an error or a panic, and the sidecars of
-- these blobs, asked for by their hashes, decode to the payload, whatever the commitment and the
-- hash functions are.
pub decode_blobs_into_bytes_async-create_blobs :
    (keccak256 commit : List ℕ → List ℕ) (input : List ℕ)
    → All IsByte input
    → (create_blobs input >>= (λ blobs.
        decode_blobs_into_bytes_async keccak256
          (map (sidecar_of keccak256 commit) blobs)
          (map (hash_of keccak256 commit) blobs)))
      ≡ ok input
unfolding create_blobs decode_blobs_into_bytes_async on_thread_pool
decode_blobs_into_bytes_async-create_blobs keccak256 commit input bytes =
    rw
      (
        blobs_of_chunks cs fits,
        decode_each keccak256 commit (map (hash_of keccak256 commit) (map blob_of cs)) cs [] fits
            (listed keccak256 commit [] (map blob_of cs)),
      )
      (ap ok (concat-chunks (length input) max_blob_data_size input (omega arith) (omega arith)))
  where
    cs : List (List ℕ)
    cs = chunks (length input) max_blob_data_size input

    fits : All Fits cs
    fits = chunks-Fits (length input) input bytes
