-- ===== src/Inbox/ExtraData.antt =====
-- The encoding of the sharing percentage in crates/chainio/src/taiko/inbox.rs.
use taiko_mk.Prelude.{
  ℕ, zero, suc, ◌+◌, ◌-◌, ◌*◌, ◌/◌, ◌%◌, ◌^◌, ◌≤◌, ◌<◌, ◌≡◌, refl, ap, ◌∙◌, inl, inr, ◌==◌, List,
  [], ◌∷◌, ◌++◌, length, length-append, length-drop, drop, arith, Bool-cases,
}
use taiko_mk.Anchor.{InboxBaseFeeConfig}
use taiko_mk.Blob.Bytes.{ok, zeros, length-zeros, zeros-add, write_slice, write_slice-zeros}
use taiko_mk.Inbox.{to_be_bytes, first_nonzero, encoded_extra_data}

-- The number with the big-endian digits `bs` behind those of `high`.
abbrev pub from_be_bytes : ℕ → List ℕ → ℕ
from_be_bytes high [] = high
from_be_bytes high (b ∷ bs) = from_be_bytes (high * 256 + b) bs

from_be_bytes-append :
    (high : ℕ) (xs ys : List ℕ)
    → from_be_bytes high (xs ++ ys) ≡ from_be_bytes (from_be_bytes high xs) ys
from_be_bytes-append high [] ys = refl
from_be_bytes-append high (x ∷ xs) ys = from_be_bytes-append (high * 256 + x) xs ys

from_be_bytes-zeros : (n : ℕ) (bs : List ℕ) → from_be_bytes 0 (zeros n ++ bs) ≡ from_be_bytes 0 bs
unfolding zeros
from_be_bytes-zeros zero bs = refl
from_be_bytes-zeros (suc n) bs = from_be_bytes-zeros n bs

from_be_bytes-to_be_bytes : (k n : ℕ) → n < 256 ^ k → from_be_bytes 0 (to_be_bytes k n) ≡ n
unfolding to_be_bytes
from_be_bytes-to_be_bytes zero n h = omega arith
from_be_bytes-to_be_bytes (suc k) n h =
    let small : n / 256 < 256 ^ k = omega arith in
    rw
      (
        from_be_bytes-append 0 (to_be_bytes k (n / 256)) (n % 256 ∷ []),
        from_be_bytes-to_be_bytes k (n / 256) small,
      )
      (omega arith)

length-to_be_bytes : (k n : ℕ) → length (to_be_bytes k n) ≡ k
unfolding to_be_bytes
length-to_be_bytes zero n = refl
length-to_be_bytes (suc k) n =
    rw (length-append (to_be_bytes k (n / 256)) (n % 256 ∷ []), length-to_be_bytes k (n / 256))
      (omega arith)

from_be_bytes-minimal :
    (bs : List ℕ) → from_be_bytes 0 (drop (first_nonzero bs) bs) ≡ from_be_bytes 0 bs
unfolding first_nonzero
from_be_bytes-minimal [] = refl
from_be_bytes-minimal (b ∷ bs) = elim (Bool-cases (b == 0)) [
  | inl e ↦ let nothing : b ≡ 0 = ground arith in rw (e, from_be_bytes-minimal bs, nothing) refl
  | inr e ↦ rw e refl
]

-- Bytes at the end of the 32 bytes, behind zeros.
write_at_end :
    (bs : List ℕ)
    → length bs ≤ 32
    → write_slice (32 - length bs) bs (zeros 32) ≡ ok (zeros (32 - length bs) ++ (bs ++ zeros 0))
write_at_end bs h =
    let n : ℕ = 32 - length bs in
    let sum : 32 ≡ n + length bs = omega arith in
    let parts : zeros 32 ≡ zeros n ++ zeros (length bs) = ap zeros sum ∙ zeros-add n (length bs) in
    rw parts (write_slice-zeros n (length bs) 0 (zeros n) bs (length-zeros n) (omega arith))

-- The extra data of a block is 32 bytes that are the sharing percentage as a big-endian number, for
-- every percentage that fits in a byte. Neither the slice nor the copy panics.
pub encoded_extra_data_lem :
    (config : InboxBaseFeeConfig)
    → config.inbox_sharing_pctg < 256
    → (bytes : List ℕ) × (encoded_extra_data config ≡ ok bytes)
      × (length bytes ≡ 32)
      × (from_be_bytes 0 bytes ≡ config.inbox_sharing_pctg)
unfolding encoded_extra_data zeros
encoded_extra_data_lem config h =
    let n : ℕ = config.inbox_sharing_pctg in
    let digits : List ℕ = to_be_bytes 8 n in
    let minimal : List ℕ = drop (first_nonzero digits) digits in
    let short : length minimal ≤ 32 =
      omega (arith, length-drop (first_nonzero digits) digits, length-to_be_bytes 8 n) in
    let start : ℕ = 32 - length minimal in
    (
      zeros start ++ (minimal ++ zeros 0),
      write_at_end minimal short,
      omega (
        arith,
        length-append (zeros start) (minimal ++ zeros 0),
        length-append minimal (zeros 0),
        length-zeros start,
        length-zeros 0,
      ),
      rw
          (
            from_be_bytes-zeros start (minimal ++ zeros 0),
            from_be_bytes-append 0 minimal (zeros 0),
            from_be_bytes-minimal digits,
          )
          (from_be_bytes-to_be_bytes 8 n (omega arith)),
    )
