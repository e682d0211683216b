-- ===== src/Errors.antt =====
-- The errors of a proposal: crates/driver/src/batch_submitter/errors.rs. A message is the list of
-- its characters' codes and is ASCII. The payloads of alloy's errors are left out, but for the
-- message of a JSON-RPC error response.
use taiko_mk.Prelude.{
  ℕ, ◌+◌, ◌-◌, ◌*◌, ◌^◌, Bool, true, false, ◌&&◌, Option, none, some, List, [], ◌∷◌, map, ltb, leb,
  ◌==◌, if◌then◌else◌, is_nil,
}

-- `RpcError<TransportErrorKind>` of alloy.
pub data RpcError : Type 0 where
  error_resp : List ℕ → RpcError
  other_rpc_error : RpcError

-- The errors of `ITaikoInbox` that the code tells apart.
pub data TaikoInboxError : Type 0 where
  not_preconfer : TaikoInboxError
  not_the_operator : TaikoInboxError
  other_inbox_error : TaikoInboxError

pub data RetryBatchSubmissionError : Type 0 where
  rpc_error : RpcError → RetryBatchSubmissionError
  taiko_inbox : TaikoInboxError → RetryBatchSubmissionError
  unknown_selector : RetryBatchSubmissionError
  fees_too_high : ℕ → ℕ → RetryBatchSubmissionError

pub data BatchProposalError : Type 0 where
  zlib : BatchProposalError
  blob_sidecar : BatchProposalError
  transport : RpcError → BatchProposalError
  deadline_reached : BatchProposalError
  failed_to_convert_into_tx_envelope : BatchProposalError
  failed_to_parse_contract_error : BatchProposalError
  solidity_error : BatchProposalError
  batch_retry_error : RetryBatchSubmissionError → BatchProposalError
  no_head : BatchProposalError
  reverted : ℕ → Option ℕ → BatchProposalError

-- `TryParseTransportErrorResult<ITaikoInboxErrors>`.
pub data TryParseTransportErrorResult : Type 0 where
  undecodable : TryParseTransportErrorResult
  original : RpcError → TryParseTransportErrorResult
  decoded : TaikoInboxError → TryParseTransportErrorResult

unfoldable pub from_parsed : TryParseTransportErrorResult → RetryBatchSubmissionError
from_parsed undecodable = unknown_selector
from_parsed (original e) = rpc_error e
from_parsed (decoded e) = taiko_inbox e

-- "max fee per blob gas less than block blob gas fee"
abbrev pub blob_gas_too_low_error : List ℕ
blob_gas_too_low_error =
    109 ∷ 97 ∷ 120 ∷ 32 ∷ 102 ∷ 101 ∷ 101 ∷ 32 ∷ 112 ∷ 101 ∷ 114 ∷ 32 ∷ 98 ∷ 108 ∷ 111 ∷ 98 ∷ 32
    ∷ 103 ∷ 97 ∷ 115 ∷ 32 ∷ 108 ∷ 101 ∷ 115 ∷ 115 ∷ 32 ∷ 116 ∷ 104 ∷ 97 ∷ 110 ∷ 32 ∷ 98 ∷ 108 ∷ 111
    ∷ 99 ∷ 107 ∷ 32 ∷ 98 ∷ 108 ∷ 111 ∷ 98 ∷ 32 ∷ 103 ∷ 97 ∷ 115 ∷ 32 ∷ 102 ∷ 101 ∷ 101 ∷ []

-- "max fee per gas less than block base fee"
abbrev pub max_fee_per_gas_too_low_error : List ℕ
max_fee_per_gas_too_low_error =
    109 ∷ 97 ∷ 120 ∷ 32 ∷ 102 ∷ 101 ∷ 101 ∷ 32 ∷ 112 ∷ 101 ∷ 114 ∷ 32 ∷ 103 ∷ 97 ∷ 115 ∷ 32 ∷ 108
    ∷ 101 ∷ 115 ∷ 115 ∷ 32 ∷ 116 ∷ 104 ∷ 97 ∷ 110 ∷ 32 ∷ 98 ∷ 108 ∷ 111 ∷ 99 ∷ 107 ∷ 32 ∷ 98 ∷ 97
    ∷ 115 ∷ 101 ∷ 32 ∷ 102 ∷ 101 ∷ 101 ∷ []

-- "nonce too low"
abbrev pub nonce_too_low_error : List ℕ
nonce_too_low_error = 110 ∷ 111 ∷ 110 ∷ 99 ∷ 101 ∷ 32 ∷ 116 ∷ 111 ∷ 111 ∷ 32 ∷ 108 ∷ 111 ∷ 119 ∷ []

-- "basefee: "
abbrev pub base_fee_prefix : List ℕ
base_fee_prefix = 98 ∷ 97 ∷ 115 ∷ 101 ∷ 102 ∷ 101 ∷ 101 ∷ 58 ∷ 32 ∷ []

abbrev lowercase : ℕ → ℕ
lowercase c = if leb 65 c && leb c 90 then c + 32 else c

unfoldable pub to_lowercase : List ℕ → List ℕ
to_lowercase s = map lowercase s

-- What follows a prefix.
unfoldable pub strip_prefix : List ℕ → List ℕ → Option (List ℕ)
strip_prefix [] s = some s
strip_prefix (p ∷ ps) [] = none
strip_prefix (p ∷ ps) (c ∷ s) = let rest = strip_prefix ps s in if p == c then rest else none

-- What follows the first occurrence of a pattern.
unfoldable pub find_after : List ℕ → List ℕ → Option (List ℕ)
find_after pattern [] = strip_prefix pattern []
find_after pattern (c ∷ s) =
    let later = find_after pattern s in
    elim (strip_prefix pattern (c ∷ s)) [ none ↦ later | some rest ↦ some rest ]

unfoldable pub contains : List ℕ → List ℕ → Bool
contains s pattern = elim (find_after pattern s) [ none ↦ false | some rest ↦ true ]

unfoldable pub matches_not_preconfer_inbox : RetryBatchSubmissionError → Bool
matches_not_preconfer_inbox (rpc_error e) = false
matches_not_preconfer_inbox (taiko_inbox not_preconfer) = true
matches_not_preconfer_inbox (taiko_inbox not_the_operator) = true
matches_not_preconfer_inbox (taiko_inbox other_inbox_error) = false
matches_not_preconfer_inbox unknown_selector = false
matches_not_preconfer_inbox (fees_too_high got max) = false

unfoldable pub matches_not_preconfer : BatchProposalError → Bool
matches_not_preconfer (batch_retry_error e) = matches_not_preconfer_inbox e
matches_not_preconfer _ = false

unfoldable pub matches_nonce_too_low : BatchProposalError → Bool
matches_nonce_too_low (batch_retry_error (rpc_error (error_resp message))) =
    contains (to_lowercase message) nonce_too_low_error
matches_nonce_too_low _ = false

abbrev is_ascii_digit : ℕ → Bool
is_ascii_digit c = leb 48 c && leb c 57

take_digits : List ℕ → List ℕ
take_digits [] = []
take_digits (c ∷ s) = let rest = take_digits s in if is_ascii_digit c then c ∷ rest else []

-- The value of digits, after what stands before them.
digits_value : ℕ → List ℕ → ℕ
digits_value before [] = before
digits_value before (c ∷ s) = digits_value (before * 10 + (c - 48)) s

-- `parse::<u128>().ok()` on digits: no digits and a value that is too large are errors.
parse_u128 : List ℕ → Option ℕ
parse_u128 s =
    let value = digits_value 0 s in
    if is_nil s then none else if ltb value (2 ^ 128) then some value else none

-- The spaces at the ends, which `trim` takes off, neither start the prefix nor are digits.
pub extract_base_fee_from_err : List ℕ → Option ℕ
extract_base_fee_from_err err = elim (find_after base_fee_prefix (to_lowercase err)) [
  | none ↦ none
  | some rest ↦ parse_u128 (take_digits rest)
]
