-- ===== src/Preconf.antt =====
-- The client of the preconf API: crates/clients/src/taiko_preconf.rs, and `is_connection_refused` of
-- crates/primitives/src/retries.rs. HTTP, JSON, the token and the websocket are the outside: what they
-- answer is an argument. Times are milliseconds.
pub mod Retries
pub mod Events
mod Tests
use taiko_mk.Prelude.{
  ℕ, zero, suc, ◌+◌, ◌*◌, Bool, true, false, ◌&&◌, ◌||◌, Option, none, some, List, [], ◌∷◌, ◌++◌,
  ltb, leb, add64, ◌==◌, if◌then◌else◌, min, length, map,
}
use taiko_mk.Errors.{contains, to_lowercase}

-- What the code reads of a `reqwest::Error`.
pub record HttpError : Type 0 where
  pub text : List ℕ
  pub is_timeout : Bool
  pub is_connect : Bool
  pub status : Option ℕ

-- Texts are the bytes of their characters.
pub data TaikoPreconfClientError : Type 0 where
  parse_url : TaikoPreconfClientError
  http : HttpError → TaikoPreconfClientError
  ws : TaikoPreconfClientError
  jwt : List ℕ → TaikoPreconfClientError
  serde : TaikoPreconfClientError
  build : List ℕ → TaikoPreconfClientError
  retries_exhausted : TaikoPreconfClientError → TaikoPreconfClientError

-- `Result<T, TaikoPreconfClientError>`.
pub data Result (T : Type 0) : Type 0 where
  ok : T → Result T
  err : TaikoPreconfClientError → Result T

-- "connection refused"
abbrev pub connection_refused : List ℕ
connection_refused =
    99 ∷ 111 ∷ 110 ∷ 110 ∷ 101 ∷ 99 ∷ 116 ∷ 105 ∷ 111 ∷ 110 ∷ 32 ∷ 114 ∷ 101 ∷ 102 ∷ 117 ∷ 115 ∷ 101
    ∷ 100 ∷ []

unfoldable pub is_connection_refused : List ℕ → Bool
is_connection_refused text = contains (to_lowercase text) connection_refused

-- `StatusCode::is_server_error`: 500 to 599.
abbrev pub is_server_error : ℕ → Bool
is_server_error s = leb 500 s && ltb s 600

unfoldable pub is_retryable : TaikoPreconfClientError → Bool
is_retryable (http e) =
    is_connection_refused e.text
    || (e.is_timeout
        || (e.is_connect || elim e.status [ some s ↦ is_server_error s | none ↦ false ]))
is_retryable _ = false

pub record TaikoPreconfClientConfig : Type 0 where
  pub timeout : ℕ
  pub retry_attempts : ℕ
  pub base_delay : ℕ

abbrev pub default_config : TaikoPreconfClientConfig
default_config = record { timeout = 10_000; retry_attempts = 3; base_delay = 100 }

abbrev pub max_delay : ℕ
max_delay = 10_000

-- How `retry` ends, with the calls it made and how long it slept before each but the first. `panicked`
-- is `unwrap` on a missing last error.
pub data Outcome (T : Type 0) : Type 0 where
  returned : Result T → Outcome T
  panicked : Outcome T

pub record Run (T : Type 0) : Type 0 where
  pub outcome : Outcome T
  pub calls : ℕ
  pub sleeps : List ℕ

-- The operation is a function of the call's number, from 0 on.
module _ {T : Type 0} (operation : ℕ → Result T) where
  -- Behind the loop.
  unfoldable pub exhausted : Option TaikoPreconfClientError → Outcome T
  exhausted none = panicked
  exhausted (some e) = returned (err (retries_exhausted e))

  -- The loop with `left` rounds to go, the last of which is number `retry_attempts`; leaving by
  -- `break` there is the end of the range as well.
  unfoldable pub retry_loop : ℕ → ℕ → ℕ → Option TaikoPreconfClientError → List ℕ → Run T
  retry_loop zero attempt delay last_err sleeps = record {
    outcome = exhausted last_err;
    calls = attempt;
    sleeps = sleeps;
  }
  retry_loop (suc left) attempt delay last_err sleeps =
      let slept = if ltb 0 attempt then sleeps ++ delay ∷ [] else sleeps in
      let next_delay = if ltb 0 attempt then min (delay * 2) max_delay else delay in
      elim (operation attempt) [
        | ok result ↦ record { outcome = returned (ok result); calls = attempt + 1; sleeps = slept }
        | err e ↦ elim (is_retryable e) [
          | false ↦ record { outcome = returned (err e); calls = attempt + 1; sleeps = slept }
          | true ↦ retry_loop left (attempt + 1) next_delay (some e) slept
        ]
      ]

  unfoldable pub retry : TaikoPreconfClientConfig → Run T
  retry config = retry_loop (config.retry_attempts + 1) 0 config.base_delay none []

-- `Claims`, and the reply of the server: `BuildPreconfBlockResponseBody`.
pub record Claims : Type 0 where
  pub iat : ℕ
  pub exp : Option ℕ

pub data ResponseBody (H : Type 0) : Type 0 where
  success : H → ResponseBody H
  error : List ℕ → ResponseBody H

unfoldable pub claims_at : ℕ → Claims
claims_at timestamp = record { iat = timestamp; exp = some (add64 timestamp 3600) }

unfoldable pub header_of : {H : Type 0} → Result (ResponseBody H) → Result H
header_of (err e) = err e
header_of (ok (success block_header)) = ok block_header
header_of (ok (error text)) = err (build text)

module _ {Token Url Body Json H : Type 0} where
  -- The token, the address, the exchange and the parse, each with its error.
  unfoldable pub build_preconf_block :
      ℕ
      → (Claims → Result Token)
      → Result Url
      → (Url → Token → Body → Result Json)
      → (Json → Result (ResponseBody H))
      → Body
      → Result H
  build_preconf_block timestamp encode url post from_value body =
      elim (encode (claims_at timestamp)) [
        | err e ↦ err e
        | ok token ↦ elim url [
          | err e ↦ err e
          | ok address ↦ elim (post address token body) [
            | err e ↦ err e
            | ok value ↦ header_of (from_value value)
          ]
        ]
      ]
