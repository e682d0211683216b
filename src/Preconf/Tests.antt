-- ===== src/Preconf/Tests.antt =====
-- Runs of the client of crates/clients/src/taiko_preconf.rs.
use taiko_mk.Prelude.{ℕ, ◌≡◌, refl, false, none, some, List, [], ◌∷◌, ltb, if◌then◌else◌}
use taiko_mk.Errors.{contains, to_lowercase, find_after, strip_prefix}
use taiko_mk.Preconf.{
  HttpError, http, Result, ok, err, default_config, returned, retry, retry_loop, is_retryable,
  is_connection_refused, exhausted,
}
use taiko_mk.Preconf.Retries.{Ends, retry-Ends}
use taiko_mk.Preconf.Events.{Input, connected, message, text, take_event, stream_end}

-- A server error, status 500, and a client error, status 400.
abbrev http_error : ℕ → HttpError
http_error s = record { text = []; is_timeout = false; is_connect = false; status = some s }

-- The first two calls meet a server error.
abbrev third_time : ℕ → Result ℕ
third_time n = if ltb n 2 then err (http (http_error 500)) else ok 42

third_time_runs :
    retry third_time default_config
    ≡ record { outcome = returned (ok 42); calls = 3; sleeps = 100 ∷ 200 ∷ [] }
unfolding retry retry_loop is_retryable is_connection_refused contains to_lowercase find_after
    strip_prefix exhausted
third_time_runs = refl

retry-Ends_example : Ends third_time default_config (retry third_time default_config)
retry-Ends_example = retry-Ends third_time default_config

abbrev inputs : List (Input ℕ)
inputs =
    connected
    ∷ message (text (some 7))
    ∷ take_event
    ∷ stream_end
    ∷ connected
    ∷ message (text none)
    ∷ message (text (some 8))
    ∷ []
