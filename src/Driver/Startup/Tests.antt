-- ===== src/Driver/Startup/Tests.antt =====
-- Examples for the start of the driver: crates/driver/src/driver.rs.
use taiko_mk.Prelude.{ℕ, ◌≡◌, refl, true, none, some, List, [], ◌∷◌}
use taiko_mk.Samples.{header, settings, config}
use taiko_mk.Driver.{Driver, Replies}
use taiko_mk.Driver.Startup.{
  StartReplies, new_driver, first_driver, SyncAttempt, clients_ready, synced, syncing,
  wait_for_clients_sync,
}
use taiko_mk.Driver.Startup.Checks.{Outcome, Unanswered, new_driver-Outcome}

-- A low allowance, and an approval that succeeds.
abbrev start_replies : StartReplies
start_replies = record {
  tip = some (header 20);
  header = λ n. some (header n);
  preconf_router = none;
  head_block = some 11;
  head_l1_origin = some 9;
  eth_balance = some 500;
  taiko_balance = some 700;
  allowance = some 3;
  approval_status = some true;
}

new_driver-Outcome_example :
    Outcome {Tx = ℕ} settings 100 200
      (Unanswered (config 7) start_replies)
      (some 500)
      (some 700)
      (some 3)
      (some true)
      (new_driver (config 7) settings 100 200 start_replies)
new_driver-Outcome_example = new_driver-Outcome settings 100 200 (config 7) start_replies

waiting_test :
    wait_for_clients_sync (some (syncing 30, synced) ∷ some (synced, syncing 0) ∷ none ∷ [])
    ≡ some true
unfolding wait_for_clients_sync clients_ready
waiting_test = refl

abbrev replies : Replies
replies = record { current_operator = some 7; next_operator = some 8; now = 1240; start = 1240 }

abbrev answered : SyncAttempt ℕ
answered = record {
  l1_tip = some (header 21);
  header = λ n. some (header n);
  origin = some 10;
  replies = replies;
  settings = settings;
  rounds =
      record { replies = replies; idle = none; outcome = λ status. none }
      ∷ record {
        replies = replies;
        idle = none;
        outcome = λ status. some (record { batches = []; reorg_reasons = []; basefees = [] });
      }
      ∷ [];
}

-- The L1 does not answer, or the inbox does not.
abbrev unanswered : List (SyncAttempt ℕ)
unanswered = record answered { l1_tip = none } ∷ record answered { origin = none } ∷ []

abbrev fresh_driver : Driver ℕ
fresh_driver = first_driver (config 7) settings start_replies (header 20) (header 16) 11 9
