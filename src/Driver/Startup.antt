-- ===== src/Driver/Startup.antt =====
-- How the driver starts: `Driver::new` and `startup_sync` of crates/driver/src/driver.rs,
-- `L1State::new`, `L2State::new` and the checks of balances of crates/driver/src/state.rs,
-- `check_and_approve` of crates/chainio/src/taiko/token.rs, and `wait_for_clients_sync` of
-- crates/driver/src/helpers.rs. Connections and wallets are left out; an `Option` reply is `none` on an
-- error. `is_whitelisted` only logs here.
pub mod Syncing
pub mod Checks
mod Tests
use taiko_mk.Prelude.{
  ℕ, ◌^◌, ◌-◌, ◌/◌, ◌%◌, ◌==◌, Bool, true, false, not, Option, none, some, List, [], ◌∷◌, ltb,
  if◌then◌else◌, saturating_sub,
}
use taiko_mk.Slots.{epoch_slots}
use taiko_mk.Config.{RuntimeConfig, Address, BatchSettings, timestamp_to_l1_slot}
use taiko_mk.Status.{inactive}
use taiko_mk.Lookahead
use taiko_mk.Batch.{Header, Batch}
use taiko_mk.Batch
use taiko_mk.Driver.{Driver, Replies, SyncRound, update_l1_info, sync_and_propose}

-- `SyncStatus`, with the highest block of a client that still syncs.
pub data SyncStatus : Type 0 where
  synced : SyncStatus
  syncing : ℕ → SyncStatus

-- Whether `wait_for_clients_sync` returns in this round.
unfoldable pub clients_ready : SyncStatus → SyncStatus → Bool
clients_ready synced synced = true
clients_ready synced (syncing highest_block) = highest_block == 0
clients_ready (syncing highest_block) synced = highest_block == 0
clients_ready (syncing l1_highest) (syncing l2_highest) = false

-- The rounds of the loop; `none` while it goes on, `some false` when a query failed.
unfoldable pub wait_for_clients_sync : List (Option (SyncStatus × SyncStatus)) → Option Bool
wait_for_clients_sync [] = none
wait_for_clients_sync (none ∷ rounds) = some false
wait_for_clients_sync (some (l1_syncing, l2_syncing) ∷ rounds) =
    elim (clients_ready l1_syncing l2_syncing) [
      | true ↦ some true
      | false ↦ wait_for_clients_sync rounds
    ]

pub data StartError : Type 0 where
  query_failed : StartError
  insufficient_eth : ℕ → ℕ → StartError
  insufficient_taiko : ℕ → ℕ → StartError
  approval_failed : StartError

-- `Result<(), DriverError>` as the error, if there is one.
abbrev pub Checked : Type 0
Checked = Option StartError

-- `assert_token_balance`, with the error of the token.
unfoldable pub assert_token_balance : (ℕ → ℕ → StartError) → ℕ → ℕ → Checked
assert_token_balance insufficient current required =
    if ltb current required then some (insufficient current required) else none

-- `assert_token_balances`: both balances are fetched first.
unfoldable pub assert_token_balances : Option ℕ → Option ℕ → ℕ → ℕ → Checked
unfolding assert_token_balance
assert_token_balances (some eth) (some tko) min_eth_balance min_taiko_balance =
    elim (assert_token_balance insufficient_eth eth min_eth_balance) [
      | some e ↦ some e
      | none ↦ assert_token_balance insufficient_taiko tko min_taiko_balance
    ]
assert_token_balances _ _ min_eth_balance min_taiko_balance = some query_failed

-- `approve_taiko_spending`: the receipt of the approval is asked for only if the allowance is low.
abbrev pub min_allowance : ℕ
min_allowance = (2 ^ 256 - 1) / 2

unfoldable pub check_and_approve : Option ℕ → Option Bool → Checked
check_and_approve none receipt_status = some query_failed
check_and_approve (some allowance) receipt_status =
    if ltb allowance min_allowance
    then elim receipt_status [
      | none ↦ some approval_failed
      | some true ↦ none
      | some false ↦ some approval_failed
    ]
    else none

-- The replies that `Driver::new` gets.
pub record StartReplies : Type 0 where
  pub tip : Option Header
  pub header : ℕ → Option Header
  pub preconf_router : Option Address
  pub head_block : Option ℕ
  pub head_l1_origin : Option ℕ
  pub eth_balance : Option ℕ
  pub taiko_balance : Option ℕ
  pub allowance : Option ℕ
  pub approval_status : Option Bool

pub data Started (Tx : Type 0) : Type 0 where
  ready : Driver Tx → Started Tx
  failed : StartError → Started Tx

-- An address that cannot be fetched counts as set.
abbrev pub router_set : Option Address → Bool
router_set none = true
router_set (some a) = not (a == 0)

module _ {Tx : Type 0} where
  -- The driver from the two states.
  unfoldable pub first_driver :
      RuntimeConfig → BatchSettings → StartReplies → Header → Header → ℕ → ℕ → Driver Tx
  first_driver cfg batch_settings r tip anchor head_block head_l1_origin = record {
    cfg = cfg;
    status = inactive;
    tip = tip;
    anchor = anchor;
    epoch = tip.number / epoch_slots;
    head_slot = timestamp_to_l1_slot cfg tip.timestamp;
    is_preconf_router_set = router_set r.preconf_router;
    head_block = head_block;
    head_l1_origin = head_l1_origin;
    lookahead = Lookahead.new cfg;
    finalizing = none;
    outstanding_batch = Batch.new anchor batch_settings;
    sent = [];
    reposted = [];
  }

  unfoldable pub after_checks : Checked → Started Tx → Started Tx
  after_checks (some e) next = failed e
  after_checks none next = next

  -- From the states on: the balances, then the approval.
  unfoldable pub checked_driver : ℕ → ℕ → StartReplies → Driver Tx → Started Tx
  unfolding after_checks
  checked_driver min_eth_balance min_taiko_balance r d =
      after_checks
        (assert_token_balances r.eth_balance r.taiko_balance min_eth_balance min_taiko_balance)
        (after_checks (check_and_approve r.allowance r.approval_status) (ready d))

  module _ (cfg : RuntimeConfig) (batch_settings : BatchSettings)
      (min_eth_balance min_taiko_balance : ℕ) (r : StartReplies) where
    -- `L2State::new`: the head block, then the origin.
    unfoldable pub with_l2_state : Header → Header → Option ℕ → Option ℕ → Started Tx
    with_l2_state tip anchor none origin = failed query_failed
    with_l2_state tip anchor (some head_block) none = failed query_failed
    with_l2_state tip anchor (some head_block) (some head_l1_origin) =
        checked_driver min_eth_balance min_taiko_balance r
          (first_driver cfg batch_settings r tip anchor head_block head_l1_origin)

    -- `L1State::new`: the tip, then the anchor behind it.
    unfoldable pub with_anchor : Header → Option Header → Started Tx
    with_anchor tip none = failed query_failed
    with_anchor tip (some anchor) = with_l2_state tip anchor r.head_block r.head_l1_origin

    unfoldable pub with_tip : Option Header → Started Tx
    with_tip none = failed query_failed
    with_tip (some tip) =
        with_anchor tip (r.header (saturating_sub tip.number cfg.anchor_block_lag))

    unfoldable pub new_driver : Started Tx
    new_driver = with_tip r.tip

-- One attempt of `startup_sync`, by its replies.
pub record SyncAttempt (Tx : Type 0) : Type 0 where
  pub l1_tip : Option Header
  pub header : ℕ → Option Header
  pub origin : Option ℕ
  pub replies : Replies
  pub settings : BatchSettings
  pub rounds : List (SyncRound Tx)

-- How an attempt ends, or that its inner loop still runs.
pub data Attempted (Tx : Type 0) : Type 0 where
  attempt_failed : Driver Tx → Attempted Tx
  attempt_synced : Driver Tx → Attempted Tx
  attempt_runs : Driver Tx → Attempted Tx

-- `startup_sync` has returned, or it still loops.
pub data Looped (Tx : Type 0) : Type 0 where
  returned : Driver Tx → Looped Tx
  looping : Driver Tx → Looped Tx

module _ {Tx : Type 0} where
  unfoldable pub after_sync : Driver Tx × Bool → Attempted Tx
  after_sync (d, true) = attempt_synced d
  after_sync (d, false) = attempt_runs d

  -- `sync_closure`, from the update of the L1 information on.
  unfoldable pub sync_from : SyncAttempt Tx → Driver Tx × Option ℕ → Attempted Tx
  unfolding after_sync
  sync_from a (d, none) = attempt_failed d
  sync_from a (d, some slot) = after_sync (sync_and_propose d a.settings a.rounds)

  unfoldable pub sync_closure : Driver Tx → SyncAttempt Tx → Attempted Tx
  unfolding sync_from
  sync_closure d a = elim a.l1_tip [
    | none ↦ attempt_failed d
    | some l1_tip ↦ sync_from a (update_l1_info a.header a.origin d l1_tip a.replies)
  ]

  -- The loop over the attempts; it sleeps in between.
  unfoldable pub startup_sync : Driver Tx → List (SyncAttempt Tx) → Looped Tx
  startup_sync d [] = looping d
  startup_sync d (a ∷ attempts) = elim (sync_closure d a) [
    | attempt_synced after ↦ returned after
    | attempt_runs after ↦ looping after
    | attempt_failed after ↦ startup_sync after attempts
  ]
