-- ===== src/Driver.antt =====
-- The driver's handlers: crates/driver/src/driver.rs, and the L1 state of crates/driver/src/state.rs.
-- A handler returns the new state; what it sends to the batch submitter is appended to `sent`, and what
-- it hands to `finalize_all_blocks_from_batches` (child Reposting) to `reposted`. The replies of the
-- nodes and contracts, the outcomes of the syncer, what the waits for the builder end with, and the
-- clocks are arguments; an `Option` reply is `none` on an error. Logs, metrics, balances and background
-- tasks are left out.
pub mod Reorgs
pub mod SlotTick
pub mod Reposting
pub mod Startup
pub mod Proposals
pub mod Sending
pub mod Handover
mod Tests
use taiko_mk.Prelude.{
  ℕ, ◌+◌, ◌-◌, ◌/◌, ◌%◌, Bool, true, false, not, ◌&&◌, ◌||◌, Option, none, some, List, [], ◌∷◌,
  ◌++◌, map, ltb, leb, ◌==◌, if◌then◌else◌, is_nil, max, add64, saturating_add, saturating_sub,
}
use taiko_mk.Slots.{epoch_slots, to_epoch}
use taiko_mk.Config.{RuntimeConfig, Address, BatchSettings, current_slot, timestamp_to_l1_slot}
use taiko_mk.Status.{DriverStatus, inactive, is_inclusion_only, can_propose, can_sequence}
use taiko_mk.Lookahead.{
  Lookahead, inclusion_window_end, is_new_inclusion_window, driver_status,
  update_end_of_sequencing_mark,
}
use taiko_mk.Lookahead
use taiko_mk.Batch.{
  Header, PreconfirmedBlock, Batch, AddBlockResult, added, full, blocks_range, anchor_id,
  take_and_reset, retain_blocks_before, retain_blocks_after, change_anchor,
  should_build_empty_block, pop_with_coinbase, add_block_and_reset_if_full, compute_age_limit,
}
use taiko_mk.Batch
use taiko_mk.Processor.{
  BatchSubmissionCmd, clear_queue, BatchSubmissionRequest, trigger_batch_submission,
}
use taiko_mk.Syncer.{SyncOutcome}
use taiko_mk.Errors.{BatchProposalError, matches_not_preconfer}

pub record Driver (Tx : Type 0) : Type 0 where
  pub cfg : RuntimeConfig
  pub status : DriverStatus
  pub tip : Header
  pub anchor : Header
  pub epoch : ℕ
  pub head_slot : ℕ
  pub is_preconf_router_set : Bool
  pub head_block : ℕ
  pub head_l1_origin : ℕ
  pub lookahead : Lookahead
  pub finalizing : Option ℕ
  pub outstanding_batch : Batch Tx
  pub sent : List (BatchSubmissionCmd Tx)
  pub reposted : List (SyncOutcome Tx)

-- The replies of the whitelist contract and the clocks that `Lookahead::sync` reads.
pub record Replies : Type 0 where
  pub current_operator : Option Address
  pub next_operator : Option Address
  pub now : ℕ
  pub start : ℕ

-- One round of the loop of `sync_and_propose`: the replies on the lookahead, what the builder still
-- finalizes when the wait for it has ended, and what the syncer returns for a status.
pub record SyncRound (Tx : Type 0) : Type 0 where
  pub replies : Replies
  pub idle : Option ℕ
  pub outcome : DriverStatus → Option (SyncOutcome Tx)

-- What the waits for the builder in an L1 slot tick end with.
pub record Waits : Type 0 where
  pub idle_aged : Option ℕ
  pub idle_handover : Option ℕ

module _ {Tx : Type 0} where
  unfoldable pub update_status : Driver Tx → DriverStatus → Driver Tx
  update_status d new_status =
      if d.is_preconf_router_set
      then record d { status = new_status }
      else record d { status = inactive }

  unfoldable pub sync_lookahead : Driver Tx → ℕ → Replies → Driver Tx
  sync_lookahead d slot r =
      let (lookahead, status) =
        Lookahead.sync d.lookahead slot r.current_operator r.next_operator r.now r.start in
      update_status (record d { lookahead = lookahead }) status

  unfoldable pub update_outstanding_batch_anchor_if_needed : Driver Tx → Driver Tx
  update_outstanding_batch_anchor_if_needed d =
      let changed : Driver Tx = record d {
        outstanding_batch = change_anchor d.outstanding_batch d.anchor;
      } in
      if Batch.is_empty d.outstanding_batch
      then elim d.finalizing [ none ↦ changed | some block_number ↦ d ]
      else d

  unfoldable pub propose : Driver Tx → Batch Tx → ℕ → Driver Tx
  propose d batch deadline = record d {
    sent = d.sent ++ trigger_batch_submission (record { batch = batch; deadline = deadline });
  }

  unfoldable pub propose_all : Driver Tx → List (Batch Tx) → Driver Tx
  propose_all d [] = d
  propose_all d (b ∷ bs) = propose_all (propose d b (inclusion_window_end d.lookahead)) bs

  -- `wait_for_idle`, if the builder finalizes a block.
  unfoldable pub wait_for_builder : Driver Tx → Option ℕ → Driver Tx
  wait_for_builder d idle = elim d.finalizing [
    | none ↦ d
    | some block_number ↦ record d { finalizing = idle }
  ]

  unfoldable pub submit_local_outstanding_batch : Driver Tx → ℕ → Option ℕ → Driver Tx
  unfolding wait_for_builder
  submit_local_outstanding_batch d deadline idle =
      let d1 = wait_for_builder d idle in
      let (batch, rest) = take_and_reset d1.outstanding_batch d1.anchor in
      propose (record d1 { outstanding_batch = rest }) batch deadline

  -- One round of the loop: the state, and what the syncer found.
  unfoldable pub sync_round : Driver Tx → SyncRound Tx → Driver Tx × Option (SyncOutcome Tx)
  unfolding wait_for_builder
  sync_round d round =
      let d1 = wait_for_builder (sync_lookahead d d.head_slot round.replies) round.idle in
      (d1, round.outcome d1.status)

  -- The loop, over the rounds that happen; `none` while it still runs.
  unfoldable pub sync_loop : Driver Tx → List (SyncRound Tx) → Driver Tx × Option (SyncOutcome Tx)
  sync_loop d [] = (d, none)
  sync_loop d (round ∷ rounds) =
      let (d1, found) = sync_round d round in
      elim found [ none ↦ sync_loop d1 rounds | some outcome ↦ (d1, some outcome) ]

  -- `unwrap_or` of `pop_ob`.
  abbrev pub popped_or : Option (Batch Tx) → Batch Tx → Batch Tx
  popped_or none b = b
  popped_or (some popped) b = popped

  -- The blocks are posted again where there is a reason; an error of that is only logged.
  unfoldable pub repost : Driver Tx → SyncOutcome Tx → Driver Tx
  repost d outcome =
      if is_nil outcome.reorg_reasons then d else record d { reposted = d.reposted ++ outcome ∷ [] }

  -- What follows the loop.
  unfoldable pub propose_synced : Driver Tx → BatchSettings → SyncOutcome Tx → Driver Tx
  propose_synced d settings outcome =
      let (rest, popped) = pop_with_coinbase outcome.batches d.cfg.operator in
      let outstanding = popped_or popped (Batch.new d.anchor settings) in
      let d1 = if can_propose d.status then propose_all (repost d outcome) rest else d in
      record d1 { outstanding_batch = outstanding }

  -- The state, and whether the loop has ended.
  unfoldable pub after_loop : BatchSettings → Driver Tx × Option (SyncOutcome Tx) → Driver Tx × Bool
  after_loop settings (d, none) = (d, false)
  after_loop settings (d, some outcome) = (propose_synced d settings outcome, true)

  unfoldable pub sync_and_propose :
      Driver Tx → BatchSettings → List (SyncRound Tx) → Driver Tx × Bool
  unfolding after_loop
  sync_and_propose d settings rounds = after_loop settings (sync_loop d rounds)

  -- An outstanding batch whose anchor nears the age limit is proposed.
  unfoldable pub submit_aged : Driver Tx → (now slots_left : ℕ) → Option ℕ → Driver Tx
  submit_aged d now slots_left idle =
      if leb slots_left d.cfg.anchor_max_height_buffer
      then submit_local_outstanding_batch d (add64 (current_slot now d.cfg) slots_left) idle
      else d

  -- At the start of a new inclusion window everything is synced; else the status follows the slot.
  unfoldable pub sync_at_window :
      Driver Tx → ℕ → Replies → BatchSettings → List (SyncRound Tx) → Driver Tx × Bool
  sync_at_window d slot r settings rounds =
      if slot % epoch_slots == 0 && is_new_inclusion_window d.lookahead slot
      then sync_and_propose d settings rounds
      else (update_status d (driver_status d.lookahead slot r.now r.start), true)

  unfoldable pub submit_in_handover : Driver Tx → Option ℕ → Driver Tx
  submit_in_handover d idle =
      if is_inclusion_only d.status
      then submit_local_outstanding_batch d (inclusion_window_end d.lookahead) idle
      else d

  -- What follows the sync of a tick, once it has ended.
  unfoldable pub finish_tick : Option ℕ → Driver Tx × Bool → Driver Tx × Bool
  finish_tick idle (d, false) = (d, false)
  finish_tick idle (d, true) =
      (update_outstanding_batch_anchor_if_needed (submit_in_handover d idle), true)

  -- The slots that the outstanding batch has left.
  abbrev pub batch_slots_left : Driver Tx → ℕ → ℕ
  batch_slots_left d timestamp =
      compute_age_limit d.outstanding_batch (add64 timestamp d.cfg.l1_block_time)
        (add64 d.tip.number 1)

  -- `settings` and `rounds` are for a sync that it may start; the flag says whether that has ended.
  unfoldable pub on_l1_slot_tick :
      Driver Tx → ℕ → Replies → Waits → BatchSettings → List (SyncRound Tx) → Driver Tx × Bool
  unfolding finish_tick
  on_l1_slot_tick d timestamp r waits settings rounds =
      let slot = timestamp_to_l1_slot d.cfg timestamp in
      let d1 =
        submit_aged (record d { head_slot = slot }) r.now (batch_slots_left d timestamp)
          waits.idle_aged in
      finish_tick waits.idle_handover (sync_at_window d1 slot r settings rounds)

  unfoldable pub on_end_of_sequencing : Driver Tx → ℕ → Replies → Driver Tx
  on_end_of_sequencing d current_epoch r =
      sync_lookahead
        (record d { lookahead = update_end_of_sequencing_mark d.lookahead current_epoch })
        d.head_slot r

  unfoldable pub on_batch_proposal_err :
      Driver Tx → BatchProposalError → BatchSettings → List (SyncRound Tx) → Driver Tx × Bool
  on_batch_proposal_err d e settings rounds =
      if matches_not_preconfer e then (d, true) else sync_and_propose d settings rounds

  -- `L1State::update_anchor`, with the reply to the query for the header.
  pub update_anchor : Driver Tx → Option Header → Driver Tx × Bool
  update_anchor d none = (d, false)
  update_anchor d (some new_anchor) = (record d { anchor = new_anchor }, true)

  -- `L1State::sync`: the state, and whether there was no error.
  pub sync_l1 : (ℕ → Option Header) → Driver Tx → Header → Driver Tx × Bool
  sync_l1 header d l1_header =
      let new_safe_anchor = saturating_sub l1_header.number d.cfg.anchor_block_lag in
      let tipped : Driver Tx = record d { tip = l1_header } in
      if ltb d.anchor.number new_safe_anchor
      then update_anchor tipped (header new_safe_anchor)
      else (tipped, true)

  -- What follows the update of the head L1 origin.
  pub after_origin : ℕ → Replies → Driver Tx → Driver Tx
  after_origin slot r d =
      sync_lookahead
        (update_outstanding_batch_anchor_if_needed (record d {
          outstanding_batch = retain_blocks_after d.outstanding_batch d.head_l1_origin;
        }))
        slot r

  -- What follows the sync of the L1 state; an error ends the update and keeps what was changed.
  pub finish_update : ℕ → Replies → Driver Tx → Bool → Option ℕ → Driver Tx × Option ℕ
  finish_update slot r d false origin = (d, none)
  finish_update slot r d true none = (d, none)
  finish_update slot r d true (some protocol_value) =
      (after_origin slot r (record d { head_l1_origin = protocol_value }), some slot)

  -- The state, and the slot where no query failed.
  pub update_l1_info :
      (ℕ → Option Header) → Option ℕ → Driver Tx → Header → Replies → Driver Tx × Option ℕ
  update_l1_info header origin d l1_header r =
      let (d1, ok) = sync_l1 header d l1_header in
      finish_update (timestamp_to_l1_slot d.cfg l1_header.timestamp) r d1 ok origin

  -- `L1State::is_new_epoch`, and the change of the epoch.
  enter_epoch : Driver Tx × Option ℕ → Driver Tx
  enter_epoch (d, none) = d
  enter_epoch (d, some slot) =
      if ltb d.epoch (slot / epoch_slots) then record d { epoch = to_epoch slot } else d

  pub on_l1_block : (ℕ → Option Header) → Option ℕ → Driver Tx → Header → Replies → Driver Tx
  on_l1_block header origin d l1_header r = enter_epoch (update_l1_info header origin d l1_header r)

  -- The reorg branch of `on_l2_block`.
  on_reorg : Option ℕ → Driver Tx → ℕ → Driver Tx
  on_reorg origin d number = record d {
    sent = d.sent ++ clear_queue ∷ [];
    outstanding_batch = retain_blocks_before d.outstanding_batch number;
    head_l1_origin = elim origin [ none ↦ d.head_l1_origin | some value ↦ value ];
  }

  -- The anchor of a block of another operator.
  adopt_anchor : (ℕ → Option Header) → Option ℕ → Driver Tx → Driver Tx
  adopt_anchor header none d = d
  adopt_anchor header (some anchor) d =
      let adopted : Driver Tx = elim (header anchor) [
        | none ↦ d
        | some found ↦ record d { anchor = found }
      ] in
      if ltb d.anchor.number anchor then adopted else d

  pub on_l2_block : (ℕ → Option Header) → Option ℕ → Option ℕ → Driver Tx → Header → Driver Tx
  on_l2_block header origin anchor_block_id d l2_header =
      let number = l2_header.number in
      let d1 = if ltb number d.head_block then on_reorg origin d number else d in
      let d2 : Driver Tx = record d1 { head_block = number } in
      if l2_header.beneficiary == d.cfg.operator then d2 else adopt_anchor header anchor_block_id d2

  -- What `on_l2_slot_tick` does before a payload is built: whether it goes on.
  unfoldable pub can_build : Driver Tx → Header → ℕ → Bool
  can_build d parent highest_unsafe_block =
      can_sequence d.status
      && (elim d.finalizing [ none ↦ true | some block_number ↦ false ])
      && leb (max highest_unsafe_block d.head_l1_origin) parent.number

  abbrev pub force_empty : Driver Tx → ℕ → Bool
  force_empty d timestamp =
      if d.head_block == 0 then true else should_build_empty_block d.outstanding_batch timestamp

module _ {Tx : Type 0} (encoded_length : Tx → ℕ) (estimate : ℕ → ℕ) where
  -- A full batch is proposed, if that is allowed now.
  on_result : Driver Tx → AddBlockResult Tx → Driver Tx
  on_result d (added raw_size) = d
  on_result d (full reason batch) =
      if can_propose d.status then propose d batch (inclusion_window_end d.lookahead) else d

  -- The loop of `on_produced_block`.
  add_blocks : Driver Tx → List (PreconfirmedBlock Tx) → Header → Driver Tx
  add_blocks d [] anchor = d
  add_blocks d (x ∷ xs) anchor =
      let (after, result) =
        add_block_and_reset_if_full encoded_length estimate d.outstanding_batch x anchor in
      add_blocks (on_result (record d { outstanding_batch = after }) result) xs anchor

  -- `download` fills the gap between two numbers, both included.
  pub on_produced_block :
      (ℕ → ℕ → Option (List (PreconfirmedBlock Tx)))
      → Driver Tx
      → PreconfirmedBlock Tx
      → Header
      → Driver Tx
  on_produced_block download d new_block anchor =
      let expected = saturating_add (blocks_range d.outstanding_batch).1 1 in
      let last = saturating_sub new_block.number 1 in
      let missing : List (PreconfirmedBlock Tx) =
        if Batch.is_empty d.outstanding_batch || ltb last expected
        then []
        else elim (download expected last) [ none ↦ [] | some found ↦ found ] in
      add_blocks d (missing ++ new_block ∷ []) anchor
