-- ===== src/Driver/Tests.antt =====
-- Examples for crates/driver/src/driver.rs.
use taiko_mk.Prelude.{
  ℕ, ◌<◌, ◌≤◌, max, ◌≡◌, refl, true, Option, none, some, List, [], ◌∷◌, ◌++◌, arith, All,
}
use taiko_mk.Samples.{header, settings, pair, config, block, size, half}
use taiko_mk.Status.{active, can_sequence, inclusion_only, can_propose}
use taiko_mk.Lookahead
use taiko_mk.Batch.{Header, PreconfirmedBlock}
use taiko_mk.Batch.{Batch, pop_with_coinbase, take_and_reset}
use taiko_mk.Batch
use taiko_mk.Processor.{clear_queue, trigger_batch_submission}
use taiko_mk.Driver.{
  Driver, Replies, SyncRound, Waits, on_l2_block, update_l1_info, sync_and_propose, sync_l1,
  update_anchor, finish_update, propose_synced, propose_all, propose, repost, submit_in_handover,
  submit_local_outstanding_batch,
}
use taiko_mk.Driver.Reorgs.{on_l2_block_lem, update_l1_info_lem}
use taiko_mk.Driver.Proposals.{Synced, sync_and_propose_lem}
use taiko_mk.Driver.Sending.{blocks_sent}
use taiko_mk.Batch.{doesnt_fit, raw_size, block_raw_size, add_block_and_reset_if_full}
use taiko_mk.Driver.{can_build}
use taiko_mk.Driver.SlotTick.{on_l2_slot_tick, trigger, anchor_for, on_l2_slot_tick_lem}
use taiko_mk.Lookahead.{is_last_block_in_sequencing_window}
use taiko_mk.Production.{
  L2Header, RequestBody, finalize_block, request_body, BlockPayload, build_payload, payload_of,
  tx_list_of, fetch_tx_lists, base_fee_of, new_request,
}
use taiko_mk.Production.Tests.{builder_config, parent, pool, fixed_fee, payload}
use taiko_mk.Config.{timestamp_to_l1_slot}
use taiko_mk.BatchMap.{ReorgReason, reanchor_reason, only_reanchoring}
use taiko_mk.Driver.Reposting.{
  Posted, finished, and_then, get, finalize_payload, build_and_finalize, repost_request,
  repost_block, repost_blocks, finalize_all_blocks_from_batches,
}
use taiko_mk.Driver.Reposting.Order.{Progress, wanted, finalize_all_blocks-Progress}

abbrev driver : Driver ℕ
driver = record {
  cfg = config 7;
  status = inclusion_only;
  tip = header 20;
  anchor = header 16;
  epoch = 1;
  head_slot = 40;
  is_preconf_router_set = true;
  head_block = 11;
  head_l1_origin = 9;
  lookahead = Lookahead.new (config 7);
  finalizing = none;
  outstanding_batch = pair;
  sent = [];
  reposted = [];
}

abbrev replies : Replies
replies = record { current_operator = some 7; next_operator = some 9; now = 1480; start = 0 }

abbrev foreign_pair : Batch ℕ
foreign_pair = record pair { coinbase = 9 }

abbrev find_header : ℕ → Option Header
find_header number = some (header number)

on_l2_block_lem_example :
    let after = on_l2_block find_header (some 9) (some 17) driver (header 10) in
    All (λ (x : PreconfirmedBlock ℕ). x.number < 10) after.outstanding_batch.blocks
    × (after.sent ≡ clear_queue ∷ [])
    × (after.head_block ≡ 10)
on_l2_block_lem_example =
    on_l2_block_lem find_header (some 9) (some 17) driver (header 10) (omega arith)

-- L1 block 21, when the inbox reports block 10.
update_l1_info_lem_example :
    let after = (update_l1_info find_header (some 10) driver (header 21) replies).0 in
    All (λ (x : PreconfirmedBlock ℕ). 10 < x.number) after.outstanding_batch.blocks
    × (after.head_l1_origin ≡ 10)
    × (after.tip ≡ header 21)
unfolding update_l1_info sync_l1 update_anchor finish_update
update_l1_info_lem_example =
    update_l1_info_lem find_header 10 driver (header 21) replies
      (timestamp_to_l1_slot (config 7) 1252) refl

-- The batches that the syncer returns; the sync has an error first.
abbrev rounds_for : List (Batch ℕ) → List ReorgReason → List (SyncRound ℕ)
rounds_for batches reasons =
    record { replies = replies; idle = none; outcome = λ status. none }
    ∷ record {
      replies = replies;
      idle = none;
      outcome =
          λ status. some (record { batches = batches; reorg_reasons = reasons; basefees = [] });
    }
    ∷ []

abbrev three_rounds : List (SyncRound ℕ)
three_rounds = rounds_for (pair ∷ foreign_pair ∷ pair ∷ []) (reanchor_reason 3 5 ∷ [])

sync_and_propose_lem_example :
    Synced driver settings three_rounds (sync_and_propose driver settings three_rounds)
sync_and_propose_lem_example = sync_and_propose_lem driver settings three_rounds

-- The last batch is the operator's: it becomes the outstanding one, and two are sent.
popped_test :
    let after =
      (propose_synced driver settings (record {
        batches = pair ∷ foreign_pair ∷ pair ∷ [];
        reorg_reasons = [];
        basefees = [];
      })) in
    (after.outstanding_batch ≡ pair) × (blocks_sent after.sent ≡ pair.blocks ++ foreign_pair.blocks)
unfolding propose_synced propose_all propose trigger_batch_submission can_propose repost
    pop_with_coinbase Batch.is_empty
popped_test = (refl, refl)

-- The last batch is another operator's: all are sent, and the outstanding batch is new.
foreign_test :
    let after =
      (propose_synced driver settings
        (record { batches = pair ∷ foreign_pair ∷ []; reorg_reasons = []; basefees = [] })) in
    (after.outstanding_batch ≡ Batch.new driver.anchor settings)
    × (blocks_sent after.sent ≡ pair.blocks ++ foreign_pair.blocks)
unfolding propose_synced propose_all propose trigger_batch_submission can_propose repost
    pop_with_coinbase Batch.is_empty
foreign_test = (refl, refl)

abbrev waits : Waits
waits = record { idle_aged = none; idle_handover = none }

-- In the handover window the outstanding batch is sent.
handover_test :
    let after = submit_in_handover driver none in
    (after.outstanding_batch.blocks ≡ []) × (blocks_sent after.sent ≡ pair.blocks)
unfolding submit_in_handover submit_local_outstanding_batch propose trigger_batch_submission
    take_and_reset Batch.is_empty
handover_test = (refl, refl)

abbrev sequencer : Driver ℕ
sequencer = record driver { status = active; head_block = 0 }

abbrev next_payload : BlockPayload ℕ
next_payload = record payload {
  is_last = is_last_block_in_sequencing_window sequencer.lookahead 2024;
}

-- The outstanding batch is full: the block gets the driver's anchor.
on_l2_slot_tick_lem_example :
    (can_sequence sequencer.status ≡ true)
    × (sequencer.finalizing ≡ none)
    × (max 11 sequencer.head_l1_origin ≤ 11)
    × ((add_block_and_reset_if_full size half sequencer.outstanding_batch
          (block 12 7)
          (header 16)).0.anchor_block
        ≡ header 16)
unfolding on_l2_slot_tick can_build trigger anchor_for doesnt_fit raw_size block_raw_size
    build_payload payload_of tx_list_of fetch_tx_lists base_fee_of new_request can_sequence
on_l2_slot_tick_lem_example =
    on_l2_slot_tick_lem size half builder_config pool fixed_fee sequencer 2024 parent 11 1000
      (header 16) next_payload (block 12 7) refl refl (omega arith)

abbrev anchor_tx : L2Header → Header → ℕ → Option ℕ
anchor_tx _ anchor base_fee = some 5

abbrev as_bytes : List ℕ → Option (List ℕ)
as_bytes txs = some txs

abbrev next_header : RequestBody → Option Header
next_header body = some (header body.block_number)

abbrev chain : List (Posted ℕ) → ℕ → Option L2Header
chain posted number = some (record { header = header number; hash = number; gas_used = 0 })

abbrev reanchored : List ReorgReason
reanchored = reanchor_reason 3 5 ∷ []

abbrev fees : List (ℕ × ℕ)
fees = (10, 100) ∷ (11, 101) ∷ []

reposted_test :
    (finalize_all_blocks_from_batches builder_config pool fixed_fee anchor_tx as_bytes next_header
      chain reanchored fees []
      (pair ∷ [])).0
    ≡ finished
unfolding finalize_all_blocks_from_batches repost_blocks repost_block build_and_finalize
    finalize_payload build_payload payload_of tx_list_of base_fee_of new_request repost_request
    finalize_block and_then only_reanchoring get request_body
reposted_test = refl

finalize_all_blocks-Progress_example : Progress reanchored fees [] (wanted (pair ∷ [])) (
    finalize_all_blocks_from_batches builder_config pool fixed_fee anchor_tx as_bytes next_header
      chain reanchored fees []
      (pair ∷ []))
finalize_all_blocks-Progress_example =
    finalize_all_blocks-Progress builder_config pool fixed_fee anchor_tx as_bytes next_header chain
      reanchored fees (pair ∷ []) []
