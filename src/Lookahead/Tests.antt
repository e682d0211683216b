-- ===== src/Lookahead/Tests.antt =====
-- Examples for crates/driver/src/lookahead.rs.
use taiko_mk.Prelude.{ℕ, ◌+◌, ◌*◌, ◌≤◌, ◌<◌, ◌≡◌, ◌↔◌, ◌⊎◌, ◌==◌, false, true, ◌&&◌, some, arith}
use taiko_mk.Slots.{to_epoch}
use taiko_mk.Config.{timestamp_to_l1_slot, slot_to_timestamp}
use taiko_mk.Status.{can_propose, can_sequence}
use taiko_mk.Window.{Window, unset, end}
use taiko_mk.Window.Contains.{IsAligned, is_marked, contains-is_marked}
use taiko_mk.Window.End.{contains-lt-end}
use taiko_mk.Slots
use taiko_mk.Samples.{config}
use taiko_mk.Lookahead.{
  Lookahead, new, sync, is_last_block_in_sequencing_window, is_past_handover_buffer,
}
use taiko_mk.Lookahead.Laws.{
  IsValid, new-IsValid, expected_status, sequencer_at, sync_status, sync_exclusive,
}
use taiko_mk.Lookahead.Timing.{is_last_block_lem, handover_start, is_past_handover_buffer_lem}

config-IsValid : (operator : ℕ) → IsValid (new (config operator))
config-IsValid operator = new-IsValid (config operator) (omega arith)

sync_exclusive_example :
    ((can_sequence (sync (new (config 7)) 62 (some 7) (some 9) 1744 0).1
        && can_sequence (sync (new (config 9)) 62 (some 7) (some 9) 1745 1).1)
      ≡ false)
    × ((can_propose (sync (new (config 7)) 62 (some 7) (some 9) 1744 0).1
          && can_propose (sync (new (config 9)) 62 (some 7) (some 9) 1745 1).1)
        ≡ false)
unfolding new to_epoch
sync_exclusive_example =
    sync_exclusive (new (config 7)) (new (config 9)) 62 7 9 1744 0 1745 1 (config-IsValid 7)
      (config-IsValid 9) (ground arith) (ground arith) (omega arith) (omega arith)

sync_status_example :
    (sync (new (config 7)) 62 (some 7) (some 9) 1744 0).1
    ≡ expected_status
        (sequencer_at (config 7) 62 7 9 == 7)
        (7 == 7)
        (is_past_handover_buffer (new (config 7)) 1744)
        0
unfolding new to_epoch
sync_status_example =
    sync_status (new (config 7)) 62 7 9 1744 0 (config-IsValid 7) (omega arith) (omega arith)

-- Epoch 1, with the slots of its last four.
abbrev first_epoch : Window
first_epoch = record {
  at0 = unset;
  at1 = record { is_set = true; epoch = 1 };
  at2 = unset;
  offset = 4;
}

abbrev synced : Lookahead
synced = record (new (config 7)) { cfg = config 7; sequencing_window = first_epoch }

lt-end_first_epoch : 40 < end first_epoch
unfolding is_marked
lt-end_first_epoch =
    let v : IsAligned first_epoch = ground arith in
    contains-lt-end first_epoch 40 v (contains-is_marked first_epoch 40 v)

is_last_block_lem_example : (is_last_block_in_sequencing_window synced 1718 ≡ true) ↔ (
    (end synced.sequencing_window ≡ timestamp_to_l1_slot synced.cfg 1718 + 1)
    × (1718 + synced.cfg.l2_block_time
        ≡ slot_to_timestamp synced.cfg (end synced.sequencing_window)))
is_last_block_lem_example =
    is_last_block_lem synced 1718 (omega arith) (omega arith) (omega arith) (omega arith)
      (omega (arith, lt-end_first_epoch))

is_past_handover_buffer_lem_example : (is_past_handover_buffer (new (config 7)) 1744 ≡ true) ↔ (
    ((new (config 7)).end_of_sequencing_mark ≡ to_epoch (timestamp_to_l1_slot (config 7) 1744))
    ⊎ (slot_to_timestamp
            (config 7)
            (handover_start (config 7) (timestamp_to_l1_slot (config 7) 1744))
          + 4 * 2
        ≤ 1744))
unfolding new timestamp_to_l1_slot Slots.timestamp_to_l1_slot to_epoch
is_past_handover_buffer_lem_example =
    is_past_handover_buffer_lem (new (config 7)) 1744 (omega arith) (omega arith) (omega arith)
      (omega arith) (omega arith) (omega arith)
