-- ===== src/Lookahead.antt =====
-- `Lookahead` in crates/driver/src/lookahead.rs. Metrics and logs are left out; the wall clock
-- (`now`), the monotonic clock (`start`) and the replies of the whitelist contract are arguments.
pub mod Laws
pub mod Timing
mod Tests
use taiko_mk.Prelude.{
  ℕ, ◌+◌, ◌-◌, ◌*◌, ◌%◌, Bool, true, false, ◌&&◌, Option, none, some, ◌==◌, leb, if◌then◌else◌,
  add64, sub64, mul64, saturating_sub,
}
use taiko_mk.Slots.{epoch_slots, to_epoch}
use taiko_mk.Config.{RuntimeConfig, Address, current_slot, timestamp_to_l1_slot, slot_to_timestamp}
use taiko_mk.Status.{DriverStatus, inactive, handover_wait, sequencing_only, inclusion_only, active}
use taiko_mk.Window.{
  Window, with_offset, contains, end, is_new, calculate_inclusion, calculate_sequencing,
}

pub record Lookahead : Type 0 where
  pub cfg : RuntimeConfig
  pub sequencing_window : Window
  pub inclusion_window : Window
  pub end_of_sequencing_mark : ℕ

unfoldable pub new : RuntimeConfig → Lookahead
new cfg = record {
  cfg = cfg;
  sequencing_window = with_offset cfg.handover_window_slots;
  inclusion_window = with_offset 0;
  end_of_sequencing_mark = 0;
}

unfoldable pub update_end_of_sequencing_mark : Lookahead → ℕ → Lookahead
update_end_of_sequencing_mark l epoch = record l { end_of_sequencing_mark = epoch }

unfoldable pub sequencing_slots_left : Lookahead → ℕ → ℕ
sequencing_slots_left l l1_head_slot = saturating_sub (end l.sequencing_window) l1_head_slot

unfoldable pub inclusion_window_end : Lookahead → ℕ
inclusion_window_end l = end l.inclusion_window

unfoldable pub is_new_inclusion_window : Lookahead → ℕ → Bool
is_new_inclusion_window l l1_head_slot = is_new l.inclusion_window l1_head_slot

unfoldable pub in_inclusion_window : Lookahead → ℕ → Bool
in_inclusion_window l l1_head_slot = contains l.inclusion_window l1_head_slot

unfoldable pub in_sequencing_window : Lookahead → ℕ → Bool
in_sequencing_window l l1_head_slot = contains l.sequencing_window l1_head_slot

-- `u64::next_multiple_of` at `EPOCH_SLOTS`.
unfoldable pub next_epoch_boundary : ℕ → ℕ
next_epoch_boundary slot =
    if slot % epoch_slots == 0 then slot else add64 slot (epoch_slots - slot % epoch_slots)

unfoldable pub is_past_handover_buffer : Lookahead → ℕ → Bool
is_past_handover_buffer l now =
    let slot = timestamp_to_l1_slot l.cfg now in
    let seq_window_first_slot =
      saturating_sub (next_epoch_boundary slot) l.cfg.handover_window_slots in
    let seq_window_ts = slot_to_timestamp l.cfg seq_window_first_slot in
    if l.end_of_sequencing_mark == to_epoch slot
    then true
    else leb (mul64 l.cfg.handover_skip_slots l.cfg.l2_block_time)
        (saturating_sub now seq_window_ts)

unfoldable pub driver_status : Lookahead → ℕ → ℕ → ℕ → DriverStatus
unfolding in_sequencing_window in_inclusion_window
driver_status l head_slot now start =
    if in_sequencing_window l head_slot && in_inclusion_window l head_slot
    then active
    else if in_sequencing_window l head_slot
    then (if is_past_handover_buffer l now then sequencing_only else handover_wait start)
    else if in_inclusion_window l head_slot
    then inclusion_only
    else inactive

-- The windows after both operators were read.
unfoldable pub update_windows : Lookahead → ℕ → Address → Address → Lookahead
update_windows l head_slot current_operator next_operator =
    let seq_current_epoch = current_operator == l.cfg.operator in
    let seq_next_epoch = next_operator == l.cfg.operator in
    let inclusion =
      calculate_inclusion l.inclusion_window head_slot seq_current_epoch seq_next_epoch in
    record l {
      inclusion_window = inclusion;
      sequencing_window = calculate_sequencing l.sequencing_window inclusion;
    }

-- Nothing changes unless both replies came.
unfoldable pub read_operators : Lookahead → ℕ → Option Address → Option Address → Lookahead
unfolding update_windows
read_operators l head_slot (some current) (some next) = update_windows l head_slot current next
read_operators l head_slot _ _ = l

unfoldable pub sync :
    Lookahead → ℕ → Option Address → Option Address → ℕ → ℕ → Lookahead × DriverStatus
sync l head_slot current_operator next_operator now start =
    let synced = read_operators l head_slot current_operator next_operator in
    if head_slot % epoch_slots == 0
    then (l, driver_status l head_slot now start)
    else (synced, driver_status synced head_slot now start)

-- `query` is the whitelist contract's `is_whitelisted` at an address and a timestamp.
unfoldable pub is_whitelisted : (Address → ℕ → Option Bool) → Lookahead → ℕ → Bool
is_whitelisted query l now =
    let current_epoch = to_epoch (current_slot now l.cfg) in
    let epoch_ts =
      add64 l.cfg.l1_genesis_timestamp
        (mul64 (mul64 current_epoch epoch_slots) l.cfg.l1_block_time) in
    elim (query l.cfg.operator epoch_ts) [ none ↦ false | some listed ↦ listed ]

unfoldable pub is_last_block_in_sequencing_window : Lookahead → ℕ → Bool
is_last_block_in_sequencing_window l timestamp =
    let slot = timestamp_to_l1_slot l.cfg timestamp in
    let slot_ts = slot_to_timestamp l.cfg slot in
    let last_ts = sub64 (add64 slot_ts l.cfg.l1_block_time) l.cfg.l2_block_time in
    if saturating_sub (end l.sequencing_window) 1 == slot then timestamp == last_ts else false
