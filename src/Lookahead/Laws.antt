-- ===== src/Lookahead/Laws.antt =====
-- What the synced windows say about the whitelist: crates/driver/src/lookahead.rs.
use taiko_mk.Prelude.{
  ℕ, ◌+◌, ◌%◌, ◌≤◌, ◌<◌, ◌≡◌, ◌∙◌, ◌≢◌, inl, inr, Bool, false, ◌&&◌, Option, none, some, arith,
  ◌==◌, ltb, if◌then◌else◌, Bool-cases,
}
use taiko_mk.Slots.{epoch_slots, to_epoch}
use taiko_mk.Config.{RuntimeConfig, Address}
use taiko_mk.Status.{
  DriverStatus, inactive, handover_wait, sequencing_only, inclusion_only, active, can_propose,
  can_sequence,
}
use taiko_mk.Window.{calculate_inclusion}
use taiko_mk.Window.Contains.{IsAligned, epoch_limit}
use taiko_mk.Window.Schedule.{
  with_offset-IsAligned, with_offset-offset, calculate_inclusion-IsAligned,
  offset-calculate_inclusion, calculate_inclusion_lem, calculate_sequencing-IsAligned,
  calculate_sequencing_lem,
}
use taiko_mk.Lookahead.{
  Lookahead, new, in_inclusion_window, in_sequencing_window, is_past_handover_buffer, driver_status,
  update_windows, read_operators, sync,
}

-- Both buffers are aligned, and the offsets are those of `new`.
pub record IsValid (l : Lookahead) : Type 0 where
  pub inclusion : IsAligned l.inclusion_window
  pub sequencing : IsAligned l.sequencing_window
  pub no_offset : l.inclusion_window.offset ≡ 0
  pub handover : l.sequencing_window.offset ≡ l.cfg.handover_window_slots
  pub handover_small : l.cfg.handover_window_slots ≤ epoch_slots

pub new-IsValid :
    (cfg : RuntimeConfig) → cfg.handover_window_slots ≤ epoch_slots → IsValid (new cfg)
unfolding new
new-IsValid cfg h =
    let z : 0 ≤ epoch_slots = omega arith in
    let off = with_offset-offset in
    record {
      inclusion = with_offset-IsAligned 0 z;
      sequencing = with_offset-IsAligned cfg.handover_window_slots h;
      no_offset = off 0;
      handover = off cfg.handover_window_slots;
      handover_small = h;
    }

update_windows-IsValid :
    (l : Lookahead) (head_slot : ℕ) (current next : Address)
    → IsValid l
    → to_epoch head_slot + 1 < epoch_limit
    → IsValid (update_windows l head_slot current next)
unfolding update_windows
update_windows-IsValid l head_slot current next v h =
    let ours = λ (a : Address). a == l.cfg.operator in
    let i = calculate_inclusion l.inclusion_window head_slot (ours current) (ours next) in
    let iv : IsAligned i =
      calculate_inclusion-IsAligned l.inclusion_window head_slot _ _ v.inclusion h in
    let io : i.offset ≡ l.inclusion_window.offset =
      offset-calculate_inclusion l.inclusion_window head_slot _ _ in
    let (sv, so) =
      calculate_sequencing-IsAligned l.sequencing_window i iv v.sequencing.offset_small in
    record {
      inclusion = iv;
      sequencing = sv;
      no_offset = io ∙ v.no_offset;
      handover = so ∙ v.handover;
      handover_small = v.handover_small;
    }

-- A sync keeps a valid lookahead valid, whatever the contract replies, at a slot of an epoch below
-- 2 ^ 58 - 1.
sync-IsValid :
    (l : Lookahead) (head_slot : ℕ) (current next : Option Address) (now start : ℕ)
    → IsValid l
    → to_epoch head_slot + 1 < epoch_limit
    → IsValid (sync l head_slot current next now start).0
unfolding sync read_operators
sync-IsValid l head_slot (some c) (some n) now start v h =
    elim (Bool-cases (head_slot % epoch_slots == 0)) [
      | inl e ↦ rw e v
      | inr e ↦ rw e (update_windows-IsValid l head_slot c n v h)
    ]
sync-IsValid l head_slot none _ now start v h = elim (Bool-cases (head_slot % epoch_slots == 0)) [
  | inl e ↦ rw e v
  | inr e ↦ rw e v
]
sync-IsValid l head_slot _ none now start v h = elim (Bool-cases (head_slot % epoch_slots == 0)) [
  | inl e ↦ rw e v
  | inr e ↦ rw e v
]

-- Whose blocks are sequenced at a slot: in the last `handover_window_slots` of an epoch, already
-- those of the next epoch's operator.
abbrev pub sequencer_at : RuntimeConfig → ℕ → Address → Address → Address
sequencer_at cfg head_slot current next =
    if ltb (head_slot % epoch_slots + cfg.handover_window_slots) epoch_slots then current else next

update_windows_lem :
    (l : Lookahead) (head_slot : ℕ) (current next : Address)
    → IsValid l
    → to_epoch head_slot + 1 < epoch_limit
    → let after = update_windows l head_slot current next in
      (in_inclusion_window after head_slot ≡ (current == l.cfg.operator))
      × (in_sequencing_window after head_slot
          ≡ (sequencer_at l.cfg head_slot current next == l.cfg.operator))
unfolding update_windows in_inclusion_window in_sequencing_window to_epoch
update_windows_lem l head_slot current next v h =
    let ours = λ (a : Address). a == l.cfg.operator in
    let w = l.inclusion_window in
    let i = calculate_inclusion w head_slot (ours current) (ours next) in
    let iv : IsAligned i = calculate_inclusion-IsAligned w head_slot _ _ v.inclusion h in
    let io : i.offset ≡ 0 = offset-calculate_inclusion w head_slot _ _ ∙ v.no_offset in
    ground (
      arith,
      calculate_inclusion_lem w head_slot head_slot (ours current) (ours next) v.inclusion
          v.no_offset h,
      calculate_inclusion_lem w head_slot (head_slot + l.sequencing_window.offset) (ours current)
          (ours next) v.inclusion v.no_offset h,
      calculate_sequencing_lem l.sequencing_window i head_slot iv io v.sequencing.offset_small,
    )

-- The status that the operators call for.
abbrev pub expected_status : Bool → Bool → Bool → ℕ → DriverStatus
expected_status sequences includes past_buffer start =
    if sequences && includes
    then active
    else if sequences
    then (if past_buffer then sequencing_only else handover_wait start)
    else if includes
    then inclusion_only
    else inactive

-- After a sync of a valid lookahead at a slot that is not the first of its epoch, of an epoch
-- below 2 ^ 58 - 1, with both operators known, the status is decided by them alone: we include if
-- we are the current operator, and sequence if we are the sequencer of the slot, after the
-- handover buffer if we do not include yet.
pub sync_status :
    (l : Lookahead) (head_slot : ℕ) (current next : Address) (now start : ℕ)
    → IsValid l
    → to_epoch head_slot + 1 < epoch_limit
    → head_slot % epoch_slots ≢ 0
    → (sync l head_slot (some current) (some next) now start).1
      ≡ expected_status
          (sequencer_at l.cfg head_slot current next == l.cfg.operator)
          (current == l.cfg.operator)
          (is_past_handover_buffer l now)
          start
unfolding sync read_operators driver_status update_windows is_past_handover_buffer
sync_status l head_slot current next now start v h m =
    ground (arith, update_windows_lem l head_slot current next v h)

-- Two valid lookaheads of different operators, with the same handover window, that read the same
-- operators at the same slot, not the first of its epoch and of an epoch below 2 ^ 58 - 1, never
-- both sequence and never both propose.
pub sync_exclusive :
    (l k : Lookahead) (head_slot : ℕ) (current next : Address) (now start later begin : ℕ)
    → IsValid l
    → IsValid k
    → l.cfg.operator ≢ k.cfg.operator
    → l.cfg.handover_window_slots ≡ k.cfg.handover_window_slots
    → to_epoch head_slot + 1 < epoch_limit
    → head_slot % epoch_slots ≢ 0
    → let ours = (sync l head_slot (some current) (some next) now start).1 in
      let theirs = (sync k head_slot (some current) (some next) later begin).1 in
      ((can_sequence ours && can_sequence theirs) ≡ false)
      × ((can_propose ours && can_propose theirs) ≡ false)
unfolding can_sequence can_propose
sync_exclusive l k head_slot current next now start later begin v u ne same h m = ground (
  arith,
  sync_status l head_slot current next now start v h m,
  sync_status k head_slot current next later begin u h m,
)
