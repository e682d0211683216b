-- ===== src/Window/Schedule.antt =====
-- How the windows are calculated from the operators: crates/driver/src/lookahead.rs.
use taiko_mk.Prelude.{
  ℕ, ◌+◌, ◌*◌, ◌/◌, ◌%◌, ◌≤◌, ◌<◌, ◌≡◌, refl, ◌∙◌, Bool, true, not, arith, ◌==◌, ◌&&◌,
  if◌then◌else◌,
}
use taiko_mk.Slots.{epoch_slots, to_epoch, to_slot}
use taiko_mk.Window.{
  Window, window_size, with_offset, contains, apply_epoch, reset_at_epoch, schedule_epoch,
  calculate_inclusion, calculate_sequencing, apply_set,
}
use taiko_mk.Window.Contains.{IsAligned, epoch_limit, is_marked, contains-is_marked}

pub with_offset-IsAligned : (offset : ℕ) → offset ≤ epoch_slots → IsAligned (with_offset offset)
unfolding with_offset
with_offset-IsAligned offset h = ground arith

pub with_offset-offset : (offset : ℕ) → (with_offset offset).offset ≡ offset
unfolding with_offset
with_offset-offset offset = refl

apply_epoch-IsAligned :
    (w : Window) (epoch : ℕ) → epoch < epoch_limit → IsAligned w → IsAligned (apply_epoch w epoch)
unfolding apply_epoch
apply_epoch-IsAligned w epoch h v = ground arith

offset-apply_epoch : (w : Window) (epoch : ℕ) → (apply_epoch w epoch).offset ≡ w.offset
unfolding apply_epoch
offset-apply_epoch w epoch = ground arith

schedule_epoch-IsAligned :
    (w : Window) (epoch : ℕ) (is_ours : Bool)
    → epoch < epoch_limit
    → IsAligned w
    → IsAligned (schedule_epoch w epoch is_ours)
unfolding schedule_epoch reset_at_epoch
schedule_epoch-IsAligned w epoch is_ours h v = ground (arith, apply_epoch-IsAligned w epoch h v)

offset-schedule_epoch :
    (w : Window) (epoch : ℕ) (is_ours : Bool) → (schedule_epoch w epoch is_ours).offset ≡ w.offset
unfolding schedule_epoch reset_at_epoch
offset-schedule_epoch w epoch is_ours = ground (arith, offset-apply_epoch w epoch)

is_marked-apply_epoch :
    (w : Window) (epoch e : ℕ)
    → is_marked (apply_epoch w epoch) e
      ≡ (if e % window_size == epoch % window_size then e == epoch else is_marked w e)
unfolding apply_epoch is_marked
is_marked-apply_epoch w epoch e = ground arith

is_marked-reset_at_epoch :
    (w : Window) (epoch e : ℕ)
    → is_marked (reset_at_epoch w epoch) e
      ≡ (not (e % window_size == epoch % window_size) && is_marked w e)
unfolding reset_at_epoch is_marked
is_marked-reset_at_epoch w epoch e = ground arith

-- A place holds one epoch.
is_marked_unique :
    (w : Window) (e f : ℕ)
    → e % window_size ≡ f % window_size
    → is_marked w e ≡ true
    → is_marked w f ≡ true
    → e ≡ f
unfolding is_marked
is_marked_unique w e f h p q = ground arith

contains-to_slot :
    (w : Window) (epoch : ℕ)
    → IsAligned w
    → w.offset ≡ 0
    → epoch < epoch_limit
    → contains w (to_slot epoch) ≡ is_marked w epoch
unfolding to_slot
contains-to_slot w epoch v z h = ground (arith, contains-is_marked w (epoch * epoch_slots) v)

-- The epoch gets the mark that it was given; another epoch keeps its own, unless we are the
-- sequencer and it shares the place.
schedule_epoch-is_marked :
    (w : Window) (epoch e : ℕ) (is_ours : Bool)
    → IsAligned w
    → w.offset ≡ 0
    → epoch < epoch_limit
    → is_marked (schedule_epoch w epoch is_ours) e ≡ (
        if e == epoch
        then is_ours
        else is_marked w e && not (is_ours && e % window_size == epoch % window_size))
unfolding schedule_epoch
schedule_epoch-is_marked w epoch e is_ours v z h = ground (
  arith,
  contains-to_slot w epoch v z h,
  is_marked-apply_epoch w epoch e,
  is_marked-reset_at_epoch w epoch e,
  is_marked_unique w e epoch,
)

pub calculate_inclusion-IsAligned :
    (w : Window) (head_slot : ℕ) (current next : Bool)
    → IsAligned w
    → to_epoch head_slot + 1 < epoch_limit
    → IsAligned (calculate_inclusion w head_slot current next)
unfolding calculate_inclusion
calculate_inclusion-IsAligned w head_slot current next v h = ground (
  arith,
  schedule_epoch-IsAligned w (to_epoch head_slot) current,
  schedule_epoch-IsAligned (schedule_epoch w (to_epoch head_slot) current) (to_epoch head_slot + 1)
      next,
)

pub offset-calculate_inclusion :
    (w : Window) (head_slot : ℕ) (current next : Bool)
    → (calculate_inclusion w head_slot current next).offset ≡ w.offset
unfolding calculate_inclusion
offset-calculate_inclusion w head_slot current next =
    offset-schedule_epoch (schedule_epoch w (to_epoch head_slot) current) _ next
    ∙ offset-schedule_epoch w (to_epoch head_slot) current

calculate_inclusion-is_marked :
    (w : Window) (head_slot e : ℕ) (current next : Bool)
    → IsAligned w
    → w.offset ≡ 0
    → to_epoch head_slot + 1 < epoch_limit
    → (e ≡ to_epoch head_slot
        → is_marked (calculate_inclusion w head_slot current next) e ≡ current)
      × (e ≡ to_epoch head_slot + 1
          → is_marked (calculate_inclusion w head_slot current next) e ≡ next)
      × (e + 1 ≡ to_epoch head_slot
          → is_marked (calculate_inclusion w head_slot current next) e ≡ is_marked w e)
unfolding calculate_inclusion
calculate_inclusion-is_marked w head_slot e current next v z h =
    let c : ℕ = to_epoch head_slot in
    let u : Window = schedule_epoch w c current in
    ground (
      arith,
      schedule_epoch-is_marked w c e current v z,
      schedule_epoch-is_marked u (c + 1) e next
          (schedule_epoch-IsAligned w c current (omega arith) v),
      offset-schedule_epoch w c current,
    )

-- After the inclusion window, aligned and without offset, is calculated at a head slot of an epoch
-- below 2 ^ 58 - 1, a slot of the head's epoch is in it exactly when we are that epoch's
-- sequencer, a slot of the next epoch exactly when we are the next one's, and for a slot of the
-- previous epoch nothing has changed.
pub calculate_inclusion_lem :
    (w : Window) (head_slot slot : ℕ) (current next : Bool)
    → IsAligned w
    → w.offset ≡ 0
    → to_epoch head_slot + 1 < epoch_limit
    → let after = calculate_inclusion w head_slot current next in
      (to_epoch slot ≡ to_epoch head_slot → contains after slot ≡ current)
      × (to_epoch slot ≡ to_epoch head_slot + 1 → contains after slot ≡ next)
      × (to_epoch slot + 1 ≡ to_epoch head_slot → contains after slot ≡ contains w slot)
unfolding to_epoch
calculate_inclusion_lem w head_slot slot current next v z h = ground (
  arith,
  calculate_inclusion-is_marked w head_slot (slot / epoch_slots) current next v z h,
  contains-is_marked w slot v,
  contains-is_marked (calculate_inclusion w head_slot current next) slot
      (calculate_inclusion-IsAligned w head_slot current next v h),
  offset-calculate_inclusion w head_slot current next,
)

pub calculate_sequencing-IsAligned :
    (w i : Window)
    → IsAligned i
    → w.offset ≤ epoch_slots
    → IsAligned (calculate_sequencing w i) × ((calculate_sequencing w i).offset ≡ w.offset)
unfolding calculate_sequencing apply_set apply_epoch
calculate_sequencing-IsAligned w i v h = ground arith

calculate_sequencing-is_marked :
    (w i : Window) (e : ℕ) → IsAligned i → is_marked (calculate_sequencing w i) e ≡ is_marked i e
unfolding calculate_sequencing apply_set apply_epoch is_marked
calculate_sequencing-is_marked w i e v = ground arith

-- The sequencing window is the inclusion window moved back by the offset, whatever it held before.
-- The inclusion window is aligned and has no offset; the offset is at most an epoch.
pub calculate_sequencing_lem :
    (w i : Window) (slot : ℕ)
    → IsAligned i
    → i.offset ≡ 0
    → w.offset ≤ epoch_slots
    → contains (calculate_sequencing w i) slot ≡ contains i (slot + w.offset)
calculate_sequencing_lem w i slot v z h = ground (
  arith,
  calculate_sequencing-IsAligned w i v h,
  calculate_sequencing-is_marked w i ((slot + w.offset) / epoch_slots) v,
  contains-is_marked (calculate_sequencing w i) slot (calculate_sequencing-IsAligned w i v h).0,
  contains-is_marked i (slot + w.offset) v,
)
