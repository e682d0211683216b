-- ===== src/Window.antt =====
-- The ring buffer of the lookahead: `Window` in crates/driver/src/lookahead.rs.
pub mod Contains
pub mod Schedule
pub mod End
pub mod Ranges
mod Tests
use taiko_mk.Prelude.{
  ℕ, ◌+◌, ◌-◌, ◌%◌, Bool, true, false, not, ◌&&◌, Option, none, some, List, [], ◌∷◌, ◌==◌, leb,
  if◌then◌else◌, saturating_add, saturating_sub,
}
use taiko_mk.Slots.{epoch_slots, to_epoch, to_slot, to_slot_range, SlotRange, range_contains}

abbrev pub window_size : ℕ
window_size = 3

-- `(bool, Epoch)`.
pub record Entry : Type 0 where
  pub is_set : Bool
  pub epoch : ℕ

abbrev pub unset : Entry
unset = record { is_set = false; epoch = 0 }

-- `[(bool, Epoch); WINDOW_SIZE]` by its three places, and the offset. The type marker is left out.
pub record Window : Type 0 where
  pub at0 : Entry
  pub at1 : Entry
  pub at2 : Entry
  pub offset : ℕ

-- `inner.iter()`.
abbrev pub entries : Window → List Entry
entries w = w.at0 ∷ w.at1 ∷ w.at2 ∷ []

-- `inner[index] = e`; every index is a remainder by `window_size`.
abbrev pub write : Window → ℕ → Entry → Window
write w index e =
    if index == 0
    then record w { at0 = e }
    else if index == 1
    then record w { at1 = e }
    else record w { at2 = e }

-- `inner = [(false, 0); WINDOW_SIZE]`.
abbrev pub reset_all : Window → Window
reset_all w = record w { at0 = unset; at1 = unset; at2 = unset }

-- `Window::<Sequencing>::with_offset`; with offset 0 this is `Window::<Inclusion>::default`.
pub with_offset : ℕ → Window
with_offset offset = record { at0 = unset; at1 = unset; at2 = unset; offset = offset }

epoch_to_range_with_offset : Window → ℕ → SlotRange
unfolding to_slot_range
epoch_to_range_with_offset w epoch =
    let range = to_slot_range epoch in
    record { start = saturating_sub range.start w.offset; end = saturating_sub range.end w.offset }

apply_epoch : Window → ℕ → Window
apply_epoch w epoch = write w (epoch % window_size) (record { is_set = true; epoch = epoch })

reset_at_epoch : Window → ℕ → Window
reset_at_epoch w epoch = write w (epoch % window_size) unset

-- The first entry whose range holds the slot, as `find` returns it.
find_entry : Window → List Entry → ℕ → Option Entry
find_entry w [] slot = none
find_entry w (e ∷ es) slot =
    if range_contains (epoch_to_range_with_offset w e.epoch) slot
    then some e
    else find_entry w es slot

pub contains : Window → ℕ → Bool
unfolding find_entry
contains w slot = elim (find_entry w (entries w) slot) [ none ↦ false | some e ↦ e.is_set ]

-- The loop of `end` over `(highest, set)`.
highest_set : List Entry → ℕ → Bool → ℕ × Bool
highest_set [] highest set = (highest, set)
highest_set (e ∷ es) highest set =
    let later = e.is_set && leb highest e.epoch in
    highest_set es (if later then e.epoch else highest) (if later then true else set)

pub end : Window → ℕ
unfolding highest_set to_slot
end w =
    let (highest, set) = highest_set (entries w) 0 false in
    if (highest == 0) && not set
    then 0
    else saturating_sub (saturating_add (to_slot highest) epoch_slots) w.offset

pub is_empty : Window → Bool
is_empty w = not w.at0.is_set && (not w.at1.is_set && not w.at2.is_set)

-- One half of `Window::<Inclusion>::calculate`: the epoch, and whether we sequence it.
schedule_epoch : Window → ℕ → Bool → Window
schedule_epoch w epoch is_ours =
    if is_ours
    then apply_epoch w epoch
    else if contains w (to_slot epoch)
    then reset_at_epoch w epoch
    else w

pub calculate_inclusion : Window → ℕ → Bool → Bool → Window
calculate_inclusion w head_slot sequencer_current_epoch sequencer_next_epoch =
    let current = schedule_epoch w (to_epoch head_slot) sequencer_current_epoch in
    schedule_epoch current (saturating_add (to_epoch head_slot) 1) sequencer_next_epoch

pub is_new : Window → ℕ → Bool
is_new w head_slot =
    let active_now = contains w head_slot in
    let active_previously = contains w (saturating_sub head_slot epoch_slots) in
    active_now && not active_previously

-- `apply_epoch` for each entry that is set.
apply_set : Window → List Entry → Window
apply_set w [] = w
apply_set w (e ∷ es) = apply_set (if e.is_set then apply_epoch w e.epoch else w) es

-- `Window::<Sequencing>::calculate`.
pub calculate_sequencing : Window → Window → Window
calculate_sequencing w inclusion_window = apply_set (reset_all w) (entries inclusion_window)
