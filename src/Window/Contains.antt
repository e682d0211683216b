-- ===== src/Window/Contains.antt =====
-- What `contains` of crates/driver/src/lookahead.rs reads from the ring buffer.
use taiko_mk.Prelude.{
  ℕ, ◌+◌, ◌/◌, ◌%◌, ◌^◌, ◌≤◌, ◌<◌, ◌≡◌, ◌⊎◌, Bool, true, false, arith, ◌==◌, ◌&&◌, if◌then◌else◌,
}
use taiko_mk.Slots.{epoch_slots, range_contains}
use taiko_mk.Window.{Window, Entry, window_size, contains, epoch_to_range_with_offset}

-- The last epoch whose slots and offset stay below 2 ^ 64 with room to spare.
abbrev pub epoch_limit : ℕ
epoch_limit = 2 ^ 58

-- An entry at place `i`: cleared, or an epoch that belongs there.
abbrev pub Fits : ℕ → Entry → Type 0
Fits i e =
    ((e.is_set ≡ false) × (e.epoch ≡ 0))
    ⊎ ((e.is_set ≡ true) × (e.epoch % window_size ≡ i) × (e.epoch < epoch_limit))

pub record IsAligned (w : Window) : Type 0 where
  pub fits0 : Fits 0 w.at0
  pub fits1 : Fits 1 w.at1
  pub fits2 : Fits 2 w.at2
  pub offset_small : w.offset ≤ epoch_slots

-- The epoch is marked in the buffer, at its place.
unfoldable pub is_marked : Window → ℕ → Bool
is_marked w epoch =
    if epoch % window_size == 0
    then w.at0.is_set && w.at0.epoch == epoch
    else if epoch % window_size == 1
    then w.at1.is_set && w.at1.epoch == epoch
    else w.at2.is_set && w.at2.epoch == epoch

-- The range of an entry's epoch, moved by the offset, in one division.
range_hit :
    (w : Window) (epoch slot : ℕ)
    → w.offset ≤ epoch_slots
    → epoch < epoch_limit
    → range_contains (epoch_to_range_with_offset w epoch) slot
      ≡ (((slot + w.offset) / epoch_slots) == epoch)
unfolding range_contains epoch_to_range_with_offset
range_hit w epoch slot h k = ground arith

-- A slot is in an aligned window exactly when the epoch of the slot moved on by the offset is
-- marked.
pub contains-is_marked :
    (w : Window) (slot : ℕ)
    → IsAligned w
    → contains w slot ≡ is_marked w ((slot + w.offset) / epoch_slots)
unfolding contains is_marked
contains-is_marked w slot v = ground (
  arith,
  range_hit w w.at0.epoch slot,
  range_hit w w.at1.epoch slot,
  range_hit w w.at2.epoch slot,
)
