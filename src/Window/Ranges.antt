-- ===== src/Window/Ranges.antt =====
-- The ranges that the Debug printer of `Window` shows, and `merge_adjacent_ranges`:
-- crates/driver/src/lookahead.rs.
pub mod Merging
pub mod Shown
use taiko_mk.Prelude.{
  ℕ, List, [], ◌∷◌, ◌++◌, true, false, ◌==◌, map, retain, saturating_add, saturating_sub,
  sort_by_key,
}
use taiko_mk.Slots.{epoch_slots, to_slot, SlotRange}
use taiko_mk.Window.{Window, Entry, entries}

-- The loop over the rest of the ranges, with the range that grows and those that are done.
unfoldable pub collapse : List SlotRange → SlotRange → List SlotRange → List SlotRange
collapse collapsed current [] = collapsed ++ current ∷ []
collapse collapsed current (r ∷ rs) = elim (current.end == r.start) [
  | true ↦ collapse collapsed (record current { end = r.end }) rs
  | false ↦ collapse (collapsed ++ current ∷ []) r rs
]

-- From the sorted ranges on: `ranges[0]` is the first that grows.
unfoldable pub collapse_all : List SlotRange → List SlotRange
unfolding collapse
collapse_all [] = []
collapse_all (r ∷ rs) = collapse [] r rs

-- At the type of slots, as the printer uses it.
unfoldable pub merge_adjacent_ranges : List SlotRange → List SlotRange
unfolding collapse_all sort_by_key
merge_adjacent_ranges ranges = collapse_all (sort_by_key (λ (r : SlotRange). r.start) ranges)

-- The range of an entry, computed by the printer itself.
unfoldable pub shown_range : Window → Entry → SlotRange
unfolding to_slot
shown_range w e =
    let slot = to_slot e.epoch in
    record {
      start = saturating_sub slot w.offset;
      end = saturating_sub (saturating_add slot epoch_slots) w.offset;
    }

-- The ranges whose text is joined by commas; that text is left out.
unfoldable pub shown_ranges : Window → List SlotRange
unfolding shown_range merge_adjacent_ranges
shown_ranges w =
    merge_adjacent_ranges (map (shown_range w) (retain (λ (e : Entry). e.is_set) (entries w)))
