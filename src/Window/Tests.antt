-- ===== src/Window/Tests.antt =====
-- Examples for the windows of crates/driver/src/lookahead.rs.
use taiko_mk.Prelude.{ℕ, ◌≡◌, List, [], ◌∷◌, sort_by_key, true, arith, refl}
use taiko_mk.Slots.{to_slot, SlotRange}
use taiko_mk.Window.{Window, unset, contains}
use taiko_mk.Window.Contains.{IsAligned}
use taiko_mk.Window.Ranges.{merge_adjacent_ranges, shown_ranges}
use taiko_mk.Window.Ranges.Merging.{covers, AllSeparated}
use taiko_mk.Window.Ranges.Shown.{shown_ranges_lem}

-- Epoch 5 at place 2, moved back by an offset.
abbrev fifth : ℕ → Window
fifth offset = record {
  at0 = unset;
  at1 = unset;
  at2 = record { is_set = true; epoch = 5 };
  offset = offset;
}

abbrev range : ℕ → ℕ → SlotRange
range a b = record { start = a; end = b }

-- The ranges of the doc comment, out of order.
abbrev scattered : List SlotRange
scattered = range 100 120 ∷ range 32 64 ∷ range 120 140 ∷ range 0 32 ∷ []

scattered_runs : merge_adjacent_ranges scattered ≡ range 0 64 ∷ range 100 140 ∷ []
unfolding merge_adjacent_ranges sort_by_key
scattered_runs = refl

-- Epochs 4 and 5 are shown as one range, moved back by the offset.
abbrev fourth_and_fifth : Window
fourth_and_fifth = record (fifth 4) { at1 = record { is_set = true; epoch = 4 } }

shown_runs : shown_ranges fourth_and_fifth ≡ range 124 188 ∷ []
unfolding shown_ranges sort_by_key to_slot
shown_runs = refl

fourth_and_fifth-IsAligned : IsAligned fourth_and_fifth
fourth_and_fifth-IsAligned = ground arith

shown_ranges_lem_example :
    ((slot : ℕ) → covers slot (shown_ranges fourth_and_fifth) ≡ contains fourth_and_fifth slot)
    × AllSeparated (shown_ranges fourth_and_fifth)
shown_ranges_lem_example = shown_ranges_lem fourth_and_fifth fourth_and_fifth-IsAligned
