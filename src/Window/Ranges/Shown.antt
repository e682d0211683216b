-- ===== src/Window/Ranges/Shown.antt =====
-- The ranges shown for a window, and the slots that it contains: crates/driver/src/lookahead.rs.
use taiko_mk.Prelude.{ℕ, ◌+◌, ◌/◌, ◌≤◌, ◌<◌, ◌≡◌, ◌∙◌, List, arith, ◌==◌, map, retain}
use taiko_mk.Slots.{epoch_slots, SlotRange, range_contains}
use taiko_mk.Window.{Window, Entry, entries, contains}
use taiko_mk.Window.Contains.{IsAligned, epoch_limit, is_marked, contains-is_marked}
use taiko_mk.Window.Ranges.{shown_range, shown_ranges}
use taiko_mk.Window.Ranges.Merging.{covers, AllApart, AllSeparated, merge_adjacent_ranges_lem}

shown_hit :
    (w : Window) (e : Entry) (slot : ℕ)
    → w.offset ≤ epoch_slots
    → e.epoch < epoch_limit
    → range_contains (shown_range w e) slot ≡ (((slot + w.offset) / epoch_slots) == e.epoch)
unfolding range_contains shown_range
shown_hit w e slot h k = ground arith

unmerged : Window → List SlotRange
unmerged w = map (shown_range w) (retain (λ (e : Entry). e.is_set) (entries w))

covers-unmerged : (w : Window) (slot : ℕ) → IsAligned w → covers slot (unmerged w) ≡ contains w slot
unfolding covers unmerged is_marked
covers-unmerged w slot v = ground (
  arith,
  contains-is_marked w slot v,
  shown_hit w w.at0 slot v.offset_small,
  shown_hit w w.at1 slot v.offset_small,
  shown_hit w w.at2 slot v.offset_small,
)

unmerged-AllApart : (w : Window) → IsAligned w → AllApart (unmerged w)
unfolding unmerged shown_range
unmerged-AllApart w v = ground arith

-- For an aligned window the ranges shown hold exactly the slots that the window contains, and they
-- come in order with at least one slot free between any two neighbours: the printed text says what
-- `contains` answers.
pub shown_ranges_lem :
    (w : Window)
    → IsAligned w
    → ((slot : ℕ) → covers slot (shown_ranges w) ≡ contains w slot) × AllSeparated (shown_ranges w)
unfolding shown_ranges unmerged
shown_ranges_lem w v =
    let (same, apart) = merge_adjacent_ranges_lem (unmerged w) (unmerged-AllApart w v) in
    (λ slot. same slot ∙ covers-unmerged w slot v, apart)
