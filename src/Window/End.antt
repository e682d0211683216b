-- ===== src/Window/End.antt =====
-- The end of a window, and a new inclusion window: crates/driver/src/lookahead.rs.
use taiko_mk.Prelude.{
  ℕ, ◌+◌, ◌-◌, ◌*◌, ◌/◌, ◌≤◌, ◌<◌, ◌≡◌, true, false, not, arith, ◌==◌, ◌&&◌, ◌||◌,
}
use taiko_mk.Slots.{epoch_slots, to_epoch, to_slot}
use taiko_mk.Window.{Window, entries, contains, end, highest_set, is_empty, is_new}
use taiko_mk.Window.Contains.{IsAligned, epoch_limit, is_marked, contains-is_marked}

-- The highest epoch that is set.
highest : Window → ℕ
highest w = (highest_set (entries w) 0 false).0

le-highest : (w : Window) (e : ℕ) → is_marked w e ≡ true → e ≤ highest w
unfolding highest highest_set is_marked
le-highest w e m = ground arith

highest-is_marked :
    (w : Window)
    → IsAligned w
    → is_empty w ≡ false
    → (is_marked w (highest w) ≡ true)
      × (highest w < epoch_limit)
      × (end w ≡ highest w * epoch_slots + epoch_slots - w.offset)
unfolding highest highest_set is_marked is_empty end to_slot
highest-is_marked w v n = (ground arith, ground arith, ground arith)

is_marked-is_empty : (w : Window) (e : ℕ) → is_marked w e ≡ true → is_empty w ≡ false
unfolding is_marked is_empty
is_marked-is_empty w e m = ground arith

end-is_empty : (w : Window) → is_empty w ≡ true → end w ≡ 0
unfolding is_empty end highest_set
end-is_empty w m = ground arith

-- Every slot of an aligned window lies below its end.
pub contains-lt-end : (w : Window) (slot : ℕ) → IsAligned w → contains w slot ≡ true → slot < end w
contains-lt-end w slot v m =
    let e : ℕ = (slot + w.offset) / epoch_slots in
    ground (
      arith,
      contains-is_marked w slot v,
      le-highest w e,
      is_marked-is_empty w e,
      highest-is_marked w v,
    )

-- The slot before the end of an aligned window that is not empty is in it, if the offset leaves a
-- slot in each epoch; the end of an empty window is 0.
end_tight :
    (w : Window)
    → IsAligned w
    → w.offset < epoch_slots
    → (is_empty w ≡ true → end w ≡ 0)
      × (is_empty w ≡ false → (0 < end w) × (contains w (end w - 1) ≡ true))
end_tight w v h =
    ground (arith, end-is_empty w, highest-is_marked w v, contains-is_marked w (end w - 1) v)

-- An aligned inclusion window, which has no offset, is new at a slot exactly when the slot's epoch
-- is marked, is not the first, and the epoch before is not marked.
is_new_lem :
    (w : Window) (slot : ℕ)
    → IsAligned w
    → w.offset ≡ 0
    → is_new w slot ≡ (
        is_marked w (to_epoch slot)
        && not ((to_epoch slot == 0) || is_marked w (to_epoch slot - 1)))
unfolding is_new to_epoch
is_new_lem w slot v z =
    ground (arith, contains-is_marked w slot v, contains-is_marked w (slot - epoch_slots) v)
