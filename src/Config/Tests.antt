-- ===== src/Config/Tests.antt =====
-- Runs for the clock of crates/driver/src/config.rs.
use taiko_mk.Prelude.{◌+◌, ◌<◌, ◌≡◌, refl, arith, u64_mod}
use taiko_mk.Slots
use taiko_mk.Samples.{config}
use taiko_mk.Config.{timestamp_to_l1_slot, slot_to_timestamp, slot_clock_delay}
use taiko_mk.Config.Clock.{l1_tick, slot_clock_lem}

slot_clock_lem_example :
    (timestamp_to_l1_slot (config 7) (l1_tick 1485 (config 7) 3)
      ≡ timestamp_to_l1_slot (config 7) 1485 + 1 + 3)
    × (slot_to_timestamp (config 7) (timestamp_to_l1_slot (config 7) 1485 + 1 + 3)
        ≡ l1_tick 1485 (config 7) 3)
unfolding slot_clock_delay timestamp_to_l1_slot Slots.timestamp_to_l1_slot
slot_clock_lem_example =
    slot_clock_lem 1485 (config 7) 3 (omega arith) (omega arith) (omega arith) fits
  where
    fits : l1_tick 1485 (config 7) 3 < u64_mod
    fits = omega arith

-- 485 seconds after the genesis, in slot 40: the next slot starts 7 seconds later.
delay_test : slot_clock_delay 1485 (config 7) ≡ 7
unfolding slot_clock_delay timestamp_to_l1_slot Slots.timestamp_to_l1_slot
delay_test = refl
