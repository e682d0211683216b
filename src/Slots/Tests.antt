-- ===== src/Slots/Tests.antt =====
-- Polls of the clock of crates/primitives/src/time.rs.
use taiko_mk.Prelude.{◌≡◌, refl, true, false, List, [], ◌∷◌, ◌++◌}
use taiko_mk.Slots.Clock.{
  Moment, l1, l2, new_at, poll_cache, poll_intervals, poll_next, run_clock, listed, all_given,
  run_clock_lem,
}

-- Both intervals are ready, then none, then the second.
abbrev moments : List Moment
moments =
    record { l1_ready = true; l2_ready = true; reading = 100; next_reading = 101 }
    ∷ record { l1_ready = true; l2_ready = true; reading = 102; next_reading = 102 }
    ∷ record { l1_ready = false; l2_ready = true; reading = 103; next_reading = 103 }
    ∷ []

moments_run : (run_clock new_at moments).0 ≡ l1 101 ∷ l2 100 ∷ l2 103 ∷ []
unfolding run_clock new_at poll_next poll_cache poll_intervals
moments_run = refl

run_clock_lem_example :
    (run_clock new_at moments).0 ++ listed (run_clock new_at moments).1.cache
    ≡ listed new_at.cache ++ all_given new_at moments
run_clock_lem_example = run_clock_lem new_at moments
