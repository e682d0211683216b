-- ===== src/Builder/Tests.antt =====
-- Examples for crates/driver/src/block_builder/state.rs.
use taiko_mk.Prelude.{◌≡◌, none, some, arith}
use taiko_mk.Builder.{
  BuilderState, new, set_finalizing, drop_response, is_finalizing, wait_for_idle,
}
use taiko_mk.Builder.Waiting.{wait_for_idle_lem}

wait_for_idle_lem_example :
    (woken : BuilderState) × (wait_for_idle (set_finalizing new 17) ≡ some woken)
    × (is_finalizing woken ≡ some 17)
    × (wait_for_idle woken ≡ none)
    × (wait_for_idle (drop_response woken) ≡ some (drop_response woken))
    × (is_finalizing (drop_response woken) ≡ none)
unfolding new
wait_for_idle_lem_example = wait_for_idle_lem new 17 (omega arith)
