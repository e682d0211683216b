-- ===== src/Builder/Waiting.antt =====
-- The wait for the builder: crates/driver/src/block_builder/state.rs.
use taiko_mk.Prelude.{ℕ, ◌+◌, ◌≤◌, ◌≡◌, refl, none, some, arith}
use taiko_mk.Builder.{BuilderState, set_finalizing, drop_response, is_finalizing, wait_for_idle}

-- The first wait after a block begins to be finalized is over at once, while the block is still
-- being finalized; only a second wait is pending until the response is dropped, and then it is over
-- with the builder idle. The receiver has seen no version that was not sent.
pub wait_for_idle_lem :
    (s : BuilderState) (block_number : ℕ)
    → s.seen ≤ s.version
    → (woken : BuilderState) × (wait_for_idle (set_finalizing s block_number) ≡ some woken)
      × (is_finalizing woken ≡ some block_number)
      × (wait_for_idle woken ≡ none)
      × (wait_for_idle (drop_response woken) ≡ some (drop_response woken))
      × (is_finalizing (drop_response woken) ≡ none)
unfolding set_finalizing drop_response is_finalizing wait_for_idle
wait_for_idle_lem s block_number h = (
  record (set_finalizing s block_number) { seen = s.version + 1 },
  ground arith,
  refl,
  ground arith,
  refl,
  refl,
)
