-- ===== src/Config/Clock.antt =====
-- When the clock of crates/driver/src/config.rs ticks.
use native.Mathlib.Nat.{add-mul, mul-div_left}
use taiko_mk.Prelude.{ℕ, ◌+◌, ◌-◌, ◌*◌, ◌/◌, ◌≤◌, ◌<◌, ◌≡◌, arith, u64_mod, add64, mul64}
use taiko_mk.Slots
use taiko_mk.Config.{RuntimeConfig, timestamp_to_l1_slot, slot_to_timestamp, slot_clock_delay}

-- The instant of the tick `n` of an interval of the runtime: its first tick is at its start.
abbrev pub l1_tick : ℕ → RuntimeConfig → ℕ → ℕ
l1_tick now cfg n = now + slot_clock_delay now cfg + n * cfg.l1_block_time

-- The numbers behind the delay, for the slot q.
delay_lem :
    (now g b q : ℕ)
    → g ≤ now
    → now + b < u64_mod
    → q * b ≤ now - g
    → now - g < q * b + b
    → now + (add64 (add64 g (mul64 q b)) b - now) ≡ g + q * b + b
delay_lem now g b q h w lo hi = omega arith

-- The instant of a tick, by its slot.
tick_lem :
    (now g b n : ℕ)
    → 0 < b
    → g ≤ now
    → now + b < u64_mod
    → let q = (now - g) / b in
      now + (add64 (add64 g (mul64 q b)) b - now) + n * b ≡ g + (q + 1 + n) * b
tick_lem now g b n p h w =
    let q : ℕ = (now - g) / b in
    let lo : q * b ≤ now - g = grind arith in
    let hi : now - g < q * b + b = grind arith in
    let d : now + (add64 (add64 g (mul64 q b)) b - now) ≡ g + q * b + b =
      delay_lem now g b q h w lo hi in
    rw (d, add-mul (q + 1) n b, add-mul q 1 b) (omega arith)

at_slot :
    (g b m t : ℕ)
    → 0 < b
    → t ≡ g + m * b
    → t < u64_mod
    → ((t - g) / b ≡ m) × (add64 g (mul64 m b) ≡ t)
at_slot g b m t p e fits =
    let rest : t - g ≡ m * b = omega arith in (rw rest (mul-div_left m p), omega arith)

-- The L1 ticks of the clock that starts now are the starts of the slots after the current one, in
-- order and without a gap, as long as the block time is not 0, the genesis has passed, and the instants
-- fit in 64 bits.
pub slot_clock_lem :
    (now : ℕ) (cfg : RuntimeConfig) (n : ℕ)
    → 0 < cfg.l1_block_time
    → cfg.l1_genesis_timestamp ≤ now
    → now + cfg.l1_block_time < u64_mod
    → l1_tick now cfg n < u64_mod
    → let slot = timestamp_to_l1_slot cfg now + 1 + n in
      (timestamp_to_l1_slot cfg (l1_tick now cfg n) ≡ slot)
      × (slot_to_timestamp cfg slot ≡ l1_tick now cfg n)
unfolding slot_clock_delay timestamp_to_l1_slot slot_to_timestamp Slots.timestamp_to_l1_slot
    Slots.slot_to_timestamp
slot_clock_lem now cfg n p h w fits =
    let q : ℕ = (now - cfg.l1_genesis_timestamp) / cfg.l1_block_time in
    at_slot cfg.l1_genesis_timestamp cfg.l1_block_time (q + 1 + n) (l1_tick now cfg n) p
      (tick_lem now cfg.l1_genesis_timestamp cfg.l1_block_time n p h w) fits
