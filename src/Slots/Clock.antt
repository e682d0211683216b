-- ===== src/Slots/Clock.antt =====
-- `SlotClock` of crates/primitives/src/time.rs: two intervals in one stream of ticks. Whether an
-- interval of the runtime has a tick when it is polled, and what the wall clock shows, are arguments.
use mathlib.Core.List.{append-nil, append_assoc}
use taiko_mk.Prelude.{
  ℕ, ◌≡◌, refl, sym, ap, ◌∙◌, Bool, true, false, Option, none, some, List, [], ◌∷◌, ◌++◌,
  if◌then◌else◌, Bool-cases, inl, inr,
}

pub data SlotTick : Type 0 where
  l1 : ℕ → SlotTick
  l2 : ℕ → SlotTick

-- The intervals stand outside; the cache is what is left of the state.
pub record SlotClock : Type 0 where
  pub cache : Option SlotTick

-- What one poll meets: which intervals are ready, and the readings of the clock in their order.
pub record Moment : Type 0 where
  pub l1_ready : Bool
  pub l2_ready : Bool
  pub reading : ℕ
  pub next_reading : ℕ

-- The item, `none` for pending; the clock after it; and whether the task is woken again at once.
pub record Polled : Type 0 where
  pub item : Option SlotTick
  pub clock : SlotClock
  pub wakes : Bool

unfoldable pub new_at : SlotClock
new_at = record { cache = none }

-- Both intervals are asked; an L2 tick behind an L1 tick is cached.
unfoldable pub poll_intervals : Moment → Bool → Bool → Polled
poll_intervals m true true = record {
  item = some (l1 m.next_reading);
  clock = record { cache = some (l2 m.reading) };
  wakes = true;
}
poll_intervals m true false = record {
  item = some (l1 m.reading);
  clock = record { cache = none };
  wakes = false;
}
poll_intervals m false true = record {
  item = some (l2 m.reading);
  clock = record { cache = none };
  wakes = false;
}
poll_intervals m false false = record {
  item = none;
  clock = record { cache = none };
  wakes = false;
}

-- A cached tick comes first, and then no interval is asked.
unfoldable pub poll_cache : Option SlotTick → Moment → Polled
unfolding poll_intervals
poll_cache (some tick) m = record {
  item = some tick;
  clock = record { cache = none };
  wakes = false;
}
poll_cache none m = poll_intervals m m.l1_ready m.l2_ready

unfoldable pub poll_next : SlotClock → Moment → Polled
unfolding poll_cache
poll_next clock m = poll_cache clock.cache m

abbrev pub listed : Option SlotTick → List SlotTick
listed none = []
listed (some tick) = tick ∷ []

-- The stream over a sequence of polls, with the clock at its end.
unfoldable pub run_clock : SlotClock → List Moment → List SlotTick × SlotClock
run_clock clock [] = ([], clock)
run_clock clock (m ∷ ms) =
    let polled = poll_next clock m in
    let (ticks, last) = run_clock polled.clock ms in (listed polled.item ++ ticks, last)

-- The ticks that the intervals give up in a poll: L2 with the first reading of the clock and L1 with
-- the next one when both are ready, and L1 is passed on first. They are asked only on an empty cache.
abbrev pub given : Option SlotTick → Moment → List SlotTick
given (some tick) m = []
given none m =
    if m.l1_ready
    then l1 (if m.l2_ready then m.next_reading else m.reading)
      ∷ (if m.l2_ready then l2 m.reading ∷ [] else [])
    else if m.l2_ready
    then l2 m.reading ∷ []
    else []

abbrev pub all_given : SlotClock → List Moment → List SlotTick
all_given clock [] = []
all_given clock (m ∷ ms) = given clock.cache m ++ all_given (poll_next clock m).clock ms

-- One poll: what was cached and what the intervals give is the item and what is cached then.
poll_cache-given :
    (cache : Option SlotTick) (m : Moment)
    → listed (poll_cache cache m).item ++ listed (poll_cache cache m).clock.cache
      ≡ listed cache ++ given cache m
unfolding poll_cache poll_intervals
poll_cache-given (some tick) m = refl
poll_cache-given none m = elim (Bool-cases m.l1_ready) [
  | inl a ↦ elim (Bool-cases m.l2_ready) [ inl b ↦ simp (a, b) | inr b ↦ simp (a, b) ]
  | inr a ↦ elim (Bool-cases m.l2_ready) [ inl b ↦ simp (a, b) | inr b ↦ simp (a, b) ]
]

-- The stream loses no tick, makes none up and changes no time: over any sequence of polls the ticks
-- that came out, and then the one still cached, are the one that was cached before and those that the
-- intervals gave, in order, with the readings of the clock, and L1 before L2 when both are ready at
-- once.
pub run_clock_lem :
    (clock : SlotClock) (ms : List Moment)
    → let (ticks, last) = run_clock clock ms in
      ticks ++ listed last.cache ≡ listed clock.cache ++ all_given clock ms
unfolding run_clock poll_next
run_clock_lem clock [] = sym (append-nil (listed clock.cache))
run_clock_lem clock (m ∷ ms) =
    let polled = poll_next clock m in
    let (ticks, last) = run_clock polled.clock ms in
    append_assoc (listed polled.item) ticks (listed last.cache)
    ∙ ap (listed polled.item ++◌) (run_clock_lem polled.clock ms)
    ∙ sym
        (append_assoc (listed polled.item) (listed polled.clock.cache) (all_given polled.clock ms))
    ∙ ap (◌++ all_given polled.clock ms) (poll_cache-given clock.cache m)
    ∙ append_assoc (listed clock.cache) (given clock.cache m) (all_given polled.clock ms)
