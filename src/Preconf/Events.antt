-- ===== src/Preconf/Events.antt =====
-- `subscribe_ws_events` of crates/clients/src/taiko_preconf.rs: the task between the websocket and the
-- channel, and what it delivers.
use taiko_mk.Prelude.{
  ℕ, ◌≡◌, Bool, true, false, ◌&&◌, Option, none, some, List, [], ◌∷◌, ◌++◌, ltb, length, ◌||◌,
  is_nil,
}

abbrev pub channel_capacity : ℕ
channel_capacity = 128

-- A text is what JSON makes of it; pings and the like are `other`.
pub data Message (E : Type 0) : Type 0 where
  text : Option E → Message E
  close : Message E
  failed : Message E
  other : Message E

-- What happens to the task, in its order: the connection is made or refused, a message comes, the
-- stream ends; on the other side the receiver takes an event or goes away.
pub data Input (E : Type 0) : Type 0 where
  connected : Input E
  refused : Input E
  message : Message E → Input E
  stream_end : Input E
  take_event : Input E
  drop_receiver : Input E

pub record Subscription (E : Type 0) : Type 0 where
  pub is_streaming : Bool
  pub is_open : Bool
  pub queue : List E
  pub received : List E

module _ {E : Type 0} where
  unfoldable pub subscribe : Subscription E
  subscribe = record { is_streaming = false; is_open = true; queue = []; received = [] }

  -- There is room for an event now.
  abbrev pub has_room : Subscription E → Bool
  has_room s = s.is_open && ltb (length s.queue) channel_capacity

  unfoldable pub send_if : Bool → Subscription E → E → Subscription E
  send_if true s event = record s { queue = s.queue ++ event ∷ [] }
  send_if false s event = record s { is_streaming = false }

  -- `try_send` fails on a full channel and on one without a receiver; the inner loop ends then.
  unfoldable pub try_send : Subscription E → E → Subscription E
  unfolding send_if
  try_send s event = send_if (has_room s) s event

  unfoldable pub on_message : Subscription E → Message E → Subscription E
  on_message s (text (some event)) = try_send s event
  on_message s (text none) = s
  on_message s close = record s { is_streaming = false }
  on_message s failed = record s { is_streaming = false }
  on_message s other = s

  unfoldable pub take_first : Subscription E → List E → Subscription E
  take_first s [] = s
  take_first s (e ∷ es) = record s { queue = es; received = s.received ++ e ∷ [] }

  -- There are messages only while the task streams.
  unfoldable pub while_streaming : Bool → Subscription E → Message E → Subscription E
  unfolding on_message
  while_streaming true s m = on_message s m
  while_streaming false s m = s

  unfoldable pub on_input : Subscription E → Input E → Subscription E
  on_input s connected = record s { is_streaming = true }
  on_input s refused = s
  on_input s (message m) = while_streaming s.is_streaming s m
  on_input s stream_end = record s { is_streaming = false }
  on_input s take_event = take_first s s.queue
  on_input s drop_receiver = record s { is_open = false }

  unfoldable pub run : Subscription E → List (Input E) → Subscription E
  run s [] = s
  run s (i ∷ is) = run (on_input s i) is

  -- The event that arrives with an input.
  abbrev pub came : Bool → Message E → List E
  came true (text (some event)) = event ∷ []
  came _ _ = []

  abbrev pub arriving : Subscription E → Input E → List E
  arriving s (message m) = came s.is_streaming m
  arriving s _ = []

  abbrev pub arrived : Subscription E → List (Input E) → List E
  arrived s [] = []
  arrived s (i ∷ is) = arriving s i ++ arrived (on_input s i) is

  -- The receiver is there and the channel is not full whenever an event arrives.
  abbrev pub KeepsUp : Subscription E → List (Input E) → Type 0
  KeepsUp s [] = Unit
  KeepsUp s (i ∷ is) = ((is_nil (arriving s i) || has_room s) ≡ true) × KeepsUp (on_input s i) is

  -- What left the task, in order: the events that the receiver has and those in the channel.
  abbrev pub delivered : Subscription E → List E
  delivered s = s.received ++ s.queue
