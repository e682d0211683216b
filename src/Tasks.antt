-- ===== src/Tasks.antt =====
-- Long-running tasks: crates/primitives/src/task.rs. The `HashMap` is the list of its entries in the
-- order in which it is traversed; where a new name comes in that order is left to it, here the end. What
-- a handle answers when it is polled is an argument.
pub mod Polling
mod Tests
use taiko_mk.Prelude.{ℕ, Bool, true, false, Option, none, some, List, [], ◌∷◌, ◌==◌}

-- The payload of a panic, as it is downcast; texts are named by numbers.
pub data PanicValue : Type 0 where
  str : ℕ → PanicValue
  string : ℕ → PanicValue
  unknown : PanicValue

pub data JoinError : Type 0 where
  cancelled : JoinError
  panic : PanicValue → JoinError

-- `Poll` of a handle: its result once the task has ended.
pub data Poll (A : Type 0) : Type 0 where
  pending : Poll A
  ended : A → Poll A

pub record TaskResult : Type 0 where
  pub name : ℕ
  pub err : Option JoinError

-- What `error_message` returns.
pub data Message : Type 0 where
  empty : Message
  said : ℕ → Message
  unknown_type : Message

unfoldable pub error_message : TaskResult → Message
error_message r = elim r.err [
  | none ↦ empty
  | some cancelled ↦ empty
  | some (panic (str s)) ↦ said s
  | some (panic (string s)) ↦ said s
  | some (panic unknown) ↦ unknown_type
]

module _ {Handle : Type 0} where
  -- `HashMap::insert`: the handle under a name that is there is replaced, and so dropped.
  unfoldable pub add_handle : ℕ → Handle → List (ℕ × Handle) → List (ℕ × Handle)
  add_handle name handle [] = (name, handle) ∷ []
  add_handle name handle (t ∷ tasks) = elim (t.0 == name) [
    | true ↦ (name, handle) ∷ tasks
    | false ↦ t ∷ add_handle name handle tasks
  ]

  module _ (poll_handle : Handle → Poll (Option JoinError)) where
    -- The loop over the entries: the first one that has ended.
    unfoldable pub poll_all : List (ℕ × Handle) → Poll (Option TaskResult)
    poll_all [] = pending
    poll_all (t ∷ tasks) = elim (poll_handle t.1) [
      | ended err ↦ ended (some (record { name = t.0; err = err }))
      | pending ↦ poll_all tasks
    ]

    unfoldable pub poll : List (ℕ × Handle) → Poll (Option TaskResult)
    unfolding poll_all
    poll [] = ended none
    poll (t ∷ tasks) = poll_all (t ∷ tasks)
