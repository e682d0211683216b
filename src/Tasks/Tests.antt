-- ===== src/Tasks/Tests.antt =====
-- Examples for crates/primitives/src/task.rs.
use taiko_mk.Prelude.{ℕ, ◌≡◌, refl, Option, some, List, [], ◌∷◌, ◌==◌, if◌then◌else◌}
use taiko_mk.Tasks.{
  JoinError, panic, str, Poll, pending, ended, said, error_message, add_handle, poll_all, poll,
}

-- Handle 5 has panicked, the others run.
abbrev poll_handle : ℕ → Poll (Option JoinError)
poll_handle h = if h == 5 then ended (some (panic (str 77))) else pending

abbrev tasks : List (ℕ × ℕ)
tasks = (1, 4) ∷ (2, 5) ∷ (3, 6) ∷ []

-- A name that is used again takes the place of the first handle, whose panic is not seen any more.
replaced_test : poll poll_handle (add_handle 2 9 tasks) ≡ pending
unfolding poll poll_all add_handle
replaced_test = refl

message_test : error_message (record { name = 2; err = some (panic (str 77)) }) ≡ said 77
unfolding error_message
message_test = refl
