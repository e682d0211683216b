-- ===== src/Tasks/Polling.antt =====
-- What `CriticalTasks` of crates/primitives/src/task.rs reports.
use taiko_mk.Prelude.{ℕ, ◌≡◌, refl, ap, ◌⊎◌, inl, inr, Option, none, some, List, [], ◌∷◌, ◌++◌, All}
use taiko_mk.Tasks.{JoinError, Poll, pending, ended, TaskResult, poll_all, poll}

module _ {Handle : Type 0} (poll_handle : Handle → Poll (Option JoinError)) where
  abbrev pub IsRunning : ℕ × Handle → Type 0
  IsRunning t = poll_handle t.1 ≡ pending

  Poll-cases :
      (p : Poll (Option JoinError)) → (p ≡ pending) ⊎ ((err : Option JoinError) × (p ≡ ended err))
  Poll-cases pending = inl refl
  Poll-cases (ended err) = inr (err, refl)

  -- The loop itself, which does not end without a result.
  pub data Finds (tasks : List (ℕ × Handle)) : Poll (Option TaskResult) → Type 0 where
    none_ended : All IsRunning tasks → Finds tasks pending
    first_ended :
        (front back : List (ℕ × Handle)) (name : ℕ) (handle : Handle) (err : Option JoinError)
        → tasks ≡ front ++ (name, handle) ∷ back
        → All IsRunning front
        → poll_handle handle ≡ ended err
        → Finds tasks (ended (some (record { name = name; err = err })))

  -- What a poll answers: there are no tasks; all are running; or one has ended, by its name and error,
  -- behind tasks that are running.
  pub data Reports (tasks : List (ℕ × Handle)) : Poll (Option TaskResult) → Type 0 where
    no_tasks : tasks ≡ [] → Reports tasks (ended none)
    found : {r : Poll (Option TaskResult)} → Finds tasks r → Reports tasks r

  behind :
      (t : ℕ × Handle) (tasks : List (ℕ × Handle)) (r : Poll (Option TaskResult))
      → IsRunning t
      → Finds tasks r
      → Finds (t ∷ tasks) r
  behind t tasks _ h (none_ended hs) = none_ended (h, hs)
  behind t tasks _ h (first_ended front back name handle err e hs q) =
      first_ended (t ∷ front) back name handle err (ap (t ∷◌) e) (h, hs) q

  poll_all-Finds : (tasks : List (ℕ × Handle)) → Finds tasks (poll_all poll_handle tasks)
  unfolding poll_all
  poll_all-Finds [] = none_ended tt
  poll_all-Finds (t ∷ tasks) = elim (Poll-cases (poll_handle t.1)) [
    | inr (err, e) ↦ rw (poll_all, e) (first_ended [] tasks t.0 t.1 err refl tt e)
    | inl e ↦ rw (poll_all, e) (behind t tasks _ e (poll_all-Finds tasks))
  ]

  -- A poll finds a task that has ended if there is one, and reports its name and error; it is pending
  -- while all tasks run, and ends without a result only when there are no tasks.
  poll-Reports : (tasks : List (ℕ × Handle)) → Reports tasks (poll poll_handle tasks)
  unfolding poll
  poll-Reports [] = no_tasks refl
  poll-Reports (t ∷ tasks) = found (poll_all-Finds (t ∷ tasks))
