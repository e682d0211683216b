-- ===== src/Preconf/Retries.antt =====
-- How `TaikoPreconfClient::retry` of crates/clients/src/taiko_preconf.rs ends.
use taiko_mk.Prelude.{
  ℕ, zero, suc, ◌+◌, ◌*◌, ◌^◌, ◌≤◌, ◌<◌, ◌≡◌, refl, ◌⊎◌, inl, inr, Bool, true, false, Option, none,
  some, List, [], ◌∷◌, ◌++◌, arith, min, Bool-cases, lt→ltb,
}
use taiko_mk.Preconf.{
  TaikoPreconfClientError, retries_exhausted, Result, ok, err, is_retryable,
  TaikoPreconfClientConfig, max_delay, returned, Run, exhausted, retry_loop, retry,
}

-- The sleep before call `i + 1`: the base delay first, whatever it is; then twice as long each time,
-- and at most ten seconds.
abbrev pub backoff : ℕ → ℕ → ℕ
backoff base zero = base
backoff base (suc i) = min (base * 2 ^ suc i) max_delay

-- The sleeps before the first `i` repetitions.
abbrev pub backoffs : ℕ → ℕ → List ℕ
backoffs base zero = []
backoffs base (suc i) = backoffs base i ++ backoff base i ∷ []

add_one : (i : ℕ) → i + 1 ≡ suc i
add_one i = omega arith

pow_suc : (i : ℕ) → 2 ^ suc i ≡ 2 ^ i * 2
pow_suc i = omega arith

mul_double : (a b : ℕ) → a * (b * 2) ≡ a * b * 2
mul_double a b = omega arith

backoff-suc : (base i : ℕ) → min (backoff base i * 2) max_delay ≡ backoff base (suc i)
backoff-suc base zero = omega arith
backoff-suc base (suc i) = rw (pow_suc (suc i)) omega (arith, mul_double base (2 ^ suc i))

module _ {T : Type 0} where
  -- An error that a repetition may cure.
  abbrev pub is_transient : Result T → Bool
  is_transient (ok result) = false
  is_transient (err e) = is_retryable e

  Result-cases :
      (r : Result T) → ((v : T) × (r ≡ ok v)) ⊎ ((e : TaikoPreconfClientError) × (r ≡ err e))
  Result-cases (ok v) = inl (v, refl)
  Result-cases (err e) = inr (e, refl)

le_or_eq : (j i : ℕ) → j ≤ suc i → (j ≤ i) ⊎ (j ≡ suc i)
le_or_eq j i h = omega arith

module _ {T : Type 0} (operation : ℕ → Result T) (config : TaikoPreconfClientConfig) where
  -- Every call up to the last one failed in a way that a repetition may cure, or call `i` is the
  -- first whose reply is final. The run is the one that follows from that.
  pub data Ends (run : Run T) : Type 0 where
    decided :
        (i : ℕ)
        → i ≤ config.retry_attempts
        → ((j : ℕ) → j < i → is_transient (operation j) ≡ true)
        → is_transient (operation i) ≡ false
        → run ≡ record {
          outcome = returned (operation i);
          calls = suc i;
          sleeps = backoffs config.base_delay i;
        }
        → Ends run
    gave_up :
        (e : TaikoPreconfClientError)
        → ((j : ℕ) → j ≤ config.retry_attempts → is_transient (operation j) ≡ true)
        → operation config.retry_attempts ≡ err e
        → run ≡ record {
          outcome = returned (err (retries_exhausted e));
          calls = suc config.retry_attempts;
          sleeps = backoffs config.base_delay config.retry_attempts;
        }
        → Ends run

  -- What the loop knows before the round `attempt`.
  abbrev LastIs : ℕ → Option TaikoPreconfClientError → Type 0
  LastIs zero last_err = last_err ≡ none
  LastIs (suc i) last_err =
      (e : TaikoPreconfClientError) × (last_err ≡ some e) × (operation i ≡ err e)

  stop_at :
      (i : ℕ) (e : TaikoPreconfClientError)
      → i ≡ config.retry_attempts
      → ((j : ℕ) → j ≤ i → is_transient (operation j) ≡ true)
      → operation i ≡ err e
      → Ends (record {
        outcome = returned (err (retries_exhausted e));
        calls = suc i;
        sleeps = backoffs config.base_delay i;
      })
  stop_at i e n before last =
      gave_up e (λ j h. before j (omega arith)) (rw (← n) last) (rw (← n) refl)

  decides :
      (i : ℕ) (r : Result T)
      → i ≤ config.retry_attempts
      → ((j : ℕ) → j < i → is_transient (operation j) ≡ true)
      → operation i ≡ r
      → is_transient r ≡ false
      → Ends (record { outcome = returned r; calls = suc i; sleeps = backoffs config.base_delay i })
  decides i r n before q f = decided i n before (rw q f) (rw q refl)

  up_to :
      (i : ℕ) (e : TaikoPreconfClientError)
      → ((j : ℕ) → j ≤ i → is_transient (operation j) ≡ true)
      → operation (suc i) ≡ err e
      → is_retryable e ≡ true
      → (j : ℕ) → j ≤ suc i
      → is_transient (operation j) ≡ true
  up_to i e before q r j h = elim (le_or_eq j i h) [ inl k ↦ before j k | inr k ↦ rw (k, q) r ]

  -- The loop from round 1 on, where it sleeps.
  retry_loop-Ends :
      (left i : ℕ) (last_err : Option TaikoPreconfClientError)
      → left + i ≡ config.retry_attempts
      → ((j : ℕ) → j ≤ i → is_transient (operation j) ≡ true)
      → LastIs (suc i) last_err
      → Ends (
          retry_loop operation left
            (suc i)
            (backoff config.base_delay i)
            last_err
            (backoffs config.base_delay i))
  unfolding retry_loop exhausted
  retry_loop-Ends zero i last_err n before (e, same, last) =
      rw same (stop_at i e (omega arith) before last)
  retry_loop-Ends (suc left) i last_err n before last = elim (Result-cases (operation (suc i))) [
    | inl (v, q) ↦
        rw (retry_loop, q, lt→ltb 0 (suc i) (omega arith), add_one (suc i))
          (decides (suc i) (ok v) (omega arith) (λ j h. before j (omega arith)) q refl)
    | inr (e, q) ↦ elim (Bool-cases (is_retryable e)) [
      | inl r ↦
          rw
            (
              retry_loop,
              q,
              r,
              lt→ltb 0 (suc i) (omega arith),
              add_one (suc i),
              backoff-suc config.base_delay i,
            )
            (retry_loop-Ends left (suc i) (some e) (omega arith) (up_to i e before q r)
              (e, refl, q))
      | inr r ↦
          rw (retry_loop, q, r, lt→ltb 0 (suc i) (omega arith), add_one (suc i))
            (decides (suc i) (err e) (omega arith) (λ j h. before j (omega arith)) q r)
    ]
  ]

  only_first :
      (e : TaikoPreconfClientError)
      → operation 0 ≡ err e
      → is_retryable e ≡ true
      → (j : ℕ) → j ≤ 0
      → is_transient (operation j) ≡ true
  only_first e q r j h = let j0 : j ≡ 0 = omega arith in rw (j0, q) r

  -- The operation is called at most once more than the configured repetitions, one sleep before each
  -- repetition: the base delay, as it is configured, and then twice the last one each time but at most
  -- ten seconds. It stops at the first reply that no
  -- repetition may cure, a success or an error, and returns it; when all calls fail otherwise it
  -- returns the last error as exhausted. It always returns, so that `unwrap` finds a last error.
  pub retry-Ends : Ends (retry operation config)
  unfolding retry retry_loop
  retry-Ends =
      rw (retry, add_one config.retry_attempts)
        elim (Result-cases (operation 0)) [
          | inl (v, q) ↦
              rw (retry_loop, q)
                (decides 0 (ok v) (omega arith) (λ j k. absurd (omega arith)) q refl)
          | inr (e, q) ↦ elim (Bool-cases (is_retryable e)) [
            | inl r ↦
                rw (retry_loop, q, r)
                  (retry_loop-Ends config.retry_attempts 0 (some e) (omega arith) (only_first e q r)
                    (e, refl, q))
            | inr r ↦
                rw (retry_loop, q, r)
                  (decides 0 (err e) (omega arith) (λ j k. absurd (omega arith)) q r)
          ]
        ]
