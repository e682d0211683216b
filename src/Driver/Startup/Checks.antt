-- ===== src/Driver/Startup/Checks.antt =====
-- What `Driver::new` has checked when it returns a driver: crates/driver/src/driver.rs and
-- crates/driver/src/state.rs.
use taiko_mk.Prelude.{
  ℕ, ◌≤◌, ◌<◌, ◌≡◌, ◌≢◌, ◌-◌, refl, ◌⊎◌, inl, inr, Bool, true, false, Option, none, some, [], arith,
  ltb, ltb→lt, Bool-cases,
}
use taiko_mk.Config.{RuntimeConfig, BatchSettings}
use taiko_mk.Status.{inactive}
use taiko_mk.Batch
use taiko_mk.Batch.{Header}
use taiko_mk.Driver.{Driver}
use taiko_mk.Driver.Startup.{
  StartReplies, Started, ready, failed, query_failed, insufficient_eth, insufficient_taiko,
  approval_failed, assert_token_balance, assert_token_balances, check_and_approve, min_allowance,
  after_checks, checked_driver, first_driver, with_l2_state, with_anchor, with_tip, new_driver,
}

-- A balance is known and below, or not below, what is needed.
abbrev pub Below : Option ℕ → ℕ → Type 0
Below reply needed = (n : ℕ) × (reply ≡ some n) × (n < needed)

abbrev pub Enough : Option ℕ → ℕ → Type 0
Enough reply needed = (n : ℕ) × (reply ≡ some n) × (needed ≤ n)

-- A new driver is inactive, has nothing submitted, and has an empty outstanding batch on its anchor.
abbrev pub IsFresh : {Tx : Type 0} → BatchSettings → Driver Tx → Type 0
IsFresh batch_settings d =
    (d.status ≡ inactive)
    × (d.sent ≡ [])
    × (d.outstanding_batch ≡ Batch.new d.anchor batch_settings)

-- A query for the state of a chain that failed.
pub data Unanswered (cfg : RuntimeConfig) (r : StartReplies) : Type 0 where
  no_tip : r.tip ≡ none → Unanswered cfg r
  no_anchor :
      (tip : Header)
      → r.tip ≡ some tip
      → r.header (tip.number - cfg.anchor_block_lag) ≡ none
      → Unanswered cfg r
  no_head_block : r.head_block ≡ none → Unanswered cfg r
  no_origin : r.head_l1_origin ≡ none → Unanswered cfg r

module _ {Tx : Type 0} (batch_settings : BatchSettings)
    (min_eth_balance min_taiko_balance : ℕ) where
  -- How the start ends, and why, by the replies on the balances, the allowance and the approval, and by
  -- a statement `unanswered` that another query was not answered.
  pub data Outcome (unanswered : Type 0) (eth tko allowance : Option ℕ) (status : Option Bool)
      : Started Tx → Type 0 where
    starts :
        (d : Driver Tx)
        → Enough eth min_eth_balance
        → Enough tko min_taiko_balance
        → Enough allowance min_allowance ⊎ (status ≡ some true)
        → IsFresh batch_settings d
        → Outcome unanswered eth tko allowance status (ready d)
    poor_eth :
        (n : ℕ)
        → eth ≡ some n
        → n < min_eth_balance
        → Outcome unanswered eth tko allowance status (failed (insufficient_eth n min_eth_balance))
    poor_taiko :
        (n : ℕ)
        → tko ≡ some n
        → n < min_taiko_balance
        → Outcome unanswered eth tko allowance status
            (failed (insufficient_taiko n min_taiko_balance))
    not_approved :
        Below allowance min_allowance
        → status ≢ some true
        → Outcome unanswered eth tko allowance status (failed approval_failed)
    no_reply :
        unanswered ⊎ ((eth ≡ none) ⊎ ((tko ≡ none) ⊎ (allowance ≡ none)))
        → Outcome unanswered eth tko allowance status (failed query_failed)

  module _ (unanswered : Type 0) (d : Driver Tx) (fresh : IsFresh batch_settings d) where
    approved-Outcome :
        (eth tko allowance : Option ℕ) (status : Option Bool)
        → Enough eth min_eth_balance
        → Enough tko min_taiko_balance
        → Outcome unanswered eth tko allowance status
            (after_checks (check_and_approve allowance status) (ready d))
    unfolding check_and_approve after_checks
    approved-Outcome eth tko none status h k = no_reply (inr (inr (inr refl)))
    approved-Outcome eth tko (some n) status h k = elim (Bool-cases (ltb n min_allowance)) [
      | inl b ↦ rw (check_and_approve, b) (asked status b)
      | inr b ↦ rw (check_and_approve, b) (starts d h k (inl (n, refl, ground arith)) fresh)
    ]
      where
        asked :
            (s : Option Bool)
            → ltb n min_allowance ≡ true
            → Outcome unanswered eth tko (some n) s (
                after_checks
                  (elim s [
                    | none ↦ some approval_failed
                    | some true ↦ none
                    | some false ↦ some approval_failed
                  ])
                  (ready d))
        asked none b = not_approved (n, refl, ltb→lt _ _ b) (λ e. ground arith)
        asked (some true) b = starts d h k (inr refl) fresh
        asked (some false) b = not_approved (n, refl, ltb→lt _ _ b) (λ e. ground arith)

    balances-Outcome :
        (eth tko allowance : Option ℕ) (status : Option Bool)
        → Outcome unanswered eth tko allowance status (
            after_checks
              (assert_token_balances eth tko min_eth_balance min_taiko_balance)
              (after_checks (check_and_approve allowance status) (ready d)))
    unfolding assert_token_balances assert_token_balance after_checks
    balances-Outcome none tko allowance status = no_reply (inr (inl refl))
    balances-Outcome (some eth) none allowance status = no_reply (inr (inr (inl refl)))
    balances-Outcome (some eth) (some tko) allowance status =
        elim (Bool-cases (ltb eth min_eth_balance)) [
          | inl b ↦ rw (assert_token_balances, b) (poor_eth eth refl (ltb→lt _ _ b))
          | inr b ↦ elim (Bool-cases (ltb tko min_taiko_balance)) [
            | inl t ↦ rw (assert_token_balances, b, t) (poor_taiko tko refl (ltb→lt _ _ t))
            | inr t ↦
                rw (assert_token_balances, b, t)
                  (approved-Outcome (some eth) (some tko) allowance status (eth, refl, ground arith)
                    (tko, refl, ground arith))
          ]
        ]

  module _ (cfg : RuntimeConfig) (r : StartReplies) where
    abbrev pub IsOutcome : Started Tx → Type 0
    IsOutcome =
        Outcome (Unanswered cfg r) r.eth_balance r.taiko_balance r.allowance r.approval_status

    with_l2_state-Outcome :
        (tip anchor : Header) (head_block origin : Option ℕ)
        → r.head_block ≡ head_block
        → r.head_l1_origin ≡ origin
        → IsOutcome (
            with_l2_state cfg batch_settings min_eth_balance min_taiko_balance r tip anchor
              head_block origin)
    unfolding with_l2_state checked_driver first_driver
    with_l2_state-Outcome tip anchor none origin e f = no_reply (inl (no_head_block e))
    with_l2_state-Outcome tip anchor (some head_block) none e f = no_reply (inl (no_origin f))
    with_l2_state-Outcome tip anchor (some head_block) (some origin) e f =
        balances-Outcome (Unanswered cfg r)
          (first_driver cfg batch_settings r tip anchor head_block origin) (refl, refl, refl)
          r.eth_balance r.taiko_balance r.allowance r.approval_status

    with_anchor-Outcome :
        (tip : Header) (anchor : Option Header)
        → r.tip ≡ some tip
        → r.header (tip.number - cfg.anchor_block_lag) ≡ anchor
        → IsOutcome (with_anchor cfg batch_settings min_eth_balance min_taiko_balance r tip anchor)
    unfolding with_anchor
    with_anchor-Outcome tip none e f = no_reply (inl (no_anchor tip e f))
    with_anchor-Outcome tip (some anchor) e f =
        with_l2_state-Outcome tip anchor r.head_block r.head_l1_origin refl refl

    with_tip-Outcome :
        (tip : Option Header)
        → r.tip ≡ tip
        → IsOutcome (with_tip cfg batch_settings min_eth_balance min_taiko_balance r tip)
    unfolding with_tip
    with_tip-Outcome none e = no_reply (inl (no_tip e))
    with_tip-Outcome (some tip) e =
        with_anchor-Outcome tip (r.header (tip.number - cfg.anchor_block_lag)) e refl

    -- The start returns a driver only with enough of both balances and an allowance that is high
    -- enough or was approved; the driver is inactive, has nothing submitted, and has an empty
    -- outstanding batch on its anchor. It fails with a query only where a query was not answered: for
    -- the tip, the header of the anchor, the head block, the origin, a balance or the allowance.
    -- Otherwise it fails only by a balance that is too low, or by an allowance that is too low and was
    -- not approved.
    pub new_driver-Outcome :
        IsOutcome (new_driver cfg batch_settings min_eth_balance min_taiko_balance r)
    unfolding new_driver
    new_driver-Outcome = with_tip-Outcome r.tip refl
