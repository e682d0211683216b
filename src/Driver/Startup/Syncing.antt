-- ===== src/Driver/Startup/Syncing.antt =====
-- What a driver that starts has checked, and that its first sync ends: crates/driver/src/driver.rs.
use taiko_mk.Prelude.{ℕ, ◌≡◌, ◌⊎◌, none, some, List, [], ◌∷◌}
use taiko_mk.Status.{DriverStatus}
use taiko_mk.Batch.{Header}
use taiko_mk.Syncer.{SyncOutcome}
use taiko_mk.Driver.{Driver, SyncRound, update_l1_info}
use taiko_mk.Driver.Startup.{SyncAttempt}

module _ {Tx : Type 0} where
  -- In some round the syncer succeeds, whatever the status.
  abbrev pub AnyAnswers : List (SyncRound Tx) → Type 0
  AnyAnswers [] = ⊥
  AnyAnswers (r ∷ rs) =
      ((status : DriverStatus) → (o : SyncOutcome Tx) × (r.outcome status ≡ some o)) ⊎ AnyAnswers rs

  -- Every query of the attempt is answered.
  pub record IsAnswered (a : SyncAttempt Tx) : Type 0 where
    pub tip : Header
    pub tip_known : a.l1_tip ≡ some tip
    pub header_known : (n : ℕ) → (h : Header) × (a.header n ≡ some h)
    pub origin : ℕ
    pub origin_known : a.origin ≡ some origin
    pub rounds_answered : AnyAnswers a.rounds

  -- The L1 does not answer with its tip, or the inbox not with the origin.
  abbrev pub IsUnanswered : SyncAttempt Tx → Type 0
  IsUnanswered a = (a.l1_tip ≡ none) ⊎ (a.origin ≡ none)

  -- The state that an answered attempt syncs from.
  abbrev pub informed : (a : SyncAttempt Tx) → IsAnswered a → Driver Tx → Driver Tx
  informed a h d = (update_l1_info a.header a.origin d h.tip a.replies).0
