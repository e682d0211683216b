-- ===== src/Driver/Proposals.antt =====
-- What the driver proposes after a sync: `sync_and_propose` in crates/driver/src/driver.rs.
use mathlib.Core.List.{append_assoc, append-nil}
use taiko_mk.Prelude.{
  ◌⊎◌, none, some, ℕ, ◌≡◌, ◌≢◌, refl, sym, ap, subst, ◌∙◌, Bool, true, false, not, ◌&&◌, inl, inr,
  Bool-cases, Option, Option-cases, List, [], ◌∷◌, ◌++◌, map, retain, last?, is_nil, if◌then◌else◌,
}
use taiko_mk.Config.{Address, BatchSettings}
use taiko_mk.Status.{DriverStatus, can_propose}
use taiko_mk.Lookahead.{inclusion_window_end}
use taiko_mk.Batch.{Batch, pop_with_coinbase}
use taiko_mk.Batch
use taiko_mk.Batch.Splitting.{Pops, pop_with_coinbase-Pops}
use taiko_mk.Processor.{
  BatchSubmissionCmd, submit, BatchSubmissionRequest, trigger_batch_submission,
}
use taiko_mk.Syncer.{SyncOutcome}
use taiko_mk.Driver.{
  Driver, Replies, SyncRound, update_status, sync_lookahead, propose, propose_all, wait_for_builder,
  sync_round, sync_loop, popped_or, repost, propose_synced, after_loop, sync_and_propose,
}

module _ {Tx : Type 0} where
  -- The requests for batches, where the empty ones are left out.
  abbrev pub requests : ℕ → List (Batch Tx) → List (BatchSubmissionCmd Tx)
  requests deadline bs =
      map (λ (b : Batch Tx). submit (record { batch = b; deadline = deadline }))
        (retain (λ (b : Batch Tx). not (is_nil b.blocks)) bs)

  triggered :
      (b : Batch Tx) (deadline : ℕ) (bs : List (Batch Tx))
      → trigger_batch_submission (record { batch = b; deadline = deadline }) ++ requests deadline bs
        ≡ requests deadline (b ∷ bs)
  unfolding trigger_batch_submission Batch.is_empty
  triggered b deadline bs = elim (Bool-cases (is_nil b.blocks)) [ inl e ↦ simp e | inr e ↦ simp e ]

  propose_all_lem :
      (d : Driver Tx) (bs : List (Batch Tx))
      → propose_all d bs
        ≡ record d { sent = d.sent ++ requests (inclusion_window_end d.lookahead) bs }
  unfolding propose_all propose
  propose_all_lem d [] =
      ap (λ (cs : List (BatchSubmissionCmd Tx)). record d { sent = cs }) (sym (append-nil d.sent))
  propose_all_lem d (b ∷ bs) =
      let deadline : ℕ = inclusion_window_end d.lookahead in
      let req : BatchSubmissionRequest Tx = record { batch = b; deadline = deadline } in
      propose_all_lem (propose d b deadline) bs
      ∙ ap (λ (cs : List (BatchSubmissionCmd Tx)). record d { sent = cs })
          (append_assoc d.sent (trigger_batch_submission req) (requests deadline bs)
            ∙ ap (d.sent ++◌) (triggered b deadline bs))

  -- What the loop of a sync leaves as it is.
  abbrev pub IsKept : Driver Tx → Driver Tx → Type 0
  IsKept d s =
      (s.cfg ≡ d.cfg)
      × (s.anchor ≡ d.anchor)
      × (s.sent ≡ d.sent)
      × (s.reposted ≡ d.reposted)
      × (s.outstanding_batch ≡ d.outstanding_batch)

  IsKept-trans : (d s t : Driver Tx) → IsKept d s → IsKept s t → IsKept d t
  IsKept-trans d s t (a, b, c, e, f) (a', b', c', e', f') = (a' ∙ a, b' ∙ b, c' ∙ c, e' ∙ e, f' ∙ f)

  pub update_status-IsKept : (d : Driver Tx) (s : DriverStatus) → IsKept d (update_status d s)
  unfolding update_status
  update_status-IsKept d s = elim (Bool-cases d.is_preconf_router_set) [
    | inl e ↦ rw e (refl, refl, refl, refl, refl)
    | inr e ↦ rw e (refl, refl, refl, refl, refl)
  ]

  sync_lookahead-IsKept :
      (d : Driver Tx) (slot : ℕ) (r : Replies) → IsKept d (sync_lookahead d slot r)
  unfolding sync_lookahead
  sync_lookahead-IsKept d slot r = update_status-IsKept _ _

  pub wait_for_builder-IsKept :
      (d : Driver Tx) (idle : Option ℕ)
      → IsKept d (wait_for_builder d idle) × ((wait_for_builder d idle).status ≡ d.status)
  unfolding wait_for_builder
  wait_for_builder-IsKept d idle = elim (Option-cases d.finalizing) [
    | inl e ↦ rw e ((refl, refl, refl, refl, refl), refl)
    | inr (n, e) ↦ rw e ((refl, refl, refl, refl, refl), refl)
  ]

  sync_round-IsKept : (d : Driver Tx) (round : SyncRound Tx) → IsKept d (sync_round d round).0
  unfolding sync_round
  sync_round-IsKept d round =
      IsKept-trans d (sync_lookahead d d.head_slot round.replies) (sync_round d round).0
        (sync_lookahead-IsKept d d.head_slot round.replies)
        (wait_for_builder-IsKept (sync_lookahead d d.head_slot round.replies) round.idle).0

  -- One of the rounds has this outcome for the status, and those before it had an error for some status.
  abbrev pub Answered : List (SyncRound Tx) → DriverStatus → SyncOutcome Tx → Type 0
  Answered [] status outcome = ⊥
  Answered (r ∷ rs) status outcome =
      (r.outcome status ≡ some outcome)
      ⊎ (((earlier : DriverStatus) × (r.outcome earlier ≡ none)) × Answered rs status outcome)

  -- Each round had an error for some status.
  abbrev pub AllFail : List (SyncRound Tx) → Type 0
  AllFail [] = Unit
  AllFail (r ∷ rs) = ((status : DriverStatus) × (r.outcome status ≡ none)) × AllFail rs

  pub data Loops (d : Driver Tx) (rounds : List (SyncRound Tx))
      : Driver Tx × Option (SyncOutcome Tx) → Type 0 where
    found :
        (s : Driver Tx) (outcome : SyncOutcome Tx)
        → IsKept d s
        → Answered rounds s.status outcome
        → Loops d rounds (s, some outcome)
    runs : (s : Driver Tx) → IsKept d s → AllFail rounds → Loops d rounds (s, none)

  later :
      (d s : Driver Tx) (r : SyncRound Tx) (rounds : List (SyncRound Tx))
      (end : Driver Tx × Option (SyncOutcome Tx))
      → IsKept d s
      → r.outcome s.status ≡ none
      → Loops s rounds end
      → Loops d (r ∷ rounds) end
  later d s r rounds _ k e (found t outcome l a) =
      found t outcome (IsKept-trans d s t k l) (inr ((s.status, e), a))
  later d s r rounds _ k e (runs t l f) = runs t (IsKept-trans d s t k l) ((s.status, e), f)

  sync_loop-Loops :
      (d : Driver Tx) (rounds : List (SyncRound Tx)) → Loops d rounds (sync_loop d rounds)
  unfolding sync_loop sync_round
  sync_loop-Loops d [] = runs d (refl, refl, refl, refl, refl) tt
  sync_loop-Loops d (r ∷ rounds) =
      let s : Driver Tx = (sync_round d r).0 in
      let k : IsKept d s = sync_round-IsKept d r in
      elim (Option-cases (r.outcome s.status)) [
        | inl e ↦ rw (sync_loop, e) (later d s r rounds _ k e (sync_loop-Loops s rounds))
        | inr (outcome, e) ↦ rw (sync_loop, e) (found s outcome k (inl e))
      ]

  -- The batches, split into those to propose and the new outstanding batch: the last one, if it is the
  -- operator's, or else a new batch.
  abbrev pub Parts : Address → Batch Tx → List (Batch Tx) → List (Batch Tx) → Batch Tx → Type 0
  Parts operator fresh batches proposed outstanding =
      ((batches ≡ proposed ++ outstanding ∷ []) × (outstanding.coinbase ≡ operator))
      ⊎ ((batches ≡ proposed)
          × (outstanding ≡ fresh)
          × ((b : Batch Tx) → last? batches ≡ some b → b.coinbase ≢ operator))

  popped-Parts :
      (operator : Address) (fresh : Batch Tx) (batches rest : List (Batch Tx))
      (popped : Option (Batch Tx))
      → Pops operator batches (rest, popped)
      → Parts operator fresh batches rest (popped_or popped fresh)
  popped-Parts operator fresh batches rest popped (inl (e, same, other)) =
      rw e (inr (sym same, refl, other))
  popped-Parts operator fresh batches rest popped (inr (b, e, parts, own)) = rw e (inl (parts, own))

  -- What a sync with an outcome has done: the batches are split, those to propose are sent with the end
  -- of the inclusion window as their deadline, and a reorg is posted with all batches; neither is done
  -- unless the status lets the driver propose.
  pub record Handles (d : Driver Tx) (settings : BatchSettings) (outcome : SyncOutcome Tx)
      (after : Driver Tx) : Type 0 where
    pub proposed : List (Batch Tx)
    pub parts :
        Parts d.cfg.operator
          (Batch.new d.anchor settings)
          outcome.batches
          proposed
          after.outstanding_batch
    pub sends :
        after.sent
        ≡ d.sent
          ++ (if can_propose after.status
              then requests (inclusion_window_end after.lookahead) proposed
              else [])
    pub reposts :
        after.reposted
        ≡ d.reposted
          ++ (if can_propose after.status && not (is_nil outcome.reorg_reasons)
              then outcome ∷ []
              else [])

  -- How a sync ends. While no round has an outcome the loop runs, and nothing is proposed.
  pub data Synced (d : Driver Tx) (settings : BatchSettings) (rounds : List (SyncRound Tx))
      : Driver Tx × Bool → Type 0 where
    handled :
        (after : Driver Tx) (outcome : SyncOutcome Tx)
        → Answered rounds after.status outcome
        → Handles d settings outcome after
        → Synced d settings rounds (after, true)
    unanswered : (s : Driver Tx) → IsKept d s → AllFail rounds → Synced d settings rounds (s, false)

  repost_lem :
      (d : Driver Tx) (outcome : SyncOutcome Tx)
      → repost d outcome ≡ record d {
        reposted = d.reposted ++ (if not (is_nil outcome.reorg_reasons) then outcome ∷ [] else []);
      }
  unfolding repost
  repost_lem d outcome = elim (Bool-cases (is_nil outcome.reorg_reasons)) [
    | inl e ↦ rw e (
        ap (λ (os : List (SyncOutcome Tx)). record d { reposted = os })
          (sym (append-nil d.reposted)))
    | inr e ↦ rw e refl
  ]

  propose_synced-Handles :
      (s : Driver Tx) (settings : BatchSettings) (outcome : SyncOutcome Tx)
      → (Handles s settings outcome (propose_synced s settings outcome))
        × ((propose_synced s settings outcome).status ≡ s.status)
  unfolding propose_synced
  propose_synced-Handles s settings outcome =
      let (rest, popped) = pop_with_coinbase outcome.batches s.cfg.operator in
      let parts =
        popped-Parts s.cfg.operator (Batch.new s.anchor settings) outcome.batches rest popped
          (pop_with_coinbase-Pops outcome.batches s.cfg.operator) in
      elim (Bool-cases (can_propose s.status)) [
        | inl e ↦
            rw (e, propose_all_lem (repost s outcome) rest, repost_lem s outcome)
              (record { proposed = rest; parts = parts; sends = simp e; reposts = simp e }, refl)
        | inr e ↦ rw e (
          record {
            proposed = rest;
            parts = parts;
            sends = rw e (sym (append-nil s.sent));
            reposts = rw e (sym (append-nil s.reposted));
          },
          refl,
        )
      ]

  handled_from :
      (d s : Driver Tx) (settings : BatchSettings) (outcome : SyncOutcome Tx) (after : Driver Tx)
      → IsKept d s
      → Handles s settings outcome after
      → Handles d settings outcome after
  handled_from d s settings outcome after (cfg, anchor, sent, reposted, batch) h = record {
    proposed = h.proposed;
    parts = rw (← cfg, ← anchor) h.parts;
    sends = rw (← sent) h.sends;
    reposts = rw (← reposted) h.reposts;
  }

  propose_synced-Synced :
      (d s : Driver Tx) (settings : BatchSettings) (rounds : List (SyncRound Tx))
      (outcome : SyncOutcome Tx)
      → IsKept d s
      → Answered rounds s.status outcome
      → Synced d settings rounds (propose_synced s settings outcome, true)
  propose_synced-Synced d s settings rounds outcome k a =
      let (h, same) = propose_synced-Handles s settings outcome in
      let answer : Answered rounds (propose_synced s settings outcome).status outcome =
        subst (λ status. Answered rounds status outcome) (sym same) a in
      handled (propose_synced s settings outcome) outcome answer
        (handled_from d s settings outcome _ k h)

  after_loop-Synced :
      (d : Driver Tx) (settings : BatchSettings) (rounds : List (SyncRound Tx))
      (end : Driver Tx × Option (SyncOutcome Tx))
      → Loops d rounds end
      → Synced d settings rounds (after_loop settings end)
  unfolding after_loop
  after_loop-Synced d settings rounds _ (found s outcome k a) =
      propose_synced-Synced d s settings rounds outcome k a
  after_loop-Synced d settings rounds _ (runs s k f) = unanswered s k f

  -- While no round of the loop has an outcome, the sync runs and nothing is proposed. Otherwise it ends
  -- with the outcome of the first round that has one. Its last batch becomes the outstanding batch if
  -- it is the operator's; if it is not, a new batch on the driver's anchor does. Where the status lets
  -- the driver propose, all other batches with blocks are sent in order, with the end of the inclusion
  -- window as their deadline, and blocks are posted again exactly if there is a reason for a reorg.
  -- Elsewhere nothing is sent or posted.
  pub sync_and_propose_lem :
      (d : Driver Tx) (settings : BatchSettings) (rounds : List (SyncRound Tx))
      → Synced d settings rounds (sync_and_propose d settings rounds)
  unfolding sync_and_propose
  sync_and_propose_lem d settings rounds =
      after_loop-Synced d settings rounds (sync_loop d rounds) (sync_loop-Loops d rounds)
