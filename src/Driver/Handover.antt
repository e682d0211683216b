-- ===== src/Driver/Handover.antt =====
-- What an L1 slot tick submits: `on_l1_slot_tick` in crates/driver/src/driver.rs.
use taiko_mk.Prelude.{
  ℕ, ◌%◌, ◌≡◌, ◌⊎◌, Bool, true, false, ◌&&◌, ◌==◌, List, [], ◌++◌, leb, if◌then◌else◌,
}
use taiko_mk.Slots.{epoch_slots}
use taiko_mk.Config.{timestamp_to_l1_slot}
use taiko_mk.Status.{is_inclusion_only, can_propose}
use taiko_mk.Lookahead.{is_new_inclusion_window}
use taiko_mk.Batch.{PreconfirmedBlock, Batch, take_and_reset}
use taiko_mk.Batch
use taiko_mk.Batch.Adding.{all_blocks}
use taiko_mk.Syncer.{SyncOutcome}
use taiko_mk.Driver.{Driver, SyncRound, batch_slots_left}
use taiko_mk.Driver.Proposals.{Answered, AllFail}
use taiko_mk.Driver.Sending.{Sends}

module _ {Tx : Type 0} where
  -- The outstanding batch is at the age limit.
  abbrev pub is_aged : Driver Tx → ℕ → Bool
  is_aged d timestamp = leb (batch_slots_left d timestamp) d.cfg.anchor_max_height_buffer

  -- The blocks that are submitted for their age, before anything is synced.
  abbrev pub aged_blocks : Driver Tx → ℕ → List (PreconfirmedBlock Tx)
  aged_blocks d timestamp = if is_aged d timestamp then d.outstanding_batch.blocks else []

  -- The end of a tick: with a status that includes but does not sequence, everything is submitted.
  pub data Finished (d : Driver Tx) : Driver Tx → Type 0 where
    handed_over :
        (s : Driver Tx)
        → s.status ≡ d.status
        → is_inclusion_only d.status ≡ true
        → Sends d s d.outstanding_batch.blocks
        → s.outstanding_batch.blocks ≡ []
        → Finished d s
    unchanged :
        (s : Driver Tx)
        → s.status ≡ d.status
        → is_inclusion_only d.status ≡ false
        → s.sent ≡ d.sent
        → s.outstanding_batch.blocks ≡ d.outstanding_batch.blocks
        → Finished d s

  -- A tick at the start of an inclusion window syncs.
  abbrev pub at_window : Driver Tx → ℕ → Bool
  at_window d timestamp =
      let slot = timestamp_to_l1_slot d.cfg timestamp in
      slot % epoch_slots == 0 && is_new_inclusion_window d.lookahead slot

  abbrev pub NoneWaits : Driver Tx → Type 0
  NoneWaits s = (is_inclusion_only s.status ≡ false) ⊎ (s.outstanding_batch.blocks ≡ [])

  -- What becomes of the blocks in a tick.
  pub data Ticked (d : Driver Tx) (timestamp : ℕ) (rounds : List (SyncRound Tx))
      : Driver Tx × Bool → Type 0 where
    kept :
        (s : Driver Tx) (submitted : List (PreconfirmedBlock Tx))
        → at_window d timestamp ≡ false
        → Sends d s submitted
        → submitted ++ s.outstanding_batch.blocks ≡ d.outstanding_batch.blocks
        → NoneWaits s
        → Ticked d timestamp rounds (s, true)
    synced :
        (s : Driver Tx) (outcome : SyncOutcome Tx) (submitted : List (PreconfirmedBlock Tx))
        → at_window d timestamp ≡ true
        → Answered rounds s.status outcome
        → Sends d s submitted
        → submitted ++ s.outstanding_batch.blocks
          ≡ aged_blocks d timestamp ++ all_blocks outcome.batches
        → NoneWaits s
        → Ticked d timestamp rounds (s, true)
    proposes_nothing :
        (s : Driver Tx)
        → at_window d timestamp ≡ true
        → can_propose s.status ≡ false
        → Sends d s (aged_blocks d timestamp)
        → Ticked d timestamp rounds (s, true)
    syncing :
        (s : Driver Tx)
        → at_window d timestamp ≡ true
        → AllFail rounds
        → Sends d s (aged_blocks d timestamp)
        → Ticked d timestamp rounds (s, false)
