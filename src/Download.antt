-- ===== src/Download.antt =====
-- The download of soft blocks: crates/driver/src/sync/soft_blocks.rs. `BlockDownloadTask::poll` is
-- given one round of its loop at a time; what the two groups of futures reply in a round is an
-- argument. The `HashMap` of anchors is an association list. `anchor_block_id`, which decodes the
-- anchor transaction of a block, is a parameter, and an error is opaque.
pub mod Conservation
pub mod Anchors
pub mod Delivery
pub mod Tests
use taiko_mk.Prelude.{
  ℕ, ◌≡◌, Bool, true, false, Option, none, some, List, [], ◌∷◌, ◌++◌, map, ◌==◌, if◌then◌else◌,
  length,
}
use taiko_mk.Batch.{Header}
use taiko_mk.Blocks.{Block, AnchoredBlock, GapResult, new_contiguous}

pub data AnchorState (Tx : Type 0) : Type 0 where
  pending : List (Block Tx) → AnchorState Tx
  available : Header → AnchorState Tx

abbrev pub AnchorCache : Type 0 → Type 0
AnchorCache Tx = List (ℕ × AnchorState Tx)

pub record BlockDownloadTask (Tx : Type 0) : Type 0 where
  pub anchor_futs : List ℕ
  pub anchor_cache : AnchorCache Tx
  pub out : List (AnchoredBlock Tx)
  pub count : ℕ

-- What `poll_next` gives: nothing yet (or no more), an error, or a value.
pub data Reply (E A : Type 0) : Type 0 where
  not_ready : Reply E A
  failed : E → Reply E A
  arrived : A → Reply E A

-- After a round: the loop goes on, `Poll::Pending`, or `Poll::Ready`.
pub data Round (E Tx : Type 0) : Type 0 where
  again : BlockDownloadTask Tx → Round E Tx
  waits : BlockDownloadTask Tx → Round E Tx
  ready_err : E → Round E Tx
  ready_ok : List (AnchoredBlock Tx) → Round E Tx

module _ {Tx : Type 0} where
  -- `AnchorCache::get_mut`.
  unfoldable pub get_mut : ℕ → AnchorCache Tx → Option (AnchorState Tx)
  get_mut n [] = none
  get_mut n ((k, s) ∷ c) = elim (n == k) [ true ↦ some s | false ↦ get_mut n c ]

  unfoldable pub insert : ℕ → AnchorState Tx → AnchorCache Tx → AnchorCache Tx
  insert n v [] = (n, v) ∷ []
  insert n v ((k, s) ∷ c) = elim (n == k) [ true ↦ (k, v) ∷ c | false ↦ (k, s) ∷ insert n v c ]

  unfoldable pub insert_pending : ℕ → Block Tx → AnchorCache Tx → AnchorCache Tx
  insert_pending n b c = elim (get_mut n c) [
    | none ↦ insert n (pending (b ∷ [])) c
    | some (pending blocks) ↦ insert n (pending (blocks ++ (b ∷ []))) c
    | some (available a) ↦ c
  ]

  -- The blocks that waited for the anchor, and the cache.
  unfoldable pub insert_anchor : Header → AnchorCache Tx → List (Block Tx) × AnchorCache Tx
  insert_anchor anchor c = elim (get_mut anchor.number c) [
    | none ↦ ([], c)
    | some (pending blocks) ↦ (blocks, insert anchor.number (available anchor) c)
    | some (available a) ↦ ([], c)
  ]

  abbrev pub anchored : Header → Block Tx → AnchoredBlock Tx
  anchored anchor b = record { block = b; anchor = anchor }

  unfoldable pub on_anchor : Header → BlockDownloadTask Tx → BlockDownloadTask Tx
  on_anchor anchor t =
      let r = insert_anchor anchor t.anchor_cache in
      record t { anchor_cache = r.1; out = t.out ++ map (anchored anchor) r.0 }

  unfoldable pub on_block : ℕ → Block Tx → BlockDownloadTask Tx → BlockDownloadTask Tx
  on_block anchor_id b t = elim (get_mut anchor_id t.anchor_cache) [
    | some (available anchor) ↦ record t { out = t.out ++ (anchored anchor b ∷ []) }
    | some (pending blocks) ↦ record t {
      anchor_cache = insert anchor_id (pending (blocks ++ (b ∷ []))) t.anchor_cache;
    }
    | none ↦ record t {
      anchor_futs = t.anchor_futs ++ (anchor_id ∷ []);
      anchor_cache = insert_pending anchor_id b t.anchor_cache;
    }
  ]

  unfoldable pub new : ℕ → BlockDownloadTask Tx
  new count = record { anchor_futs = []; anchor_cache = []; out = []; count = count }

module _ {E Tx : Type 0} (anchor_block_id : Block Tx → Option ℕ) where
  -- The end of a round.
  unfoldable pub finish_round : Bool → BlockDownloadTask Tx → Round E Tx
  finish_round progress t =
      if length t.out == t.count then ready_ok t.out else (if progress then again t else waits t)

  unfoldable pub poll_blocks : Reply E (Block Tx) → Bool → BlockDownloadTask Tx → Round E Tx
  poll_blocks not_ready progress t = finish_round progress t
  poll_blocks (failed e) progress t = ready_err e
  poll_blocks (arrived b) progress t = elim (anchor_block_id b) [
    | none ↦ ready_ok t.out
    | some anchor_id ↦ finish_round true (on_block anchor_id b t)
  ]

  unfoldable pub poll_round :
      Reply E Header → Reply E (Block Tx) → BlockDownloadTask Tx → Round E Tx
  poll_round not_ready blocks t = poll_blocks blocks false t
  poll_round (failed e) blocks t = ready_err e
  poll_round (arrived anchor) blocks t = poll_blocks blocks true (on_anchor anchor t)

  -- A task that is not ready goes on, or is polled again.
  unfoldable pub unless_ready : (BlockDownloadTask Tx → Round E Tx) → Round E Tx → Round E Tx
  unless_ready rest (again t) = rest t
  unless_ready rest (waits t) = rest t
  unless_ready rest (ready_err e) = ready_err e
  unless_ready rest (ready_ok bs) = ready_ok bs

  -- The rounds that happen, until the task is ready.
  unfoldable pub poll_rounds :
      List (Reply E Header × Reply E (Block Tx)) → BlockDownloadTask Tx → Round E Tx
  poll_rounds [] t = waits t
  poll_rounds ((anchors, blocks) ∷ rounds) t =
      unless_ready (poll_rounds rounds) (poll_round anchors blocks t)
