-- ===== src/Driver/Reorgs.antt =====
-- Blocks that are safe or reorged: `update_l1_info` and `on_l2_block` in crates/driver/src/driver.rs.
use taiko_mk.Prelude.{
  ℕ, ◌<◌, ◌≡◌, refl, sym, subst, ◌∙◌, inl, inr, Bool, true, false, Bool-cases, Option, none, some,
  [], ◌∷◌, ◌++◌, arith, ltb, ltb→lt, ◌==◌, retain, All, All-imp, All-of_retain, saturating_sub,
}
use taiko_mk.Status.{DriverStatus}
use taiko_mk.Batch.{
  Header, PreconfirmedBlock, Batch, retain_blocks_before, retain_blocks_after, change_anchor,
}
use taiko_mk.Batch
use taiko_mk.Processor.{clear_queue}
use taiko_mk.Lookahead
use taiko_mk.Driver.{
  Driver, Replies, update_status, sync_lookahead, update_outstanding_batch_anchor_if_needed,
  sync_l1, update_anchor, after_origin, finish_update, update_l1_info, on_reorg, adopt_anchor,
  on_l2_block,
}

module _ {Tx : Type 0} where
  found-keeps :
      (o : Option Header) (d : Driver Tx)
      → let after : Driver Tx = elim o [ none ↦ d | some found ↦ record d { anchor = found } ] in
        (after.outstanding_batch ≡ d.outstanding_batch)
        × (after.sent ≡ d.sent)
        × (after.head_block ≡ d.head_block)
        × (after.head_l1_origin ≡ d.head_l1_origin)
  found-keeps none d = (refl, refl, refl, refl)
  found-keeps (some found) d = (refl, refl, refl, refl)

  adopt_anchor-keeps :
      (header : ℕ → Option Header) (anchor_block_id : Option ℕ) (d : Driver Tx)
      → let after = adopt_anchor header anchor_block_id d in
        (after.outstanding_batch ≡ d.outstanding_batch)
        × (after.sent ≡ d.sent)
        × (after.head_block ≡ d.head_block)
        × (after.head_l1_origin ≡ d.head_l1_origin)
  unfolding adopt_anchor
  adopt_anchor-keeps header none d = (refl, refl, refl, refl)
  adopt_anchor-keeps header (some anchor) d = elim (Bool-cases (ltb d.anchor.number anchor)) [
    | inl e ↦ rw e (found-keeps (header anchor) d)
    | inr e ↦ rw e (refl, refl, refl, refl)
  ]

  -- When the chain's head goes back, no block of the outstanding batch has the new head's number or
  -- a later one, the submission queue is told to drop its batches, and nothing else is sent.
  pub on_l2_block_lem :
      (header : ℕ → Option Header) (origin anchor_block_id : Option ℕ) (d : Driver Tx)
      (l2_header : Header)
      → l2_header.number < d.head_block
      → let after = on_l2_block header origin anchor_block_id d l2_header in
        All
          (λ (x : PreconfirmedBlock Tx). x.number < l2_header.number)
          after.outstanding_batch.blocks
        × (after.sent ≡ d.sent ++ clear_queue ∷ [])
        × (after.head_block ≡ l2_header.number)
  unfolding on_l2_block on_reorg retain_blocks_before
  on_l2_block_lem header origin anchor_block_id d l2_header h =
      let d1 : Driver Tx = record (on_reorg origin d l2_header.number) {
        head_block = l2_header.number;
      } in
      let back : ltb l2_header.number d.head_block ≡ true = ground arith in
      let kept : All (λ (x : PreconfirmedBlock Tx). x.number < l2_header.number)
          d1.outstanding_batch.blocks =
        All-imp {P = λ (x : PreconfirmedBlock Tx). ltb x.number l2_header.number ≡ true}
          (λ (x : PreconfirmedBlock Tx) e. ltb→lt x.number l2_header.number e)
          (retain (λ (x : PreconfirmedBlock Tx). ltb x.number l2_header.number)
            d.outstanding_batch.blocks)
          (All-of_retain (λ (x : PreconfirmedBlock Tx). ltb x.number l2_header.number)
            d.outstanding_batch.blocks) in
      let (outstanding, same_sent, same_head, origins) =
        adopt_anchor-keeps header anchor_block_id d1 in
      elim (Bool-cases (l2_header.beneficiary == d.cfg.operator)) [
        | inl e ↦ rw (back, e) (kept, refl, refl)
        | inr e ↦
            rw (back, e)
              (
                subst
                    (λ (b : Batch Tx).
                      All (λ (x : PreconfirmedBlock Tx). x.number < l2_header.number) b.blocks)
                    (sym outstanding) kept,
                same_sent,
                same_head,
              )
      ]

  -- What the last steps of an update leave as it was.
  abbrev Leaves : Driver Tx → Driver Tx → Type 0
  Leaves d after =
      (after.outstanding_batch.blocks ≡ d.outstanding_batch.blocks)
      × (after.head_l1_origin ≡ d.head_l1_origin)
      × (after.tip ≡ d.tip)

  update_status-Leaves : (d : Driver Tx) (s : DriverStatus) → Leaves d (update_status d s)
  unfolding update_status
  update_status-Leaves d s = elim (Bool-cases d.is_preconf_router_set) [
    | inl e ↦ rw e (refl, refl, refl)
    | inr e ↦ rw e (refl, refl, refl)
  ]

  sync_lookahead-Leaves :
      (d : Driver Tx) (slot : ℕ) (r : Replies) → Leaves d (sync_lookahead d slot r)
  unfolding sync_lookahead
  sync_lookahead-Leaves d slot r =
      let (lookahead, status) =
        Lookahead.sync d.lookahead slot r.current_operator r.next_operator r.now r.start in
      update_status-Leaves (record d { lookahead = lookahead }) status

  change_unless-Leaves :
      (o : Option ℕ) (d : Driver Tx)
      → Leaves d (elim o [
        | none ↦ record d { outstanding_batch = change_anchor d.outstanding_batch d.anchor }
        | some block_number ↦ d
      ])
  unfolding change_anchor
  change_unless-Leaves none d = (refl, refl, refl)
  change_unless-Leaves (some block_number) d = (refl, refl, refl)

  update_outstanding_batch_anchor_if_needed-Leaves :
      (d : Driver Tx) → Leaves d (update_outstanding_batch_anchor_if_needed d)
  unfolding update_outstanding_batch_anchor_if_needed
  update_outstanding_batch_anchor_if_needed-Leaves d =
      elim (Bool-cases (Batch.is_empty d.outstanding_batch)) [
        | inl e ↦ rw e (change_unless-Leaves d.finalizing d)
        | inr e ↦ rw e (refl, refl, refl)
      ]

  after_origin_lem :
      (d : Driver Tx) (slot : ℕ) (r : Replies)
      → let after = after_origin slot r d in
        All
          (λ (x : PreconfirmedBlock Tx). d.head_l1_origin < x.number)
          after.outstanding_batch.blocks
        × (after.head_l1_origin ≡ d.head_l1_origin)
        × (after.tip ≡ d.tip)
  unfolding after_origin retain_blocks_after
  after_origin_lem d slot r =
      let later = λ (x : PreconfirmedBlock Tx). ltb d.head_l1_origin x.number in
      let d1 : Driver Tx = record d {
        outstanding_batch = retain_blocks_after d.outstanding_batch d.head_l1_origin;
      } in
      let d2 = update_outstanding_batch_anchor_if_needed d1 in
      let (blocks, origin, tip) = update_outstanding_batch_anchor_if_needed-Leaves d1 in
      let (blocks', origin', tip') = sync_lookahead-Leaves d2 slot r in
      (
        subst (All (λ (x : PreconfirmedBlock Tx). d.head_l1_origin < x.number))
            (sym (blocks' ∙ blocks))
            (All-imp {P = λ (x : PreconfirmedBlock Tx). ltb d.head_l1_origin x.number ≡ true}
              (λ (x : PreconfirmedBlock Tx) e. ltb→lt d.head_l1_origin x.number e)
              (retain later d.outstanding_batch.blocks)
              (All-of_retain later d.outstanding_batch.blocks)),
        origin' ∙ origin,
        tip' ∙ tip,
      )

  update_anchor-tip : (d : Driver Tx) (o : Option Header) → (update_anchor d o).0.tip ≡ d.tip
  unfolding update_anchor
  update_anchor-tip d none = refl
  update_anchor-tip d (some found) = refl

  sync_l1-tip :
      (header : ℕ → Option Header) (d : Driver Tx) (l1_header : Header)
      → (sync_l1 header d l1_header).0.tip ≡ l1_header
  unfolding sync_l1
  sync_l1-tip header d l1_header =
      let new_safe_anchor = saturating_sub l1_header.number d.cfg.anchor_block_lag in
      elim (Bool-cases (ltb d.anchor.number new_safe_anchor)) [
        | inl e ↦ rw e (update_anchor-tip (record d { tip = l1_header }) (header new_safe_anchor))
        | inr e ↦ rw e refl
      ]

  finish_update_lem :
      (slot due origin : ℕ) (r : Replies) (d : Driver Tx) (ok : Bool)
      → (finish_update due r d ok (some origin)).1 ≡ some slot
      → let after = (finish_update due r d ok (some origin)).0 in
        All (λ (x : PreconfirmedBlock Tx). origin < x.number) after.outstanding_batch.blocks
        × (after.head_l1_origin ≡ origin)
        × (after.tip ≡ d.tip)
  unfolding finish_update
  finish_update_lem slot due origin r d false h = ground arith
  finish_update_lem slot due origin r d true h =
      after_origin_lem (record d { head_l1_origin = origin }) due r

  -- After an L1 block for which no query failed, the outstanding batch holds only blocks that come
  -- after the head L1 origin the inbox reported, and the block is the tip.
  pub update_l1_info_lem :
      (header : ℕ → Option Header) (origin : ℕ) (d : Driver Tx) (l1_header : Header) (r : Replies)
      (slot : ℕ)
      → (update_l1_info header (some origin) d l1_header r).1 ≡ some slot
      → let after = (update_l1_info header (some origin) d l1_header r).0 in
        All (λ (x : PreconfirmedBlock Tx). origin < x.number) after.outstanding_batch.blocks
        × (after.head_l1_origin ≡ origin)
        × (after.tip ≡ l1_header)
  unfolding update_l1_info
  update_l1_info_lem header origin d l1_header r slot h =
      let (d1, ok) = sync_l1 header d l1_header in
      let (blocks, same, tip) = finish_update_lem slot _ origin r d1 ok h in
      (blocks, same, tip ∙ sync_l1-tip header d l1_header)
