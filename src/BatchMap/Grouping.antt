-- ===== src/BatchMap/Grouping.antt =====
-- `BatchMap::new` of crates/primitives/src/taiko/batch_map.rs on blocks with increasing numbers: no
-- `expect` panics, and no block is lost.
use taiko_mk.Prelude.{
  ℕ, ◌+◌, ◌<◌, ◌≡◌, refl, subst, arith, Option, none, some, List, [], ◌∷◌, ◌++◌, ltb, ◌==◌, All,
  All-append, length, length-append, Bool-cases, inl, inr,
}
use taiko_mk.Config.{BatchSettings}
use taiko_mk.Batch.{
  DoesntFitBlockReason, Header, PreconfirmedBlock, Batch, doesnt_fit, place_block,
  add_block_and_reset_if_full, retain_blocks_before, take_and_reset, from_blocks_unchecked,
}
use taiko_mk.Batch.Adding.{handed_back}
use taiko_mk.Blocks.{AnchoredBlock, into_preconfirmed, anchored_id, block_number, from_block}
use taiko_mk.BatchMap
use taiko_mk.BatchMap.Entries.{
  nonempty, shift, IsBefore, batch_blocks, retain_before, later, Good, Grows, IsBefore-next,
  cons-Grows, GoodEntries, entry_blocks, GrowsMap, IsBefore-next_all, entries_next,
  replaced-GrowsMap, with_entry-GrowsMap, ContiguousFrom, bind-GrowsMap, Grouped, finish,
}

module _ {Tx : Type 0} (encoded_length : Tx → ℕ) (estimate : ℕ → ℕ) where
  place_block-IsBefore :
      (reason : Option DoesntFitBlockReason) (b : Batch Tx) (x : PreconfirmedBlock Tx)
      (anchor : Header)
      → IsBefore x.number b
      → let r = place_block encoded_length estimate reason b x anchor in
        All (IsBefore (x.number + 1)) (handed_back r.1 ++ (r.0 ∷ []))
        × (batch_blocks (handed_back r.1 ++ (r.0 ∷ [])) ≡ length b.blocks + 1)
  unfolding place_block take_and_reset
  place_block-IsBefore none b x anchor h = (
    (
      (
        nonempty b.blocks x,
        All-append (λ y. y.number < x.number + 1) b.blocks (x ∷ []) (later x.number b.blocks h.1)
            (omega arith, tt),
      ),
      tt,
    ),
    omega (arith, length-append b.blocks (x ∷ [])),
  )
  place_block-IsBefore (some reason) b x anchor h =
      (((h.0, later x.number b.blocks h.1), ((refl, (omega arith, tt)), tt)), omega arith)

  add-Grows :
      (b : Batch Tx) (x : PreconfirmedBlock Tx) (anchor : Header)
      → IsBefore x.number b
      → Grows
          (x.number + 1)
          (length b.blocks + 1)
          (BatchMap.grow encoded_length estimate (b ∷ []) x anchor)
  unfolding BatchMap.grow Grows add_block_and_reset_if_full retain_blocks_before
  add-Grows b x anchor h =
      rw (retain_before x.number b.blocks h.1) ((nonempty _ _, placed.0), placed.1)
    where
      placed :
          All (IsBefore (x.number + 1)) (
            handed_back
              (place_block encoded_length estimate
                (doesnt_fit encoded_length estimate b x.tx_list)
                b
                x
                anchor).1
            ++ ((place_block encoded_length estimate
                  (doesnt_fit encoded_length estimate b x.tx_list)
                  b
                  x
                  anchor).0
                ∷ []))
          × (batch_blocks (
                handed_back
                  (place_block encoded_length estimate
                    (doesnt_fit encoded_length estimate b x.tx_list)
                    b
                    x
                    anchor).1
                ++ ((place_block encoded_length estimate
                      (doesnt_fit encoded_length estimate b x.tx_list)
                      b
                      x
                      anchor).0
                    ∷ []))
              ≡ length b.blocks + 1)
      placed = place_block-IsBefore (doesnt_fit encoded_length estimate b x.tx_list) b x anchor h

  grow-Grows :
      (bs : List (Batch Tx)) (x : PreconfirmedBlock Tx) (anchor : Header)
      → Good x.number bs
      → Grows
          (x.number + 1)
          (batch_blocks bs + 1)
          (BatchMap.grow encoded_length estimate bs x anchor)
  unfolding BatchMap.grow
  grow-Grows [] x anchor h = absurd (ground arith)
  grow-Grows (b ∷ []) x anchor h =
      subst
        (λ (t : ℕ).
          Grows (x.number + 1) t (BatchMap.grow encoded_length estimate (b ∷ []) x anchor))
        (omega arith) (add-Grows b x anchor h.1.0)
  grow-Grows (b ∷ c ∷ bs) x anchor h =
      subst
        (λ (t : ℕ).
          Grows (x.number + 1) t (BatchMap.grow encoded_length estimate (b ∷ c ∷ bs) x anchor))
        (omega arith)
        (cons-Grows (x.number + 1) (batch_blocks (c ∷ bs) + 1) b
          (BatchMap.grow encoded_length estimate (c ∷ bs) x anchor) (IsBefore-next x.number b h.1.0)
          (grow-Grows (c ∷ bs) x anchor (refl, h.1.1)))

  update_entry-GrowsMap :
      (settings : BatchSettings) (key : ℕ) (x : PreconfirmedBlock Tx) (anchor : Header)
      (m : BatchMap.Entries Tx)
      → GoodEntries x.number m
      → GrowsMap (x.number + 1) (entry_blocks m + 1) (
          BatchMap.update_entry key
            (BatchMap.grow_entry encoded_length estimate settings x anchor)
            m)
  unfolding BatchMap.update_entry BatchMap.grow_entry from_blocks_unchecked
  update_entry-GrowsMap settings key x anchor [] h =
      unfold GrowsMap in (((refl, ((refl, (omega arith, tt)), tt)), tt), refl)
  update_entry-GrowsMap settings key x anchor ((k, old) ∷ m) h = elim (Bool-cases (key == k)) [
    | inl e ↦ rw e (
        subst
          (λ (t : ℕ).
            GrowsMap (x.number + 1) t (elim (BatchMap.grow encoded_length estimate old x anchor) [
              | none ↦ none
              | some bs ↦ some ((k, bs) ∷ m)
            ]))
          (omega arith)
          (replaced-GrowsMap (x.number + 1) (batch_blocks old + 1) k m
            (BatchMap.grow encoded_length estimate old x anchor) (entries_next x.number m h.1)
            (grow-Grows old x anchor h.0)))
    | inr e ↦ elim (Bool-cases (ltb key k)) [
      | inl l ↦
          rw (e, l)
            (unfold GrowsMap in
              (
                ((refl, ((refl, (omega arith, tt)), tt)), entries_next x.number ((k, old) ∷ m) h),
                omega arith,
              ))
      | inr l ↦
          rw (e, l)
            (subst
              (λ (t : ℕ). GrowsMap (x.number + 1) t (
                BatchMap.with_entry k old (
                  BatchMap.update_entry key
                    (BatchMap.grow_entry encoded_length estimate settings x anchor) m)))
              (omega arith)
              (with_entry-GrowsMap (x.number + 1) (entry_blocks m + 1) k old _
                (h.0.0, IsBefore-next_all x.number old h.0.1)
                (update_entry-GrowsMap settings key x anchor m h.1)))
    ]
  ]

  insert_blocks-GrowsMap :
      (settings : BatchSettings) (n : ℕ) (bs : List (AnchoredBlock Tx)) (m : BatchMap.Entries Tx)
      → ContiguousFrom n bs
      → GoodEntries n m
      → GrowsMap
          (n + length bs)
          (entry_blocks m + length bs)
          (BatchMap.insert_blocks encoded_length estimate settings bs m)
  unfolding BatchMap.insert_blocks BatchMap.insert_block GrowsMap into_preconfirmed from_block
  insert_blocks-GrowsMap settings n [] m c h =
      (subst (λ (t : ℕ). GoodEntries t m) (omega arith) h, omega arith)
  insert_blocks-GrowsMap settings n (b ∷ bs) m c h =
      subst
        (λ (k : ℕ).
          ContiguousFrom (k + 1) bs
          → GoodEntries k m
          → GrowsMap (k + length (b ∷ bs)) (entry_blocks m + length (b ∷ bs))
              (BatchMap.insert_blocks encoded_length estimate settings (b ∷ bs) m))
        c.0
        (λ later_ones good.
          rw (shift (block_number b) (length bs), shift (entry_blocks m) (length bs))
            (bind-GrowsMap (block_number b + 1) (entry_blocks m + 1)
              (block_number b + 1 + length bs) (length bs)
              (BatchMap.update_entry (anchored_id b)
                (BatchMap.grow_entry encoded_length estimate settings (into_preconfirmed b)
                  b.anchor)
                m)
              (BatchMap.insert_blocks encoded_length estimate settings bs)
              (update_entry-GrowsMap settings (anchored_id b) (into_preconfirmed b) b.anchor m good)
              (λ m' good'.
                insert_blocks-GrowsMap settings (block_number b + 1) bs m' later_ones good')))
        c.1 h

  -- On contiguous blocks `BatchMap::new` does not panic, each batch of the map has a block, and the
  -- batches together have as many blocks as there were.
  pub new_lem :
      (settings : BatchSettings) (n : ℕ) (blocks : List (AnchoredBlock Tx))
      → ContiguousFrom n blocks
      → Grouped (length blocks) (BatchMap.new encoded_length estimate blocks settings)
  unfolding BatchMap.new
  new_lem settings n blocks c =
      subst (λ (t : ℕ). Grouped t (BatchMap.new encoded_length estimate blocks settings))
        (omega arith)
        (finish (n + length blocks) (0 + length blocks)
          (BatchMap.insert_blocks encoded_length estimate settings blocks [])
          (insert_blocks-GrowsMap settings n blocks [] c tt))
