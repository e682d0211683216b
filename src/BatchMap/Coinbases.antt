-- ===== src/BatchMap/Coinbases.antt =====
-- One coinbase for each batch: crates/primitives/src/taiko/batch_map.rs.
use taiko_mk.Prelude.{
  ℕ, ◌≡◌, refl, sym, ap, ap₂, ◌∙◌, false, List, [], ◌∷◌, ◌++◌, is_nil, All, All-append, All-imp,
}
use taiko_mk.Batch.{Batch, split_by_coinbase}
use taiko_mk.Batch.Adding.{all_blocks, all_blocks-append}
use taiko_mk.Batch.Splitting.{IsUniform, IsPart, split_by_coinbase_lem}
use taiko_mk.BatchMap.{
  BatchMap, Entries, values, split_all, split_entries, ensure_unique_coinbase, into_vec,
}

module _ {Tx : Type 0} where
  -- Every batch has the anchor block of its key.
  abbrev pub IsKeyed : Entries Tx → Type 0
  IsKeyed [] = Unit
  IsKeyed ((k, bs) ∷ m) = All (λ b. b.anchor_block.number ≡ k) bs × IsKeyed m

  all_blocks-split_all : (bs : List (Batch Tx)) → all_blocks (split_all bs) ≡ all_blocks bs
  unfolding split_all
  all_blocks-split_all [] = refl
  all_blocks-split_all (b ∷ bs) =
      all_blocks-append (split_by_coinbase b) (split_all bs)
      ∙ ap₂ ◌++◌ (split_by_coinbase_lem b).0 (all_blocks-split_all bs)

  all_blocks-split_entries :
      (m : Entries Tx) → all_blocks (values (split_entries m)) ≡ all_blocks (values m)
  unfolding split_entries
  all_blocks-split_entries [] = refl
  all_blocks-split_entries ((k, bs) ∷ m) =
      all_blocks-append (split_all bs) (values (split_entries m))
      ∙ ap₂ ◌++◌ (all_blocks-split_all bs) (all_blocks-split_entries m)
      ∙ sym (all_blocks-append bs (values m))

  -- A batch with a coinbase of its own, and with blocks.
  abbrev pub IsChecked : Batch Tx → Type 0
  IsChecked b = IsUniform b × (is_nil b.blocks ≡ false)

  split_all-IsChecked : (bs : List (Batch Tx)) → All IsChecked (split_all bs)
  unfolding split_all
  split_all-IsChecked [] = tt
  split_all-IsChecked (b ∷ bs) =
      All-append IsChecked (split_by_coinbase b) (split_all bs)
        (All-imp (λ c (p : IsPart b c). (p.uniform, p.filled)) (split_by_coinbase b)
          (split_by_coinbase_lem b).1)
        (split_all-IsChecked bs)

  split_entries-IsChecked : (m : Entries Tx) → All IsChecked (values (split_entries m))
  unfolding split_entries
  split_entries-IsChecked [] = tt
  split_entries-IsChecked ((k, bs) ∷ m) =
      All-append IsChecked (split_all bs) (values (split_entries m)) (split_all-IsChecked bs)
        (split_entries-IsChecked m)

  split_all-anchor :
      (k : ℕ) (bs : List (Batch Tx))
      → All (λ b. b.anchor_block.number ≡ k) bs
      → All (λ b. b.anchor_block.number ≡ k) (split_all bs)
  unfolding split_all
  split_all-anchor k [] h = tt
  split_all-anchor k (b ∷ bs) h =
      All-append _ (split_by_coinbase b) (split_all bs)
        (All-imp (λ c (p : IsPart b c). ap (λ a. a.number) p.same_anchor ∙ h.0)
          (split_by_coinbase b) (split_by_coinbase_lem b).1)
        (split_all-anchor k bs h.1)

  split_entries-IsKeyed : (m : Entries Tx) → IsKeyed m → IsKeyed (split_entries m)
  unfolding split_entries
  split_entries-IsKeyed [] h = tt
  split_entries-IsKeyed ((k, bs) ∷ m) h = (split_all-anchor k bs h.0, split_entries-IsKeyed m h.1)

  -- Where every batch stands under the number of its anchor, it does so afterwards, and every
  -- batch has blocks, all with the coinbase of the batch; the batches hold, in order, exactly the
  -- blocks from before.
  pub ensure_unique_coinbase_lem :
      (m : BatchMap Tx)
      → IsKeyed m.inner
      → All IsChecked (into_vec (ensure_unique_coinbase m))
        × IsKeyed (ensure_unique_coinbase m).inner
        × (all_blocks (into_vec (ensure_unique_coinbase m)) ≡ all_blocks (into_vec m))
  unfolding into_vec ensure_unique_coinbase
  ensure_unique_coinbase_lem m h = (
    split_entries-IsChecked m.inner,
    split_entries-IsKeyed m.inner h,
    all_blocks-split_entries m.inner,
  )
