-- ===== src/BatchMap/Tests.antt =====
-- Examples for crates/primitives/src/taiko/batch_map.rs.
use taiko_mk.Prelude.{
  ℕ, ◌≡◌, refl, Bool, some, List, [], ◌∷◌, ◌++◌, arith, All, sort_by_key, if◌then◌else◌,
}
use taiko_mk.Samples.{header, settings, half, size, pair}
use taiko_mk.Batch.{Batch}
use taiko_mk.Batch.Adding.{all_blocks, IsValid}
use taiko_mk.Blocks.{AnchoredBlock}
use taiko_mk.BatchMap.Entries.{Grouped}
use taiko_mk.BatchMap.Grouping.{new_lem}
use taiko_mk.BatchMap.{
  BatchMap, new, ensure_unique_coinbase, into_vec, min_anchor, reanchor, reanchor_reason,
  retimestamp, retimestamp_reason, should_reanchor, get, first_of,
}
use taiko_mk.BatchMap.Coinbases.{IsKeyed, IsChecked, ensure_unique_coinbase_lem}
use taiko_mk.BatchMap.Reanchoring.{IsOwn, reanchor_lem}
use taiko_mk.BatchMap.Retimestamping.{Splits, retimestamp_lem}

-- The pair of blocks under anchor 5, and no reason to reorg.
abbrev expired : BatchMap ℕ
expired = record { inner = (5, pair ∷ []) ∷ []; reorg_reasons = [] }

ensure_unique_coinbase_lem_example :
    All IsChecked (into_vec (ensure_unique_coinbase expired))
    × IsKeyed (ensure_unique_coinbase expired).inner
    × (all_blocks (into_vec (ensure_unique_coinbase expired)) ≡ all_blocks (into_vec expired))
ensure_unique_coinbase_lem_example = ensure_unique_coinbase_lem expired ((refl, tt), tt)

reanchor_lem_example :
    let after = reanchor size half expired 8 (header 9) settings in
    (all_blocks (into_vec after) ≡ sort_by_key (λ x. x.number) (all_blocks (into_vec expired)))
    × All (IsOwn (header 9) settings) (into_vec after)
    × All IsValid (into_vec after)
    × All (λ (e : ℕ × List (Batch ℕ)). e.0 ≡ 9) after.inner
    × ((k : ℕ) × (min_anchor expired ≡ some k) × (after.reorg_reasons ≡ reanchor_reason k 9 ∷ []))
unfolding into_vec should_reanchor sort_by_key min_anchor first_of get
reanchor_lem_example =
    reanchor_lem size half expired 8 (header 9) settings (omega arith) (ground arith) refl

retimestamp_lem_example :
    (should : Bool) × Splits 2021 3000
      (into_vec expired)
      (should, into_vec (retimestamp expired 2021 3000))
    × ((retimestamp expired 2021 3000).reorg_reasons
        ≡ (if should then [] ++ retimestamp_reason 2021 3000 ∷ [] else []))
retimestamp_lem_example = retimestamp_lem 2021 3000 expired

-- Three blocks under two anchors, of two coinbases.
abbrev soft_block : ℕ → ℕ → AnchoredBlock ℕ
soft_block number anchor_number = record {
  block = record { header = header number; transactions = record { signer = 3; inner = 50 } ∷ [] };
  anchor = header anchor_number;
}

abbrev soft_blocks : List (AnchoredBlock ℕ)
soft_blocks = soft_block 10 5 ∷ soft_block 11 5 ∷ soft_block 12 6 ∷ []

new_lem_example : Grouped 3 (new size half soft_blocks settings)
new_lem_example = new_lem size half settings 10 soft_blocks (refl, (refl, (refl, tt)))
