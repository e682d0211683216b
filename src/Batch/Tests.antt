-- ===== src/Batch/Tests.antt =====
-- Examples for crates/primitives/src/taiko/batch.rs.
use taiko_mk.Prelude.{◌≡◌, ◌⊎◌, [], ◌∷◌, ◌++◌, arith, retain, ltb, All}
use taiko_mk.Samples.{header, block, half, size, pair, pair-IsValid}
use taiko_mk.Batch.{add_block_and_reset_if_full}
use taiko_mk.Batch.Adding.{handed_back, all_blocks, IsValid, add_block_lem, add_block-IsValid}

add_block_lem_example :
    let r = add_block_and_reset_if_full size half pair (block 12 7) (header 6) in
    (all_blocks (handed_back r.1) ++ r.0.blocks
      ≡ retain (λ y. ltb y.number 12) pair.blocks ++ block 12 7 ∷ [])
    × (((handed_back r.1 ≡ []) × (r.0.anchor_block ≡ header 5))
        ⊎ ((r.0.blocks ≡ block 12 7 ∷ [])
            × (r.0.anchor_block ≡ header 6)
            × All (λ c. c.anchor_block ≡ header 5) (handed_back r.1)))
add_block_lem_example = add_block_lem size half pair (block 12 7) (header 6)

add_block-IsValid_example :
    let r = add_block_and_reset_if_full size half pair (block 12 7) (header 6) in
    IsValid r.0 × All IsValid (handed_back r.1)
add_block-IsValid_example =
    add_block-IsValid size half pair (block 12 7) (header 6) (omega arith) pair-IsValid
