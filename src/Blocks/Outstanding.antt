-- ===== src/Blocks/Outstanding.antt =====
-- The batch that blocks are built on: `into_outstanding` in crates/primitives/src/taiko/block.rs.
use mathlib.Core.List.{map-append}
use native.Mathlib.Nat.{le_trans}
use taiko_mk.Prelude.{
  ℕ, zero, suc, ◌+◌, ◌-◌, ◌≤◌, ◌≡◌, sym, ap, ◌∙◌, Bool, min, if◌then◌else◌, List, [], ◌∷◌, ◌++◌,
  map, arith, ◌==◌, Bool-cases, inl, inr, leb, length, drop, take, retain, All, take-append-drop,
  length-drop, length-map,
}
use taiko_mk.Config.{BatchSettings}
use taiko_mk.Batch.{Header, from_blocks_unchecked}
use taiko_mk.Batch.Adding.{IsValid, IsIncreasingFrom}
use taiko_mk.Blocks.{
  AnchoredBlock, block_number, anchored_id, into_preconfirmed, max_by_anchor, highest_anchor,
  into_outstanding,
}

module _ {Tx : Type 0} where
  later_max :
      (best b : AnchoredBlock Tx)
      → (anchored_id best
          ≤ anchored_id (if leb (anchored_id best) (anchored_id b) then b else best))
        × (anchored_id b ≤ anchored_id (if leb (anchored_id best) (anchored_id b) then b else best))
  later_max best b = ground arith

  le-max_by_anchor :
      (best : AnchoredBlock Tx) (bs : List (AnchoredBlock Tx))
      → (anchored_id best ≤ anchored_id (max_by_anchor best bs))
        × All (λ b. anchored_id b ≤ anchored_id (max_by_anchor best bs)) bs
  unfolding max_by_anchor
  le-max_by_anchor best [] = (omega arith, tt)
  le-max_by_anchor best (b ∷ bs) =
      let next : AnchoredBlock Tx = if leb (anchored_id best) (anchored_id b) then b else best in
      let (low, all) = le-max_by_anchor next bs in
      let (from_best, from_b) = later_max best b in
      (le_trans from_best low, (le_trans from_b low, all))

  le-highest_anchor :
      (bs : List (AnchoredBlock Tx)) (safe : Header)
      → All (λ b. anchored_id b ≤ (highest_anchor bs safe).number) bs
  unfolding highest_anchor anchored_id
  le-highest_anchor [] safe = tt
  le-highest_anchor (b ∷ bs) safe = le-max_by_anchor b bs

  -- Numbers increase, from `low` on.
  abbrev pub Increases : ℕ → List (AnchoredBlock Tx) → Type 0
  Increases low [] = Unit
  Increases low (b ∷ bs) = (low ≤ block_number b) × Increases (block_number b + 1) bs

  Increases-weaken :
      (low high : ℕ) (bs : List (AnchoredBlock Tx))
      → low ≤ high
      → Increases high bs
      → Increases low bs
  Increases-weaken low high [] le h = tt
  Increases-weaken low high (b ∷ bs) le h = (omega arith, h.1)

  Increases-retain :
      (p : AnchoredBlock Tx → Bool) (low : ℕ) (bs : List (AnchoredBlock Tx))
      → Increases low bs
      → Increases low (retain p bs)
  Increases-retain p low [] h = tt
  Increases-retain p low (b ∷ bs) h = elim (Bool-cases (p b)) [
    | inl e ↦ rw e (h.0, Increases-retain p (block_number b + 1) bs h.1)
    | inr e ↦ rw e (
        Increases-weaken low (block_number b + 1) _ (omega arith)
          (Increases-retain p (block_number b + 1) bs h.1))
  ]

  Increases-drop :
      (n low : ℕ) (bs : List (AnchoredBlock Tx)) → Increases low bs → Increases low (drop n bs)
  Increases-drop zero low bs h = h
  Increases-drop (suc n) low [] h = tt
  Increases-drop (suc n) low (b ∷ bs) h =
      Increases-weaken low (block_number b + 1) _ (omega arith)
        (Increases-drop n (block_number b + 1) bs h.1)

  map-IsIncreasingFrom :
      (low : ℕ) (bs : List (AnchoredBlock Tx))
      → Increases low bs
      → IsIncreasingFrom low (map into_preconfirmed bs)
  unfolding into_preconfirmed
  map-IsIncreasingFrom low [] h = tt
  map-IsIncreasingFrom low (b ∷ bs) h = (h.0, map-IsIncreasingFrom (block_number b + 1) bs h.1)

  -- The blocks with the highest anchor.
  abbrev pub on_highest : List (AnchoredBlock Tx) → Header → List (AnchoredBlock Tx)
  on_highest bs safe = retain (λ b. anchored_id b == (highest_anchor bs safe).number) bs

  -- The outstanding batch of blocks in the order of their numbers is valid: within its capacity and
  -- in order. No block has a higher anchor than the batch's. The blocks of the batch are the last of
  -- those with that anchor, and all of them if they are within the capacity.
  into_outstanding_lem :
      (bs : List (AnchoredBlock Tx)) (safe : Header) (settings : BatchSettings)
      → Increases 0 bs
      → let batch = into_outstanding bs safe settings in
        IsValid batch
        × All (λ b. anchored_id b ≤ batch.anchor_block.number) bs
        × (map into_preconfirmed
                (take (length (on_highest bs safe) - settings.capacity) (on_highest bs safe))
              ++ batch.blocks
            ≡ map into_preconfirmed (on_highest bs safe))
        × (length batch.blocks ≡ min settings.capacity (length (on_highest bs safe)))
  unfolding into_outstanding from_blocks_unchecked
  into_outstanding_lem bs safe settings h =
      let ours = on_highest bs safe in
      let n : ℕ = length ours - settings.capacity in
      let count = length-map into_preconfirmed (drop n ours) ∙ length-drop n ours in
      (
        record {
          within_capacity = omega (arith, count);
          increasing = map-IsIncreasingFrom 0 _ (Increases-drop n 0 _ (Increases-retain _ 0 bs h));
        },
        le-highest_anchor bs safe,
        sym (map-append into_preconfirmed (take n ours) (drop n ours))
            ∙ ap (map into_preconfirmed) (take-append-drop n ours),
        omega (arith, count),
      )
