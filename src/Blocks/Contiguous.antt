-- ===== src/Blocks/Contiguous.antt =====
-- What `ContiguousAnchoredBlocks::new` accepts: crates/primitives/src/taiko/block.rs.
use mathlib.Core.List.{Perm}
use taiko_mk.Prelude.{
  ℕ, ◌+◌, ◌<◌, ◌≡◌, refl, ◌⊎◌, inl, inr, none, some, List, [], ◌∷◌, arith, ◌==◌, Bool-cases, length,
  u64_mod, add64, All, sort_by_key, sort_by_key-perm, sort_by_key-IsSortedFrom, IsSortedFrom,
  length-sort_by_key, All-sort_by_key, ◌≢◌,
}
use taiko_mk.Blocks.{
  AnchoredBlock, GapError, GapResult, ok, err, block_number, check_gaps, contiguous_of,
  new_contiguous,
}

module _ {Tx : Type 0} where
  -- The numbers count up from `n`.
  abbrev pub CountsFrom : ℕ → List (AnchoredBlock Tx) → Type 0
  CountsFrom n [] = Unit
  CountsFrom n (b ∷ bs) = (block_number b ≡ n) × CountsFrom (n + 1) bs

  abbrev pub IsContiguous : List (AnchoredBlock Tx) → Type 0
  IsContiguous [] = Unit
  IsContiguous (b ∷ bs) = CountsFrom (block_number b) (b ∷ bs)

  -- A gap: the block at some place has another number than the one that is due there.
  abbrev pub HasGap : ℕ → GapError → List (AnchoredBlock Tx) → Type 0
  HasGap n e [] = ⊥
  HasGap n e (b ∷ bs) =
      ((e.expected ≡ n) × (e.got ≡ block_number b) × (e.got ≢ e.expected)) ⊎ HasGap (n + 1) e bs

  abbrev pub IsGap : GapError → List (AnchoredBlock Tx) → Type 0
  IsGap e [] = ⊥
  IsGap e (b ∷ bs) = HasGap (block_number b) e (b ∷ bs)

  check_gaps_lem :
      (first i n : ℕ) (bs : List (AnchoredBlock Tx))
      → first + i ≡ n
      → n + length bs < u64_mod
      → ((check_gaps first i bs ≡ none) × CountsFrom n bs)
        ⊎ ((e : GapError) × (check_gaps first i bs ≡ some e) × HasGap n e bs)
  unfolding check_gaps
  check_gaps_lem first i n [] e h = inl (refl, tt)
  check_gaps_lem first i n (b ∷ bs) e h =
      let due : add64 first i ≡ n = omega arith in
      rw due (elim (Bool-cases (block_number b == n)) [
        | inl same ↦
            rw same (elim (check_gaps_lem first (i + 1) (n + 1) bs (omega arith) (omega arith)) [
              | inl (found, counts) ↦ inl (found, (ground arith, counts))
              | inr (g, found, gap) ↦ inr (g, found, inr gap)
            ])
        | inr other ↦ rw other (
            inr
              (record { expected = n; got = block_number b }, refl, inl (refl, refl, ground arith)))
      ])

  -- What a check of sorted blocks returns.
  abbrev pub Checks : List (AnchoredBlock Tx) → GapResult (List (AnchoredBlock Tx)) → Type 0
  Checks bs r = ((r ≡ ok bs) × IsContiguous bs) ⊎ ((e : GapError) × (r ≡ err e) × IsGap e bs)

  contiguous_of-Checks :
      (bs : List (AnchoredBlock Tx))
      → All (λ b. block_number b + length bs < u64_mod) bs
      → Checks bs (contiguous_of bs)
  unfolding contiguous_of
  contiguous_of-Checks [] h = inl (refl, tt)
  contiguous_of-Checks (b ∷ bs) h =
      elim (check_gaps_lem (block_number b) 0 (block_number b) (b ∷ bs) (omega arith) h.0) [
        | inl (found, counts) ↦ rw (found, contiguous_of) (inl (refl, counts))
        | inr (e, found, gap) ↦ rw (found, contiguous_of) (inr (e, refl, gap))
      ]

  -- The blocks, brought into the order of their numbers, are accepted exactly if the numbers are
  -- consecutive; else the error names a place at which another number was due. None is lost or
  -- made up, and the numbers do not decrease. Each number, moved on by the count of the blocks, is
  -- below 2 ^ 64.
  new_contiguous-Checks :
      (blocks : List (AnchoredBlock Tx))
      → All (λ b. block_number b + length blocks < u64_mod) blocks
      → Checks (sort_by_key block_number blocks) (new_contiguous blocks)
        × Perm (sort_by_key block_number blocks) blocks
        × IsSortedFrom block_number 0 (sort_by_key block_number blocks)
  unfolding new_contiguous
  new_contiguous-Checks blocks h = (
    contiguous_of-Checks (sort_by_key block_number blocks)
        (rw (length-sort_by_key block_number blocks) (All-sort_by_key block_number _ blocks h)),
    sort_by_key-perm block_number blocks,
    sort_by_key-IsSortedFrom block_number blocks,
  )
