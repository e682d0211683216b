-- ===== src/Batch/Adding.antt =====
-- Adding a block: `add_block_and_reset_if_full` in crates/primitives/src/taiko/batch.rs.
use mathlib.Core.List.{append-nil, append_assoc}
use taiko_mk.Prelude.{
  ℕ, ◌+◌, ◌≤◌, ◌<◌, ◌≡◌, ◌≢◌, refl, sym, ap, ◌∙◌, ◌⊎◌, inl, inr, Option, none, some, List, [], ◌∷◌,
  ◌++◌, arith, ltb, ltb→lt, Bool-cases, length, retain, sum_by, All, length-append,
  length-retain-le,
}
use taiko_mk.Batch.{
  Header, PreconfirmedBlock, Batch, DoesntFitBlockReason, AddBlockResult, added, full, raw_size,
  doesnt_fit, retain_blocks_before, take_and_reset, place_block, add_block_and_reset_if_full,
}

module _ {Tx : Type 0} where
  -- The batch that the call hands back, if any.
  abbrev pub handed_back : AddBlockResult Tx → List (Batch Tx)
  handed_back (added raw) = []
  handed_back (full reason b) = b ∷ []

  abbrev pub all_blocks : List (Batch Tx) → List (PreconfirmedBlock Tx)
  all_blocks [] = []
  all_blocks (b ∷ bs) = b.blocks ++ all_blocks bs

  pub all_blocks-append :
      (bs cs : List (Batch Tx)) → all_blocks (bs ++ cs) ≡ all_blocks bs ++ all_blocks cs
  all_blocks-append [] cs = refl
  all_blocks-append (b ∷ bs) cs =
      ap (◌++◌ b.blocks) (all_blocks-append bs cs)
      ∙ sym (append_assoc b.blocks (all_blocks bs) (all_blocks cs))

  -- Numbers increase, from above `low`.
  abbrev pub IsIncreasingFrom : ℕ → List (PreconfirmedBlock Tx) → Type 0
  IsIncreasingFrom low [] = Unit
  IsIncreasingFrom low (x ∷ xs) = (low ≤ x.number) × IsIncreasingFrom (x.number + 1) xs

  -- Within the capacity, and in the order of the block numbers.
  pub record IsValid (b : Batch Tx) : Type 0 where
    pub within_capacity : length b.blocks ≤ b.settings.capacity
    pub increasing : IsIncreasingFrom 0 b.blocks

  pub IsIncreasingFrom-weaken :
      (low high : ℕ) (xs : List (PreconfirmedBlock Tx))
      → low ≤ high
      → IsIncreasingFrom high xs
      → IsIncreasingFrom low xs
  IsIncreasingFrom-weaken low high [] le h = tt
  IsIncreasingFrom-weaken low high (x ∷ xs) le h = (omega arith, h.1)

  pub IsIncreasingFrom-retain_before :
      (low n : ℕ) (xs : List (PreconfirmedBlock Tx))
      → IsIncreasingFrom low xs
      → IsIncreasingFrom low (retain (λ x. ltb x.number n) xs)
  IsIncreasingFrom-retain_before low n [] h = tt
  IsIncreasingFrom-retain_before low n (x ∷ xs) h =
      let ih = IsIncreasingFrom-retain_before (x.number + 1) n xs h.1 in
      elim (Bool-cases (ltb x.number n)) [
        | inl keep ↦ rw keep (h.0, ih)
        | inr drops ↦ rw drops (IsIncreasingFrom-weaken low (x.number + 1) _ (omega arith) ih)
      ]

  -- The new block follows those that were kept.
  IsIncreasingFrom-append_retained :
      (low n : ℕ) (x : PreconfirmedBlock Tx) (xs : List (PreconfirmedBlock Tx))
      → low ≤ n
      → x.number ≡ n
      → IsIncreasingFrom low xs
      → IsIncreasingFrom low (retain (λ y. ltb y.number n) xs ++ x ∷ [])
  IsIncreasingFrom-append_retained low n x [] le e h = (omega arith, tt)
  IsIncreasingFrom-append_retained low n x (y ∷ ys) le e h = elim (Bool-cases (ltb y.number n)) [
    | inl keep ↦ rw keep (
      h.0,
      IsIncreasingFrom-append_retained (y.number + 1) n x ys (omega (arith, ltb→lt _ _ keep)) e h.1,
    )
    | inr drops ↦ rw drops (
        IsIncreasingFrom-append_retained low n x ys le e
          (IsIncreasingFrom-weaken low (y.number + 1) ys (omega arith) h.1))
  ]

module _ {Tx : Type 0} (encoded_length : Tx → ℕ) (estimate : ℕ → ℕ) where
  place_block_lem :
      (o : Option DoesntFitBlockReason) (b : Batch Tx) (x : PreconfirmedBlock Tx)
      (new_anchor : Header)
      → let (after, result) = place_block encoded_length estimate o b x new_anchor in
        (all_blocks (handed_back result) ++ after.blocks ≡ b.blocks ++ x ∷ [])
        × (((handed_back result ≡ []) × (after.anchor_block ≡ b.anchor_block))
            ⊎ ((after.blocks ≡ x ∷ [])
                × (after.anchor_block ≡ new_anchor)
                × All (λ c. c.anchor_block ≡ b.anchor_block) (handed_back result)))
  unfolding place_block take_and_reset
  place_block_lem none b x new_anchor = (refl, inl (refl, refl))
  place_block_lem (some reason) b x new_anchor =
      (ap (λ xs. xs ++ x ∷ []) (append-nil b.blocks), inr (refl, refl, (refl, tt)))

  -- No block is lost or made up: what is handed back, followed by what stays, is the batch without
  -- the blocks from the new one's number on, followed by the new block. Either nothing is handed
  -- back and the anchor stays, or the new block stays alone under the new anchor and what is handed
  -- back has the old one.
  pub add_block_lem :
      (b : Batch Tx) (x : PreconfirmedBlock Tx) (new_anchor : Header)
      → let (after, result) = add_block_and_reset_if_full encoded_length estimate b x new_anchor in
        (all_blocks (handed_back result) ++ after.blocks
          ≡ retain (λ y. ltb y.number x.number) b.blocks ++ x ∷ [])
        × (((handed_back result ≡ []) × (after.anchor_block ≡ b.anchor_block))
            ⊎ ((after.blocks ≡ x ∷ [])
                × (after.anchor_block ≡ new_anchor)
                × All (λ c. c.anchor_block ≡ b.anchor_block) (handed_back result)))
  unfolding add_block_and_reset_if_full retain_blocks_before
  add_block_lem b x new_anchor =
      place_block_lem
        (doesnt_fit encoded_length estimate (retain_blocks_before b x.number) x.tx_list)
        (retain_blocks_before b x.number) x new_anchor

  doesnt_fit-none :
      (b : Batch Tx) (tx_list : List Tx)
      → doesnt_fit encoded_length estimate b tx_list ≡ none
      → (length b.blocks ≢ b.settings.capacity)
        × (estimate (raw_size encoded_length b + sum_by encoded_length tx_list)
            ≤ b.settings.target_compressed_size)
  unfolding doesnt_fit
  doesnt_fit-none b tx_list h = (ground arith, ground arith)

  place_block-IsValid :
      (o : Option DoesntFitBlockReason) (b : Batch Tx) (x : PreconfirmedBlock Tx)
      (new_anchor : Header)
      → 0 < b.settings.capacity
      → IsValid b
      → IsIncreasingFrom 0 (b.blocks ++ x ∷ [])
      → (o ≡ none → length b.blocks ≢ b.settings.capacity)
      → let (after, result) = place_block encoded_length estimate o b x new_anchor in
        IsValid after × All IsValid (handed_back result)
  unfolding place_block take_and_reset
  place_block-IsValid none b x new_anchor pos v i n =
      let room = n refl in
      (
        record {
          within_capacity = omega (arith, length-append b.blocks (x ∷ []), room);
          increasing = i;
        },
        tt,
      )
  place_block-IsValid (some reason) b x new_anchor pos v i n =
      (record { within_capacity = omega arith; increasing = (omega arith, tt) }, (v, tt))

  -- Where the capacity is not zero and the batch holds at most that many blocks, in the order of
  -- their numbers, so do the batch that stays and the batch that is handed back.
  pub add_block-IsValid :
      (b : Batch Tx) (x : PreconfirmedBlock Tx) (new_anchor : Header)
      → 0 < b.settings.capacity
      → IsValid b
      → let (after, result) = add_block_and_reset_if_full encoded_length estimate b x new_anchor in
        IsValid after × All IsValid (handed_back result)
  unfolding add_block_and_reset_if_full retain_blocks_before
  add_block-IsValid b x new_anchor pos v =
      let kept = retain_blocks_before b x.number in
      place_block-IsValid _ kept x new_anchor pos
        (record {
          within_capacity = omega (arith, length-retain-le (λ y. ltb y.number x.number) b.blocks);
          increasing = IsIncreasingFrom-retain_before 0 x.number b.blocks v.increasing;
        })
        (IsIncreasingFrom-append_retained 0 x.number x b.blocks (omega arith) refl v.increasing)
        (λ e. (doesnt_fit-none kept x.tx_list e).0)
