-- ===== src/BatchMap/Reanchoring.antt =====
-- The move to a safe anchor: crates/primitives/src/taiko/batch_map.rs.
use mathlib.Core.List.{append_assoc, append-nil}
use taiko_mk.Prelude.{
  ℕ, ◌+◌, ◌≤◌, ◌<◌, ◌≡◌, refl, sym, ap, subst, ◌∙◌, inl, inr, true, false, Option, none, some, List,
  [], ◌∷◌, ◌++◌, arith, ltb, Option-cases, retain, All, All-append, sort_by_key,
}
use taiko_mk.Config.{BatchSettings}
use taiko_mk.Batch.{
  Header, PreconfirmedBlock, Batch, DoesntFitBlockReason, AddBlockResult, added, full, anchor_id,
  take_and_reset, doesnt_fit, place_block, retain_blocks_before, add_block_and_reset_if_full,
}
use taiko_mk.Batch
use taiko_mk.Batch.Adding.{
  handed_back, all_blocks, all_blocks-append, IsValid, IsIncreasingFrom, IsIncreasingFrom-weaken,
  add_block_lem, add_block-IsValid,
}
use taiko_mk.BatchMap.{
  BatchMap, Entries, values, push_at, reassemble, should_reanchor, min_anchor, reanchor,
  reanchor_reason, into_vec,
}

module _ {Tx : Type 0} where
  -- The blocks before a later one all have a smaller number, so that none of them is dropped.
  pub retain_before_all :
      (low : ℕ) (ys : List (PreconfirmedBlock Tx)) (x : PreconfirmedBlock Tx)
      (xs : List (PreconfirmedBlock Tx))
      → IsIncreasingFrom low (ys ++ x ∷ xs)
      → (low ≤ x.number) × (retain (λ y. ltb y.number x.number) ys ≡ ys)
  retain_before_all low [] x xs h = (h.0, refl)
  retain_before_all low (y ∷ ys) x xs h =
      let (less, same) = retain_before_all (y.number + 1) ys x xs h.1 in
      let lt : ltb y.number x.number ≡ true = ground arith in (omega arith, rw lt (ap (◌∷◌ y) same))

  pub IsIncreasingFrom-suffix :
      (low : ℕ) (ys zs : List (PreconfirmedBlock Tx))
      → IsIncreasingFrom low (ys ++ zs)
      → IsIncreasingFrom 0 zs
  IsIncreasingFrom-suffix low [] zs h = IsIncreasingFrom-weaken 0 low zs (omega arith) h
  IsIncreasingFrom-suffix low (y ∷ ys) zs h = IsIncreasingFrom-suffix (y.number + 1) ys zs h.1

  -- A batch made for an anchor, with the settings' coinbase.
  pub record IsOwn (safe : Header) (settings : BatchSettings) (b : Batch Tx) : Type 0 where
    pub own_anchor : b.anchor_block ≡ safe
    pub own_settings : b.settings ≡ settings
    pub own_coinbase : b.coinbase ≡ settings.default_coinbase

  -- The map with batches under one key; without batches it has no entry.
  abbrev at_key : ℕ → List (Batch Tx) → Entries Tx
  at_key k [] = []
  at_key k (b ∷ bs) = (k, b ∷ bs) ∷ []

  push_at-at_key :
      (k : ℕ) (b : Batch Tx) (bs : List (Batch Tx))
      → push_at k b (at_key k bs) ≡ at_key k (bs ++ b ∷ [])
  unfolding push_at
  push_at-at_key k b [] = refl
  push_at-at_key k b (c ∷ bs) = ground arith

module _ {Tx : Type 0} (encoded_length : Tx → ℕ) (estimate : ℕ → ℕ) where
  place_block-IsOwn :
      (safe : Header) (settings : BatchSettings) (o : Option DoesntFitBlockReason) (b : Batch Tx)
      (x : PreconfirmedBlock Tx)
      → IsOwn safe settings b
      → let (after, result) = place_block encoded_length estimate o b x safe in
        IsOwn safe settings after × All (IsOwn safe settings) (handed_back result)
  unfolding place_block take_and_reset
  place_block-IsOwn safe settings none b x v = (
    record {
      own_anchor = v.own_anchor;
      own_settings = v.own_settings;
      own_coinbase = v.own_coinbase;
    },
    tt,
  )
  place_block-IsOwn safe settings (some reason) b x v = (
    record { own_anchor = refl; own_settings = v.own_settings; own_coinbase = v.own_coinbase },
    (v, tt),
  )

  add_block-IsOwn :
      (safe : Header) (settings : BatchSettings) (b : Batch Tx) (x : PreconfirmedBlock Tx)
      → IsOwn safe settings b
      → let (after, result) = add_block_and_reset_if_full encoded_length estimate b x safe in
        IsOwn safe settings after × All (IsOwn safe settings) (handed_back result)
  unfolding add_block_and_reset_if_full retain_blocks_before
  add_block-IsOwn safe settings b x v =
      place_block-IsOwn safe settings _ (retain_blocks_before b x.number) x (record {
        own_anchor = v.own_anchor;
        own_settings = v.own_settings;
        own_coinbase = v.own_coinbase;
      })

  -- The batches that the loop makes, in order.
  batches_of : Header → Batch Tx → List (PreconfirmedBlock Tx) → List (Batch Tx)
  batches_of safe cursor [] = cursor ∷ []
  batches_of safe cursor (x ∷ xs) =
      let (next, result) = add_block_and_reset_if_full encoded_length estimate cursor x safe in
      handed_back result ++ batches_of safe next xs

  push_handed_back :
      (safe : Header) (settings : BatchSettings) (r : AddBlockResult Tx) (bs : List (Batch Tx))
      → All (IsOwn safe settings) (handed_back r)
      → elim r [
        | added raw ↦ at_key safe.number bs
        | full reason b ↦ push_at (anchor_id b) b (at_key safe.number bs)
      ]
        ≡ at_key safe.number (bs ++ handed_back r)
  unfolding anchor_id
  push_handed_back safe settings (added raw) bs h = ap (at_key safe.number) (sym (append-nil bs))
  push_handed_back safe settings (full reason b) bs h =
      ap (λ (a : Header). push_at a.number b (at_key safe.number bs)) h.0.own_anchor
      ∙ push_at-at_key safe.number b bs

  reassemble-batches_of :
      (safe : Header) (settings : BatchSettings) (cursor : Batch Tx)
      (xs : List (PreconfirmedBlock Tx)) (bs : List (Batch Tx))
      → IsOwn safe settings cursor
      → reassemble encoded_length estimate safe cursor xs (at_key safe.number bs)
        ≡ at_key safe.number (bs ++ batches_of safe cursor xs)
  unfolding reassemble batches_of
  reassemble-batches_of safe settings cursor [] bs v = push_at-at_key safe.number cursor bs
  reassemble-batches_of safe settings cursor (x ∷ xs) bs v =
      let (next, result) = add_block_and_reset_if_full encoded_length estimate cursor x safe in
      let (own, handed) = add_block-IsOwn safe settings cursor x v in
      ap (reassemble encoded_length estimate safe next xs)
        (push_handed_back safe settings result bs handed)
      ∙ reassemble-batches_of safe settings next xs (bs ++ handed_back result) own
      ∙ ap (at_key safe.number) (append_assoc bs (handed_back result) (batches_of safe next xs))

  -- What the loop keeps of its cursor.
  record IsCursor (safe : Header) (settings : BatchSettings) (b : Batch Tx) : Type 0 where
    is_own : IsOwn safe settings b
    is_valid : IsValid b

  batches_of_lem :
      (safe : Header) (settings : BatchSettings) (cursor : Batch Tx)
      (xs : List (PreconfirmedBlock Tx))
      → 0 < settings.capacity
      → IsOwn safe settings cursor
      → IsValid cursor
      → IsIncreasingFrom 0 (cursor.blocks ++ xs)
      → (all_blocks (batches_of safe cursor xs) ≡ cursor.blocks ++ xs)
        × All (IsOwn safe settings) (batches_of safe cursor xs)
        × All IsValid (batches_of safe cursor xs)
  unfolding batches_of
  batches_of_lem safe settings cursor [] pos own v i = (refl, (own, tt), (v, tt))
  batches_of_lem safe settings cursor (x ∷ xs) pos own v i =
      let (next, result) = add_block_and_reset_if_full encoded_length estimate cursor x safe in
      let (own', handed_own) = add_block-IsOwn safe settings cursor x own in
      let (valid', handed_valid) =
        add_block-IsValid encoded_length estimate cursor x safe
          (subst (λ (s : BatchSettings). 0 < s.capacity) (sym own.own_settings) pos) v in
      let same : all_blocks (handed_back result) ++ (next.blocks ++ xs) ≡ cursor.blocks ++ x ∷ xs =
        sym (append_assoc (all_blocks (handed_back result)) next.blocks xs)
        ∙ ap (λ ys. ys ++ xs)
            ((add_block_lem encoded_length estimate cursor x safe).0
              ∙ ap (λ ys. ys ++ x ∷ []) (retain_before_all 0 cursor.blocks x xs i).1)
        ∙ append_assoc cursor.blocks (x ∷ []) xs in
      let (ih, owns, valids) = batches_of_lem safe settings next xs pos own' valid' (
        IsIncreasingFrom-suffix 0 (all_blocks (handed_back result)) (next.blocks ++ xs)
          (subst (IsIncreasingFrom 0) (sym same) i)) in
      (
        all_blocks-append (handed_back result) (batches_of safe next xs)
            ∙ ap (◌++◌ (all_blocks (handed_back result))) ih
            ∙ same,
        All-append (IsOwn safe settings) (handed_back result) _ handed_own owns,
        All-append IsValid (handed_back result) _ handed_valid valids,
      )

  should_reanchor-none :
      (m : BatchMap Tx) (min_proposable_anchor : ℕ)
      → min_anchor m ≡ none
      → should_reanchor m min_proposable_anchor ≡ false
  unfolding should_reanchor
  should_reanchor-none m min_proposable_anchor e = ground arith

  reanchor-moves :
      (m : BatchMap Tx) (min_proposable_anchor : ℕ) (safe : Header) (settings : BatchSettings)
      → should_reanchor m min_proposable_anchor ≡ true
      → (k : ℕ) × (min_anchor m ≡ some k)
        × (reanchor encoded_length estimate m min_proposable_anchor safe settings ≡ record {
          inner = at_key safe.number (
              batches_of safe
                (Batch.new safe settings)
                (sort_by_key (λ x. x.number) (all_blocks (into_vec m))));
          reorg_reasons = reanchor_reason k safe.number ∷ [];
        })
  unfolding reanchor into_vec Batch.new
  reanchor-moves m min_proposable_anchor safe settings h = elim (Option-cases (min_anchor m)) [
    | inl e ↦ ground (arith, should_reanchor-none m min_proposable_anchor e)
    | inr (k, e) ↦ (
      k,
      e,
      ground (
        arith,
        reassemble-batches_of safe settings (Batch.new safe settings)
            (sort_by_key (λ x. x.number) (all_blocks (into_vec m))) []
            (record { own_anchor = refl; own_settings = refl; own_coinbase = refl }),
      ),
    )
  ]

  values-at_key : (k : ℕ) (bs : List (Batch Tx)) → values (at_key k bs) ≡ bs
  values-at_key k [] = refl
  values-at_key k (b ∷ bs) = append-nil (b ∷ bs)

  at_key-keys :
      (k : ℕ) (bs : List (Batch Tx)) → All (λ (e : ℕ × List (Batch Tx)). e.0 ≡ k) (at_key k bs)
  at_key-keys k [] = tt
  at_key-keys k (b ∷ bs) = (refl, tt)

  -- A map that has to move keeps all its blocks, in the order of their numbers, in batches within
  -- their capacity that stand under the safe anchor alone and have it as their anchor block, with
  -- the settings and coinbase of the call; the reason names the old smallest anchor and the new
  -- one. This holds where the capacity is not zero and no two blocks have the same number.
  pub reanchor_lem :
      (m : BatchMap Tx) (min_proposable_anchor : ℕ) (safe : Header) (settings : BatchSettings)
      → 0 < settings.capacity
      → IsIncreasingFrom 0 (sort_by_key (λ x. x.number) (all_blocks (into_vec m)))
      → should_reanchor m min_proposable_anchor ≡ true
      → let after = reanchor encoded_length estimate m min_proposable_anchor safe settings in
        (all_blocks (into_vec after) ≡ sort_by_key (λ x. x.number) (all_blocks (into_vec m)))
        × All (IsOwn safe settings) (into_vec after)
        × All IsValid (into_vec after)
        × All (λ (e : ℕ × List (Batch Tx)). e.0 ≡ safe.number) after.inner
        × ((k : ℕ) × (min_anchor m ≡ some k)
            × (after.reorg_reasons ≡ reanchor_reason k safe.number ∷ []))
  unfolding into_vec Batch.new
  reanchor_lem m min_proposable_anchor safe settings pos i h =
      let (k, e, moved) = reanchor-moves m min_proposable_anchor safe settings h in
      let sorted = sort_by_key (λ x. x.number) (all_blocks (into_vec m)) in
      let bs = batches_of safe (Batch.new safe settings) sorted in
      let (blocks, owns, valids) =
        batches_of_lem safe settings (Batch.new safe settings) sorted pos
          (record { own_anchor = refl; own_settings = refl; own_coinbase = refl })
          (record { within_capacity = omega arith; increasing = tt }) i in
      rw (moved, values-at_key safe.number bs)
        (blocks, owns, valids, at_key-keys safe.number bs, (k, e, refl))
