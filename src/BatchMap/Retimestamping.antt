-- ===== src/BatchMap/Retimestamping.antt =====
-- The reset of the timestamps: crates/primitives/src/taiko/batch_map.rs.
use taiko_mk.Prelude.{
  ℕ, ◌≤◌, ◌≡◌, refl, ap, ◌∙◌, subst, ◌⊎◌, inl, inr, Bool, true, false, ◌||◌, List, [], ◌∷◌, ◌++◌,
  arith, ltb, Bool-cases, head?, some, any, map, All, All-append, if◌then◌else◌,
}
use taiko_mk.Batch.{PreconfirmedBlock, Batch, set_all_blocks_timestamp, with_timestamp}
use taiko_mk.Batch.Adding.{all_blocks, all_blocks-append}
use taiko_mk.BatchMap.{
  BatchMap, Entries, values, out_of_range, retimestamp_list, retimestamp_entries, retimestamp,
  retimestamp_reason, into_vec,
}

module _ {Tx : Type 0} (min_ts max_ts : ℕ) where
  retimestamp_list-append :
      (should : Bool) (bs cs : List (Batch Tx))
      → retimestamp_list min_ts max_ts should (bs ++ cs) ≡ (
        (retimestamp_list min_ts max_ts (retimestamp_list min_ts max_ts should bs).0 cs).0,
        (retimestamp_list min_ts max_ts should bs).1
            ++ (retimestamp_list min_ts max_ts (retimestamp_list min_ts max_ts should bs).0 cs).1,
      )
  unfolding retimestamp_list
  retimestamp_list-append should [] cs = refl
  retimestamp_list-append should (b ∷ bs) cs =
      let now = should || out_of_range min_ts max_ts b in
      let c : Batch Tx = if now then set_all_blocks_timestamp b max_ts else b in
      ap {B = Bool × List (Batch Tx)} (λ r. (r.0, c ∷ r.1)) (retimestamp_list-append now bs cs)

  -- `retimestamp` goes through all batches in order, whatever the entries that they stand in.
  retimestamp_entries-values :
      (should : Bool) (m : Entries Tx)
      → retimestamp_list min_ts max_ts should (values m) ≡ (
        (retimestamp_entries min_ts max_ts should m).0,
        values (retimestamp_entries min_ts max_ts should m).1,
      )
  unfolding retimestamp_entries
  retimestamp_entries-values should [] = unfold retimestamp_list in refl
  retimestamp_entries-values should ((k, bs) ∷ m) =
      let (should', bs') = retimestamp_list min_ts max_ts should bs in
      retimestamp_list-append should bs (values m)
      ∙ ap {B = Bool × List (Batch Tx)} (λ r. (r.0, bs' ++ r.1))
          (retimestamp_entries-values should' m)

  abbrev pub reset : Batch Tx → Batch Tx
  reset b = set_all_blocks_timestamp b max_ts

  -- Once a batch was out of range, all that follow are reset.
  retimestamp_list-true :
      (bs : List (Batch Tx)) → retimestamp_list min_ts max_ts true bs ≡ (true, map reset bs)
  unfolding retimestamp_list
  retimestamp_list-true [] = refl
  retimestamp_list-true (b ∷ bs) =
      ap {B = Bool × List (Batch Tx)} (λ r. (r.0, reset b ∷ r.1)) (retimestamp_list-true bs)

  -- The batches before the first that is out of range, and the rest; with what is returned.
  abbrev pub Splits : List (Batch Tx) → Bool × List (Batch Tx) → Type 0
  Splits bs (should, result) =
      (pre : List (Batch Tx)) × (post : List (Batch Tx)) × (bs ≡ pre ++ post)
      × (result ≡ pre ++ map reset post)
      × All (λ b. out_of_range min_ts max_ts b ≡ false) pre
      × (((post ≡ []) × (should ≡ false))
          ⊎ ((b : Batch Tx) × (head? post ≡ some b)
              × (out_of_range min_ts max_ts b ≡ true)
              × (should ≡ true)))

  Splits-cons :
      (b : Batch Tx) (bs : List (Batch Tx)) (r : Bool × List (Batch Tx))
      → out_of_range min_ts max_ts b ≡ false
      → Splits bs r
      → Splits (b ∷ bs) (r.0, b ∷ r.1)
  Splits-cons b bs (should, result) h (pre, post, parts, outcome, good, cases) =
      (b ∷ pre, post, ap (◌∷◌ b) parts, ap (◌∷◌ b) outcome, (h, good), cases)

  retimestamp_list-Splits :
      (bs : List (Batch Tx)) → Splits bs (retimestamp_list min_ts max_ts false bs)
  unfolding retimestamp_list
  retimestamp_list-Splits [] = ([], [], refl, refl, tt, inl (refl, refl))
  retimestamp_list-Splits (b ∷ bs) = elim (Bool-cases (out_of_range min_ts max_ts b)) [
    | inl e ↦ rw (e, retimestamp_list-true bs) ([], b ∷ bs, refl, refl, tt, inr (b, refl, e, refl))
    | inr e ↦ rw e (Splits-cons b bs _ e (retimestamp_list-Splits bs))
  ]

  -- Up to the first batch with a block out of range nothing changes; that one and all that follow
  -- are reset to the maximum. The reason to reorg is noted if there is such a batch, and only then.
  pub retimestamp_lem :
      (m : BatchMap Tx)
      → (should : Bool) × Splits (into_vec m) (should, into_vec (retimestamp m min_ts max_ts))
        × ((retimestamp m min_ts max_ts).reorg_reasons ≡ (
            if should
            then m.reorg_reasons ++ retimestamp_reason min_ts max_ts ∷ []
            else m.reorg_reasons))
  unfolding into_vec retimestamp
  retimestamp_lem m = (
    (retimestamp_entries min_ts max_ts false m.inner).0,
    subst (Splits (values m.inner)) (retimestamp_entries-values false m.inner)
        (retimestamp_list-Splits (values m.inner)),
    refl,
  )

  -- A block's timestamp is one that the protocol takes.
  abbrev pub InRange : PreconfirmedBlock Tx → Type 0
  InRange x = (min_ts ≤ x.timestamp) × (x.timestamp ≤ max_ts)

  any-InRange :
      (xs : List (PreconfirmedBlock Tx))
      → any (λ x. ltb x.timestamp min_ts || ltb max_ts x.timestamp) xs ≡ false
      → All InRange xs
  any-InRange [] h = tt
  any-InRange (x ∷ xs) h = ground (arith, any-InRange xs)

  all_blocks-InRange :
      (bs : List (Batch Tx))
      → All (λ b. out_of_range min_ts max_ts b ≡ false) bs
      → All InRange (all_blocks bs)
  unfolding out_of_range
  all_blocks-InRange [] h = tt
  all_blocks-InRange (b ∷ bs) h =
      All-append InRange b.blocks (all_blocks bs) (any-InRange b.blocks h.0)
        (all_blocks-InRange bs h.1)

  reset-InRange :
      (xs : List (PreconfirmedBlock Tx))
      → min_ts ≤ max_ts
      → All InRange (map (with_timestamp max_ts) xs)
  reset-InRange [] h = tt
  reset-InRange (x ∷ xs) h = ((h, omega arith), reset-InRange xs h)

  all_blocks-reset :
      (bs : List (Batch Tx)) → min_ts ≤ max_ts → All InRange (all_blocks (map reset bs))
  unfolding set_all_blocks_timestamp
  all_blocks-reset [] h = tt
  all_blocks-reset (b ∷ bs) h =
      All-append InRange (map (with_timestamp max_ts) b.blocks) (all_blocks (map reset bs))
        (reset-InRange b.blocks h) (all_blocks-reset bs h)

  -- Afterwards every block of every batch has a timestamp in the range, if the range is not empty.
  pub retimestamp-InRange :
      (m : BatchMap Tx)
      → min_ts ≤ max_ts
      → All InRange (all_blocks (into_vec (retimestamp m min_ts max_ts)))
  retimestamp-InRange m h =
      let (should, (pre, post, parts, outcome, good, cases), reasons) = retimestamp_lem m in
      rw (outcome, all_blocks-append pre (map reset post))
        (All-append InRange (all_blocks pre) (all_blocks (map reset post))
          (all_blocks-InRange pre good) (all_blocks-reset post h))
