-- ===== src/BatchMap/Entries.antt =====
-- The entries of the map that `BatchMap::new` of crates/primitives/src/taiko/batch_map.rs builds:
-- each has a batch, and each batch a block before a number.
use taiko_mk.Prelude.{
  ℕ, suc, ◌+◌, ◌<◌, ◌≡◌, refl, subst, arith, false, Option, none, some, List, [], ◌∷◌, ◌++◌, ltb,
  All, All-imp, retain, is_nil, length, sum_by, any, All-sort_by_key, sum_by-sort_by_key,
  length-sort_by_key,
}
use taiko_mk.Batch.{PreconfirmedBlock, Batch}
use taiko_mk.Blocks.{AnchoredBlock, block_number}
use taiko_mk.BatchMap

pub nonempty : {A : Type 0} (xs : List A) (x : A) → is_nil (xs ++ (x ∷ [])) ≡ false
nonempty [] x = refl
nonempty (y ∷ ys) x = refl

not_nil : {A : Type 0} (xs : List A) → 0 < length xs → is_nil xs ≡ false
not_nil [] h = absurd (omega arith)
not_nil (x ∷ xs) h = refl

pub shift : (a b : ℕ) → a + suc b ≡ a + 1 + b
shift a b = omega arith

module _ {Tx : Type 0} where
  -- The batch has a block, and its blocks come before `n`.
  abbrev pub IsBefore : ℕ → Batch Tx → Type 0
  IsBefore n b = (is_nil b.blocks ≡ false) × All (λ x. x.number < n) b.blocks

  abbrev pub batch_blocks : List (Batch Tx) → ℕ
  batch_blocks bs = sum_by (λ (b : Batch Tx). length b.blocks) bs

  pub retain_before :
      (n : ℕ) (xs : List (PreconfirmedBlock Tx))
      → All (λ y. y.number < n) xs
      → retain (λ y. ltb y.number n) xs ≡ xs
  retain_before n [] h = refl
  retain_before n (x ∷ xs) h = ground (arith, retain_before n xs h.1)

  pub later :
      (n : ℕ) (xs : List (PreconfirmedBlock Tx))
      → All (λ y. y.number < n) xs
      → All (λ y. y.number < n + 1) xs
  later n xs h = All-imp (λ (y : PreconfirmedBlock Tx) (p : y.number < n). omega arith) xs h

  -- The batches of an entry: there is one, and all are as above.
  abbrev pub Good : ℕ → List (Batch Tx) → Type 0
  Good n bs = (is_nil bs ≡ false) × All (IsBefore n) bs

  -- Adding a block to an entry gives an entry.
  unfoldable pub Grows : ℕ → ℕ → Option (List (Batch Tx)) → Type 0
  Grows n total none = ⊥
  Grows n total (some r) = Good n r × (batch_blocks r ≡ total)

  pub IsBefore-next : (n : ℕ) (b : Batch Tx) → IsBefore n b → IsBefore (n + 1) b
  IsBefore-next n b h = (h.0, later n b.blocks h.1)

  pub cons-Grows :
      (n total : ℕ) (b : Batch Tx) (o : Option (List (Batch Tx)))
      → IsBefore n b
      → Grows n total o
      → Grows n (length b.blocks + total) (elim o [ none ↦ none | some r ↦ some (b ∷ r) ])
  unfolding Grows
  cons-Grows n total b none h g = absurd g
  cons-Grows n total b (some r) h g = ((refl, (h, g.0.1)), omega (arith, g.1))

  abbrev pub GoodEntries : ℕ → BatchMap.Entries Tx → Type 0
  GoodEntries n m = All (λ (e : ℕ × List (Batch Tx)). Good n e.1) m

  abbrev pub entry_blocks : BatchMap.Entries Tx → ℕ
  entry_blocks m = sum_by (λ (e : ℕ × List (Batch Tx)). batch_blocks e.1) m

  unfoldable pub GrowsMap : ℕ → ℕ → Option (BatchMap.Entries Tx) → Type 0
  GrowsMap n total none = ⊥
  GrowsMap n total (some m) = GoodEntries n m × (entry_blocks m ≡ total)

  pub IsBefore-next_all :
      (n : ℕ) (bs : List (Batch Tx)) → All (IsBefore n) bs → All (IsBefore (n + 1)) bs
  IsBefore-next_all n bs h = All-imp (IsBefore-next n) bs h

  pub entries_next : (n : ℕ) (m : BatchMap.Entries Tx) → GoodEntries n m → GoodEntries (n + 1) m
  entries_next n [] h = tt
  entries_next n ((k, bs) ∷ m) h = ((h.0.0, IsBefore-next_all n bs h.0.1), entries_next n m h.1)

  pub replaced-GrowsMap :
      (n total k : ℕ) (m : BatchMap.Entries Tx) (o : Option (List (Batch Tx)))
      → GoodEntries n m
      → Grows n total o
      → GrowsMap n (total + entry_blocks m) (elim o [ none ↦ none | some bs ↦ some ((k, bs) ∷ m) ])
  unfolding Grows GrowsMap
  replaced-GrowsMap n total k m none h g = absurd g
  replaced-GrowsMap n total k m (some bs) h g = ((g.0, h), omega (arith, g.1))

  pub with_entry-GrowsMap :
      (n total k : ℕ) (bs : List (Batch Tx)) (o : Option (BatchMap.Entries Tx))
      → Good n bs
      → GrowsMap n total o
      → GrowsMap n (batch_blocks bs + total) (BatchMap.with_entry k bs o)
  unfolding GrowsMap BatchMap.with_entry
  with_entry-GrowsMap n total k bs none h g = absurd g
  with_entry-GrowsMap n total k bs (some m) h g = ((h, g.0), omega (arith, g.1))

  none_empty :
      (n : ℕ) (bs : List (Batch Tx)) → All (IsBefore n) bs → any (λ d. is_nil d.blocks) bs ≡ false
  none_empty n [] h = refl
  none_empty n (b ∷ bs) h = ground (arith, none_empty n bs h.1)

  -- Each block's number is the one after that of the block before.
  abbrev pub ContiguousFrom : ℕ → List (AnchoredBlock Tx) → Type 0
  ContiguousFrom n [] = Unit
  ContiguousFrom n (b ∷ bs) = (block_number b ≡ n) × ContiguousFrom (n + 1) bs

  pub bind-GrowsMap :
      (n total n' extra : ℕ) (o : Option (BatchMap.Entries Tx))
      (rest : BatchMap.Entries Tx → Option (BatchMap.Entries Tx))
      → GrowsMap n total o
      → ((m : BatchMap.Entries Tx)
          → GoodEntries n m
          → GrowsMap n' (entry_blocks m + extra) (rest m))
      → GrowsMap n' (total + extra) (elim o [ none ↦ none | some m ↦ rest m ])
  bind-GrowsMap n total n' extra none rest g k = absurd (unfold GrowsMap in g)
  bind-GrowsMap n total n' extra (some m) rest g k =
      let h : GoodEntries n m × (entry_blocks m ≡ total) = unfold GrowsMap in g in
      subst (λ (t : ℕ). GrowsMap n' (t + extra) (rest m)) h.1 (k m h.0)

  sort_batches-Grows :
      (n : ℕ) (bs : List (Batch Tx))
      → Good n bs
      → Grows n (batch_blocks bs) (BatchMap.sort_batches bs)
  unfolding BatchMap.sort_batches Grows
  sort_batches-Grows n [] h = absurd (ground arith)
  sort_batches-Grows n (b ∷ []) h = (h, refl)
  sort_batches-Grows n (b ∷ c ∷ bs) h = rw (none_empty n (b ∷ c ∷ bs) h.1) (
    (
      not_nil _ (omega (arith, length-sort_by_key BatchMap.first_number (b ∷ c ∷ bs))),
      All-sort_by_key BatchMap.first_number (IsBefore n) (b ∷ c ∷ bs) h.1,
    ),
    sum_by-sort_by_key BatchMap.first_number (λ (d : Batch Tx). length d.blocks) (b ∷ c ∷ bs),
  )

  sorted-GrowsMap :
      (n total rest k : ℕ) (o : Option (List (Batch Tx))) (m : Option (BatchMap.Entries Tx))
      → Grows n total o
      → GrowsMap n rest m
      → GrowsMap n
          (total + rest)
          (elim o [ none ↦ none | some sorted ↦ BatchMap.with_entry k sorted m ])
  sorted-GrowsMap n total rest k none m g h = absurd (unfold Grows in g)
  sorted-GrowsMap n total rest k (some sorted) m g h =
      let q : Good n sorted × (batch_blocks sorted ≡ total) = unfold Grows in g in
      subst (λ (t : ℕ). GrowsMap n (t + rest) (BatchMap.with_entry k sorted m)) q.1
        (with_entry-GrowsMap n rest k sorted m q.0 h)

  sort_entries-GrowsMap :
      (n : ℕ) (m : BatchMap.Entries Tx)
      → GoodEntries n m
      → GrowsMap n (entry_blocks m) (BatchMap.sort_entries m)
  unfolding BatchMap.sort_entries
  sort_entries-GrowsMap n [] h = unfold GrowsMap in (tt, refl)
  sort_entries-GrowsMap n ((k, bs) ∷ m) h =
      sorted-GrowsMap n (batch_blocks bs) (entry_blocks m) k (BatchMap.sort_batches bs)
        (BatchMap.sort_entries m) (sort_batches-Grows n bs h.0) (sort_entries-GrowsMap n m h.1)

  -- What `BatchMap::new` gives: not a panic, and a map of nonempty lists of nonempty batches with
  -- `total` blocks.
  abbrev pub Grouped : ℕ → Option (BatchMap.BatchMap Tx) → Type 0
  Grouped total none = ⊥
  Grouped total (some m) =
      All
        (λ (e : ℕ × List (Batch Tx)). (is_nil e.1 ≡ false) × All (λ b. is_nil b.blocks ≡ false) e.1)
        m.inner
      × (sum_by (λ (e : ℕ × List (Batch Tx)). batch_blocks e.1) m.inner ≡ total)

  without_numbers :
      (n : ℕ) (m : BatchMap.Entries Tx)
      → GoodEntries n m
      → All
          (λ (e : ℕ × List (Batch Tx)).
            (is_nil e.1 ≡ false) × All (λ b. is_nil b.blocks ≡ false) e.1)
          m
  without_numbers n m h =
      All-imp
        (λ (e : ℕ × List (Batch Tx)) (g : Good n e.1).
          (g.0, All-imp (λ (b : Batch Tx) (i : IsBefore n b). i.0) e.1 g.1))
        m h

  sorted_map :
      (n total : ℕ) (o : Option (BatchMap.Entries Tx))
      → GrowsMap n total o
      → Grouped total (elim o [
        | none ↦ none
        | some sorted ↦ some (record { inner = sorted; reorg_reasons = [] })
      ])
  sorted_map n total none g = unfold GrowsMap in g
  sorted_map n total (some m) g =
      let h : GoodEntries n m × (entry_blocks m ≡ total) = unfold GrowsMap in g in
      (without_numbers n m h.0, h.1)

  pub finish :
      (n total : ℕ) (o : Option (BatchMap.Entries Tx))
      → GrowsMap n total o
      → Grouped total (elim o [
        | none ↦ none
        | some m ↦ elim (BatchMap.sort_entries m) [
          | none ↦ none
          | some sorted ↦ some (record { inner = sorted; reorg_reasons = [] })
        ]
      ])
  finish n total none g = unfold GrowsMap in g
  finish n total (some m) g =
      let h : GoodEntries n m × (entry_blocks m ≡ total) = unfold GrowsMap in g in
      subst
        (λ (t : ℕ). Grouped t (elim (BatchMap.sort_entries m) [
          | none ↦ none
          | some sorted ↦ some (record { inner = sorted; reorg_reasons = [] })
        ]))
        h.1
        (sorted_map n (entry_blocks m) (BatchMap.sort_entries m) (sort_entries-GrowsMap n m h.0))
