-- ===== src/BatchMap.antt =====
-- Batches by anchor block: crates/primitives/src/taiko/batch_map.rs. The `BTreeMap` is the list of
-- its entries in the order of the keys; the marker of the map's state is left out; `none` is a panic
-- of an `expect`.
pub mod Coinbases
pub mod Reanchoring
pub mod Entries
pub mod Grouping
pub mod Retimestamping
mod Tests
use taiko_mk.Prelude.{
  ℕ, ◌+◌, Bool, true, false, ◌&&◌, ◌||◌, Option, none, some, List, [], ◌∷◌, ◌++◌, ltb, ◌==◌,
  if◌then◌else◌, head?, is_nil, any, min, length, sum_by, sort_by_key,
}
use taiko_mk.Config.{BatchSettings}
use taiko_mk.Batch.{
  Header, PreconfirmedBlock, Batch, AddBlockResult, added, full, anchor_id, split_by_coinbase,
  from_blocks_unchecked, set_all_blocks_timestamp, add_block_and_reset_if_full,
}
use taiko_mk.Batch
use taiko_mk.Batch.Adding.{handed_back, all_blocks}
use taiko_mk.Blocks.{AnchoredBlock, into_preconfirmed, anchored_id}

pub data ReorgReason : Type 0 where
  reanchor_reason : ℕ → ℕ → ReorgReason
  retimestamp_reason : ℕ → ℕ → ReorgReason

unfoldable pub only_reanchoring : List ReorgReason → Bool
only_reanchoring [] = true
only_reanchoring (reanchor_reason expired new_one ∷ rs) = only_reanchoring rs
only_reanchoring (retimestamp_reason min_ts max_ts ∷ rs) = false

abbrev pub Entries : Type 0 → Type 0
Entries Tx = List (ℕ × List (Batch Tx))

pub record BatchMap (Tx : Type 0) : Type 0 where
  pub inner : Entries Tx
  pub reorg_reasons : List ReorgReason

module _ {Tx : Type 0} where
  -- `into_values().flatten()`.
  abbrev pub values : Entries Tx → List (Batch Tx)
  values [] = []
  values ((k, bs) ∷ m) = bs ++ values m

  unfoldable pub get : ℕ → Entries Tx → Option (List (Batch Tx))
  get key [] = none
  get key ((k, bs) ∷ m) = let rest = get key m in if key == k then some bs else rest

  -- `get_mut` and `insert` in one walk: the entry's new value from its old one, if there is any.
  pub with_entry : ℕ → List (Batch Tx) → Option (Entries Tx) → Option (Entries Tx)
  with_entry k bs none = none
  with_entry k bs (some m) = some ((k, bs) ∷ m)

  update_entry :
      ℕ → (Option (List (Batch Tx)) → Option (List (Batch Tx))) → Entries Tx → Option (Entries Tx)
  update_entry key f [] = elim (f none) [ none ↦ none | some bs ↦ some ((key, bs) ∷ []) ]
  update_entry key f ((k, old) ∷ m) =
      let rest = with_entry k old (update_entry key f m) in
      let replaced : Option (Entries Tx) = elim (f (some old)) [
        | none ↦ none
        | some bs ↦ some ((k, bs) ∷ m)
      ] in
      let inserted : Option (Entries Tx) = elim (f none) [
        | none ↦ none
        | some bs ↦ some ((key, bs) ∷ (k, old) ∷ m)
      ] in
      if key == k then replaced else if ltb key k then inserted else rest

  -- `entry(key).or_insert_with(Vec::new).push(b)`.
  push_at : ℕ → Batch Tx → Entries Tx → Entries Tx
  push_at key b [] = (key, b ∷ []) ∷ []
  push_at key b ((k, bs) ∷ m) =
      let rest = push_at key b m in
      if key == k
      then (k, bs ++ b ∷ []) ∷ m
      else if ltb key k
      then (key, b ∷ []) ∷ (k, bs) ∷ m
      else (k, bs) ∷ rest

  -- The number of the first block, for a batch that has one.
  abbrev pub first_number : Batch Tx → ℕ
  first_number b = elim (head? b.blocks) [ none ↦ 0 | some x ↦ x.number ]

  -- The sort at the end of `BatchMap::new`; the key of an empty batch panics, and a list of fewer
  -- than two batches is not sorted.
  pub sort_batches : List (Batch Tx) → Option (List (Batch Tx))
  sort_batches [] = some []
  sort_batches (b ∷ []) = some (b ∷ [])
  sort_batches (b ∷ c ∷ bs) =
      let all = b ∷ c ∷ bs in
      if any (λ d. is_nil d.blocks) all then none else some (sort_by_key first_number all)

  pub sort_entries : Entries Tx → Option (Entries Tx)
  sort_entries [] = some []
  sort_entries ((k, bs) ∷ m) = elim (sort_batches bs) [
    | none ↦ none
    | some sorted ↦ with_entry k sorted (sort_entries m)
  ]

  pub count : BatchMap Tx → ℕ
  count m = sum_by (λ (e : ℕ × List (Batch Tx)). length e.1) m.inner

  -- `keys().min()`.
  min_key : Entries Tx → Option ℕ
  min_key [] = none
  min_key ((k, bs) ∷ m) = elim (min_key m) [ none ↦ some k | some j ↦ some (min k j) ]

  unfoldable pub min_anchor : BatchMap Tx → Option ℕ
  unfolding min_key
  min_anchor m = min_key m.inner

  -- The first batch of the entry, if there are the entry and the batch.
  first_of : Option (List (Batch Tx)) → Option (Batch Tx)
  first_of none = none
  first_of (some bs) = head? bs

  unfoldable pub should_reanchor : BatchMap Tx → ℕ → Bool
  unfolding first_of
  should_reanchor m min_proposable_anchor = elim (min_anchor m) [
    | none ↦ false
    | some key ↦ elim (first_of (get key m.inner)) [
      | none ↦ false
      | some b ↦ ltb b.anchor_block.number min_proposable_anchor
    ]
  ]

  split_all : List (Batch Tx) → List (Batch Tx)
  split_all [] = []
  split_all (b ∷ bs) = split_by_coinbase b ++ split_all bs

  split_entries : Entries Tx → Entries Tx
  split_entries [] = []
  split_entries ((k, bs) ∷ m) = (k, split_all bs) ∷ split_entries m

  unfoldable pub ensure_unique_coinbase : BatchMap Tx → BatchMap Tx
  unfolding split_entries split_all
  ensure_unique_coinbase m = record { inner = split_entries m.inner; reorg_reasons = [] }

  unfoldable pub into_vec : BatchMap Tx → List (Batch Tx)
  into_vec m = values m.inner

  unfoldable pub out_of_range : ℕ → ℕ → Batch Tx → Bool
  out_of_range min_ts max_ts b =
      any (λ x. ltb x.timestamp min_ts || ltb max_ts x.timestamp) b.blocks

  -- The loops of `retimestamp` over `should_retimestamp`.
  retimestamp_list : ℕ → ℕ → Bool → List (Batch Tx) → Bool × List (Batch Tx)
  retimestamp_list min_ts max_ts should [] = (should, [])
  retimestamp_list min_ts max_ts should (b ∷ bs) =
      let now = should || out_of_range min_ts max_ts b in
      let (should', rest) = retimestamp_list min_ts max_ts now bs in
      (should', (if now then set_all_blocks_timestamp b max_ts else b) ∷ rest)

  retimestamp_entries : ℕ → ℕ → Bool → Entries Tx → Bool × Entries Tx
  retimestamp_entries min_ts max_ts should [] = (should, [])
  retimestamp_entries min_ts max_ts should ((k, bs) ∷ m) =
      let (should', bs') = retimestamp_list min_ts max_ts should bs in
      let (should'', m') = retimestamp_entries min_ts max_ts should' m in (should'', (k, bs') ∷ m')

  pub retimestamp : BatchMap Tx → ℕ → ℕ → BatchMap Tx
  retimestamp m min_ts max_ts =
      let (should, inner) = retimestamp_entries min_ts max_ts false m.inner in
      record {
        inner = inner;
        reorg_reasons =
            if should
            then m.reorg_reasons ++ retimestamp_reason min_ts max_ts ∷ []
            else m.reorg_reasons;
      }

module _ {Tx : Type 0} (encoded_length : Tx → ℕ) (estimate : ℕ → ℕ) where
  -- The last batch of an entry takes the block; the batch that it hands back goes before it.
  grow : List (Batch Tx) → PreconfirmedBlock Tx → Header → Option (List (Batch Tx))
  grow [] x anchor = none
  grow (b ∷ []) x anchor =
      let (current, result) = add_block_and_reset_if_full encoded_length estimate b x anchor in
      some (handed_back result ++ current ∷ [])
  grow (b ∷ c ∷ bs) x anchor = elim (grow (c ∷ bs) x anchor) [ none ↦ none | some r ↦ some (b ∷ r) ]

  grow_entry :
      BatchSettings
      → PreconfirmedBlock Tx
      → Header
      → Option (List (Batch Tx))
      → Option (List (Batch Tx))
  grow_entry settings x anchor none = some (
      from_blocks_unchecked anchor (record settings { default_coinbase = x.coinbase }) (x ∷ [])
      ∷ [])
  grow_entry settings x anchor (some batches_by_anchor) = grow batches_by_anchor x anchor

  insert_block : BatchSettings → AnchoredBlock Tx → Entries Tx → Option (Entries Tx)
  insert_block settings b m =
      update_entry (anchored_id b) (grow_entry settings (into_preconfirmed b) b.anchor) m

  insert_blocks : BatchSettings → List (AnchoredBlock Tx) → Entries Tx → Option (Entries Tx)
  insert_blocks settings [] m = some m
  insert_blocks settings (b ∷ bs) m = elim (insert_block settings b m) [
    | none ↦ none
    | some m' ↦ insert_blocks settings bs m'
  ]

  unfoldable pub new : List (AnchoredBlock Tx) → BatchSettings → Option (BatchMap Tx)
  unfolding insert_blocks insert_block grow_entry grow update_entry with_entry sort_entries
      sort_batches
  new anchored_blocks settings = elim (insert_blocks settings anchored_blocks []) [
    | none ↦ none
    | some m ↦ elim (sort_entries m) [
      | none ↦ none
      | some sorted ↦ some (record { inner = sorted; reorg_reasons = [] })
    ]
  ]

  -- The loop of `reanchor` over `cursor`, which is inserted at its end.
  reassemble : Header → Batch Tx → List (PreconfirmedBlock Tx) → Entries Tx → Entries Tx
  reassemble safe_l1_anchor cursor [] m = push_at safe_l1_anchor.number cursor m
  reassemble safe_l1_anchor cursor (x ∷ xs) m =
      let (next, result) =
        add_block_and_reset_if_full encoded_length estimate cursor x safe_l1_anchor in
      reassemble safe_l1_anchor next xs
        (elim result [ added raw ↦ m | full reason b ↦ push_at (anchor_id b) b m ])

  pub reanchor : BatchMap Tx → ℕ → Header → BatchSettings → BatchMap Tx
  reanchor m min_proposable_anchor safe_l1_anchor settings =
      let kept : BatchMap Tx = record { inner = m.inner; reorg_reasons = [] } in
      let blocks = sort_by_key (λ x. x.number) (all_blocks (values m.inner)) in
      elim (min_anchor m) [
        | none ↦ kept
        | some min_anchor ↦
            if should_reanchor m min_proposable_anchor
            then record {
              inner = reassemble safe_l1_anchor (Batch.new safe_l1_anchor settings) blocks [];
              reorg_reasons = reanchor_reason min_anchor safe_l1_anchor.number ∷ [];
            }
            else kept
      ]
