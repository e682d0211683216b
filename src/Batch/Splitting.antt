-- ===== src/Batch/Splitting.antt =====
-- Splitting a batch by coinbase, and popping the outstanding one:
-- crates/primitives/src/taiko/batch.rs.
use mathlib.Core.List.{append_assoc}
use taiko_mk.Prelude.{
  ◌≡◌, ◌≢◌, refl, sym, ap, ◌∙◌, ◌⊎◌, inl, inr, false, Option, none, some, List, [], ◌∷◌, ◌++◌,
  arith, ◌==◌, Bool-cases, is_nil, last?, All, All-append,
}
use taiko_mk.Config.{Address}
use taiko_mk.Batch.{
  PreconfirmedBlock, Batch, new, change_coinbase, split_from, split_by_coinbase, pop_with_coinbase,
}
use taiko_mk.Batch.Adding.{all_blocks}

module _ {Tx : Type 0} where
  -- Every block has the coinbase of the batch.
  abbrev pub IsUniform : Batch Tx → Type 0
  IsUniform b = All (λ x. x.coinbase ≡ b.coinbase) b.blocks

  -- From batch to batch the coinbase changes, the one before the first being `a`.
  abbrev pub ChangesAfter : Address → List (Batch Tx) → Type 0
  ChangesAfter a [] = Unit
  ChangesAfter a (b ∷ bs) = (a ≢ b.coinbase) × ChangesAfter b.coinbase bs

  abbrev pub Changes : List (Batch Tx) → Type 0
  Changes [] = Unit
  Changes (b ∷ bs) = ChangesAfter b.coinbase bs

  abbrev StartsWith : Address → List (Batch Tx) → Type 0
  StartsWith a [] = ⊥
  StartsWith a (b ∷ bs) = b.coinbase ≡ a

  follows :
      (a c : Address) (bs : List (Batch Tx))
      → a ≢ c
      → StartsWith c bs × Changes bs
      → ChangesAfter a bs
  follows a c [] ne h = tt
  follows a c (b ∷ bs) ne h = ((λ e. ne (e ∙ h.0)), h.1)

  -- A part of a batch: from its anchor and settings, one coinbase for all its blocks, and not
  -- empty.
  pub record IsPart (b c : Batch Tx) : Type 0 where
    pub same_anchor : c.anchor_block ≡ b.anchor_block
    pub same_settings : c.settings ≡ b.settings
    pub uniform : IsUniform c
    pub filled : is_nil c.blocks ≡ false

  module _ (b : Batch Tx) where
    -- The batch that the loop goes on with at a block.
    abbrev extended : Batch Tx → PreconfirmedBlock Tx → Batch Tx
    extended c x = record c { blocks = c.blocks ++ x ∷ [] }

    abbrev fresh : PreconfirmedBlock Tx → Batch Tx
    fresh x = change_coinbase (new b.anchor_block b.settings) x.coinbase

    is_nil-append :
        (xs : List (PreconfirmedBlock Tx)) (x : PreconfirmedBlock Tx)
        → is_nil (xs ++ x ∷ []) ≡ false
    is_nil-append [] x = refl
    is_nil-append (y ∷ ys) x = refl

    all_blocks-split_from :
        (c : Batch Tx) (xs : List (PreconfirmedBlock Tx))
        → all_blocks (split_from b.anchor_block b.settings c xs) ≡ c.blocks ++ xs
    unfolding split_from change_coinbase new
    all_blocks-split_from c [] = refl
    all_blocks-split_from c (x ∷ xs) = elim (Bool-cases (c.coinbase == x.coinbase)) [
      | inl e ↦ rw e (all_blocks-split_from (extended c x) xs ∙ append_assoc c.blocks (x ∷ []) xs)
      | inr e ↦ rw e (ap (◌++◌ c.blocks) (all_blocks-split_from (extended (fresh x) x) xs))
    ]

    split_from-IsPart :
        (c : Batch Tx) (xs : List (PreconfirmedBlock Tx))
        → IsPart b c
        → All (IsPart b) (split_from b.anchor_block b.settings c xs)
    unfolding split_from change_coinbase new
    split_from-IsPart c [] p = (p, tt)
    split_from-IsPart c (x ∷ xs) p = elim (Bool-cases (c.coinbase == x.coinbase)) [
      | inl e ↦ rw e (
          split_from-IsPart (extended c x) xs (record {
            same_anchor = p.same_anchor;
            same_settings = p.same_settings;
            uniform = All-append _ c.blocks (x ∷ []) p.uniform (ground arith);
            filled = is_nil-append c.blocks x;
          }))
      | inr e ↦ rw e (
          (
            p,
            split_from-IsPart (extended (fresh x) x) xs (record {
              same_anchor = refl;
              same_settings = refl;
              uniform = (refl, tt);
              filled = refl;
            }),
          ))
    ]

    split_from-Changes :
        (c : Batch Tx) (xs : List (PreconfirmedBlock Tx))
        → StartsWith c.coinbase (split_from b.anchor_block b.settings c xs)
          × Changes (split_from b.anchor_block b.settings c xs)
    unfolding split_from change_coinbase new
    split_from-Changes c [] = (refl, tt)
    split_from-Changes c (x ∷ xs) = elim (Bool-cases (c.coinbase == x.coinbase)) [
      | inl e ↦ rw e (split_from-Changes (extended c x) xs)
      | inr e ↦ rw e (
        refl,
        follows c.coinbase x.coinbase _ (ground arith)
            (split_from-Changes (extended (fresh x) x) xs),
      )
    ]

  split_by_coinbase_cons :
      (b : Batch Tx) (x : PreconfirmedBlock Tx) (xs : List (PreconfirmedBlock Tx))
      → b.blocks ≡ x ∷ xs
      → split_by_coinbase b ≡ split_from b.anchor_block b.settings (extended b (fresh b x) x) xs
  unfolding split_by_coinbase split_from change_coinbase new
  split_by_coinbase_cons b x xs h = ground arith

  split_by_coinbase_nil : (b : Batch Tx) → b.blocks ≡ [] → split_by_coinbase b ≡ []
  unfolding split_by_coinbase
  split_by_coinbase_nil b h = ground arith

  -- The parts, joined, are the blocks of the batch; each part keeps the anchor and the settings, is
  -- not empty and has one coinbase for all its blocks; and the coinbase changes from each part to
  -- the next, so that no block is split off needlessly.
  pub split_by_coinbase_lem :
      (b : Batch Tx)
      → (all_blocks (split_by_coinbase b) ≡ b.blocks)
        × All (IsPart b) (split_by_coinbase b)
        × Changes (split_by_coinbase b)
  split_by_coinbase_lem b = go b.blocks refl
    where
      go :
          (xs : List (PreconfirmedBlock Tx))
          → b.blocks ≡ xs
          → (all_blocks (split_by_coinbase b) ≡ b.blocks)
            × All (IsPart b) (split_by_coinbase b)
            × Changes (split_by_coinbase b)
      go [] h = rw (split_by_coinbase_nil b h) (sym h, tt, tt)
      go (x ∷ xs) h =
          let c : Batch Tx = extended b (fresh b x) x in
          rw (split_by_coinbase_cons b x xs h) (
            all_blocks-split_from b c xs ∙ (unfold change_coinbase new in sym h),
            split_from-IsPart b c xs (
                unfold change_coinbase new in
                record {
                  same_anchor = refl;
                  same_settings = refl;
                  uniform = (refl, tt);
                  filled = refl;
                }),
            (split_from-Changes b c xs).1,
          )

  -- What a pop at a coinbase may return.
  abbrev pub Pops : Address → List (Batch Tx) → List (Batch Tx) × Option (Batch Tx) → Type 0
  Pops coinbase bs (rest, popped) =
      ((popped ≡ none) × (rest ≡ bs) × ((b : Batch Tx) → last? bs ≡ some b → b.coinbase ≢ coinbase))
      ⊎ ((b : Batch Tx) × (popped ≡ some b) × (bs ≡ rest ++ b ∷ []) × (b.coinbase ≡ coinbase))

  Pops-cons :
      (b c : Batch Tx) (bs : List (Batch Tx)) (coinbase : Address)
      (r : List (Batch Tx) × Option (Batch Tx))
      → Pops coinbase (c ∷ bs) r
      → Pops coinbase (b ∷ c ∷ bs) (b ∷ r.0, r.1)
  Pops-cons b c bs coinbase (rest, popped) (inl (e, same, other)) = inl (e, ap (◌∷◌ b) same, other)
  Pops-cons b c bs coinbase (rest, popped) (inr (d, e, parts, own)) =
      inr (d, e, ap (◌∷◌ b) parts, own)

  -- The last batch is popped exactly when it has the coinbase; if it has not, or if there is none,
  -- the batches stay as they were.
  pub pop_with_coinbase-Pops :
      (bs : List (Batch Tx)) (coinbase : Address) → Pops coinbase bs (pop_with_coinbase bs coinbase)
  unfolding pop_with_coinbase
  pop_with_coinbase-Pops [] coinbase = inl (refl, refl, λ b e. cc)
  pop_with_coinbase-Pops (b ∷ []) coinbase = elim (Bool-cases (b.coinbase == coinbase)) [
    | inl e ↦ rw e (inr (b, refl, refl, ground arith))
    | inr e ↦ rw e (inl (refl, refl, λ d h. ground arith))
  ]
  pop_with_coinbase-Pops (b ∷ c ∷ bs) coinbase =
      Pops-cons b c bs coinbase (pop_with_coinbase (c ∷ bs) coinbase)
        (pop_with_coinbase-Pops (c ∷ bs) coinbase)
