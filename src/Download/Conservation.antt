-- ===== src/Download/Conservation.antt =====
-- The download of crates/driver/src/sync/soft_blocks.rs loses no block, repeats none, and gives each
-- block its own anchor.
use taiko_mk.Prelude.{ℕ, ◌+◌, ◌≡◌, refl, arith, ◌⊎◌, inl, inr}
use taiko_mk.Prelude.{Option, none, some, List, [], ◌∷◌, ◌++◌, map, length, sum_by, sum_by-append}
use taiko_mk.Batch.{Header}
use taiko_mk.Blocks.{Block, AnchoredBlock}
use taiko_mk.Download.{AnchorState, pending, available, AnchorCache, BlockDownloadTask}
use taiko_mk.Download.{
  get_mut, insert, insert_pending, insert_anchor, anchored, on_anchor, on_block,
}

pub Cached-cases :
    {Tx : Type 0} (o : Option (AnchorState Tx))
    → (o ≡ none)
      ⊎ (((bs : List (Block Tx)) × (o ≡ some (pending bs)))
          ⊎ ((a : Header) × (o ≡ some (available a))))
Cached-cases none = inl refl
Cached-cases (some (pending bs)) = inr (inl (bs, refl))
Cached-cases (some (available a)) = inr (inr (a, refl))

pub insert_pending_new :
    {Tx : Type 0} (n : ℕ) (b : Block Tx) (c : AnchorCache Tx)
    → get_mut n c ≡ none
    → insert_pending n b c ≡ insert n (pending (b ∷ [])) c
unfolding insert_pending
insert_pending_new n b c e = rw (e, insert_pending)

module _ {Tx : Type 0} (f : Block Tx → ℕ) where
  -- The weight of the blocks that wait under an anchor.
  abbrev pub weight_of : Option (AnchorState Tx) → ℕ
  weight_of none = 0
  weight_of (some (pending bs)) = sum_by f bs
  weight_of (some (available a)) = 0

  abbrev pub weight_waiting : AnchorCache Tx → ℕ
  weight_waiting [] = 0
  weight_waiting ((k, s) ∷ c) = weight_of (some s) + weight_waiting c

  abbrev pub weight_out : List (AnchoredBlock Tx) → ℕ
  weight_out bs = sum_by (λ (b : AnchoredBlock Tx). f b.block) bs

  abbrev pub weight : BlockDownloadTask Tx → ℕ
  weight t = weight_out t.out + weight_waiting t.anchor_cache

  -- An insertion takes the place of what the key held.
  weight-insert :
      (n : ℕ) (s : AnchorState Tx) (c : AnchorCache Tx)
      → weight_waiting (insert n s c) + weight_of (get_mut n c)
        ≡ weight_waiting c + weight_of (some s)
  unfolding insert get_mut
  weight-insert n s [] = omega arith
  weight-insert n s ((k, old) ∷ c) = ground (arith, weight-insert n s c)

  weight-map-anchored :
      (a : Header) (bs : List (Block Tx)) → weight_out (map (anchored a) bs) ≡ sum_by f bs
  weight-map-anchored a [] = refl
  weight-map-anchored a (b ∷ bs) = omega (arith, weight-map-anchored a bs)

  weight-insert_anchor :
      (a : Header) (c : AnchorCache Tx)
      → sum_by f (insert_anchor a c).0 + weight_waiting (insert_anchor a c).1 ≡ weight_waiting c
  unfolding insert_anchor
  weight-insert_anchor a c = elim (Cached-cases (get_mut a.number c)) [
    | inl e ↦ rw (e, insert_anchor) (omega arith)
    | inr (inl (bs, e)) ↦
        rw (e, insert_anchor) (omega (arith, rw e at (weight-insert a.number (available a) c)))
    | inr (inr (h, e)) ↦ rw (e, insert_anchor) (omega arith)
  ]

  pub weight-on_anchor : (a : Header) (t : BlockDownloadTask Tx) → weight (on_anchor a t) ≡ weight t
  unfolding on_anchor
  weight-on_anchor a t = omega (
    arith,
    sum_by-append (λ (b : AnchoredBlock Tx). f b.block) t.out
        (map (anchored a) (insert_anchor a t.anchor_cache).0),
    weight-map-anchored a (insert_anchor a t.anchor_cache).0,
    weight-insert_anchor a t.anchor_cache,
  )

  pub weight-on_block :
      (anchor_id : ℕ) (b : Block Tx) (t : BlockDownloadTask Tx)
      → weight (on_block anchor_id b t) ≡ weight t + f b
  unfolding on_block insert_pending
  weight-on_block anchor_id b t = elim (Cached-cases (get_mut anchor_id t.anchor_cache)) [
    | inl e ↦
        rw (e, on_block, insert_pending_new anchor_id b t.anchor_cache e)
          (omega (arith, rw e at (weight-insert anchor_id (pending (b ∷ [])) t.anchor_cache)))
    | inr (inl (bs, e)) ↦
        rw (e, on_block)
          (omega (
            arith,
            sum_by-append f bs (b ∷ []),
            rw e at (weight-insert anchor_id (pending (bs ++ (b ∷ []))) t.anchor_cache),
          ))
    | inr (inr (h, e)) ↦
        rw (e, on_block)
          (omega
            (arith, sum_by-append (λ (b : AnchoredBlock Tx). f b.block) t.out (anchored h b ∷ [])))
  ]

-- Where nothing waits, nothing has a weight.
pub weight_one :
    {Tx : Type 0} (f : Block Tx → ℕ) (bs : List (Block Tx))
    → sum_by (λ (b : Block Tx). 1) bs ≡ 0
    → sum_by f bs ≡ 0
weight_one f [] h = refl
weight_one f (b ∷ bs) h = absurd (omega arith)

pub weight_waiting_one :
    {Tx : Type 0} (f : Block Tx → ℕ) (c : AnchorCache Tx)
    → weight_waiting (λ (b : Block Tx). 1) c ≡ 0
    → weight_waiting f c ≡ 0
weight_waiting_one f [] h = refl
weight_waiting_one f ((k, pending bs) ∷ c) h =
    omega (arith, weight_one f bs (omega arith), weight_waiting_one f c (omega arith))
weight_waiting_one f ((k, available a) ∷ c) h = omega (arith, weight_waiting_one f c (omega arith))

pub length-weight :
    {Tx : Type 0} (bs : List (AnchoredBlock Tx)) → weight_out (λ (b : Block Tx). 1) bs ≡ length bs
length-weight [] = refl
length-weight (b ∷ bs) = omega (arith, length-weight bs)
