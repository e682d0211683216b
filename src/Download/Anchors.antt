-- ===== src/Download/Anchors.antt =====
-- Each block of the download in crates/driver/src/sync/soft_blocks.rs waits for the anchor that it
-- names, and gets it.
use taiko_mk.Prelude.{ℕ, ◌≡◌, refl, sym, ap, subst, ◌∙◌, arith, inl, inr}
use taiko_mk.Prelude.{
  true, Option, none, some, List, [], ◌∷◌, ◌++◌, map, ◌==◌, All, All-append, Bool-cases,
}
use taiko_mk.Batch.{Header}
use taiko_mk.Blocks.{Block, AnchoredBlock}
use taiko_mk.Download.{AnchorState, pending, available, AnchorCache, BlockDownloadTask}
use taiko_mk.Download.{get_mut, insert, insert_anchor, anchored, on_anchor, on_block}
use taiko_mk.Download.Conservation.{Cached-cases, insert_pending_new}

same : (n k : ℕ) → (n == k) ≡ true → n ≡ k
same n k e = ground arith

module _ {Tx : Type 0} (anchor_block_id : Block Tx → Option ℕ) where
  -- The anchor is the one that the block names.
  abbrev pub IsAnchored : AnchoredBlock Tx → Type 0
  IsAnchored b = anchor_block_id b.block ≡ some b.anchor.number

  abbrev pub Found : ℕ → Option (AnchorState Tx) → Type 0
  Found k none = Unit
  Found k (some (pending bs)) = All (λ b. anchor_block_id b ≡ some k) bs
  Found k (some (available a)) = a.number ≡ k

  abbrev pub CacheIsValid : AnchorCache Tx → Type 0
  CacheIsValid [] = Unit
  CacheIsValid ((k, s) ∷ c) = Found k (some s) × CacheIsValid c

  abbrev pub IsValid : BlockDownloadTask Tx → Type 0
  IsValid t = All IsAnchored t.out × CacheIsValid t.anchor_cache

  get_mut-Found : (n : ℕ) (c : AnchorCache Tx) → CacheIsValid c → Found n (get_mut n c)
  unfolding get_mut
  get_mut-Found n [] h = tt
  get_mut-Found n ((k, s) ∷ c) h = elim (Bool-cases (n == k)) [
    | inl e ↦ rw (e, get_mut) (subst (λ (m : ℕ). Found m (some s)) (sym (same n k e)) h.0)
    | inr e ↦ rw (e, get_mut) (get_mut-Found n c h.1)
  ]

  insert-CacheIsValid :
      (n : ℕ) (s : AnchorState Tx) (c : AnchorCache Tx)
      → Found n (some s)
      → CacheIsValid c
      → CacheIsValid (insert n s c)
  unfolding insert
  insert-CacheIsValid n s [] h hc = (h, tt)
  insert-CacheIsValid n s ((k, old) ∷ c) h hc = elim (Bool-cases (n == k)) [
    | inl e ↦ rw (e, insert) (subst (λ (m : ℕ). Found m (some s)) (same n k e) h, hc.1)
    | inr e ↦ rw (e, insert) (hc.0, insert-CacheIsValid n s c h hc.1)
  ]

  All-map-anchored :
      (a : Header) (bs : List (Block Tx))
      → All (λ b. anchor_block_id b ≡ some a.number) bs
      → All IsAnchored (map (anchored a) bs)
  All-map-anchored a [] h = tt
  All-map-anchored a (b ∷ bs) h = (h.0, All-map-anchored a bs h.1)

  pub on_anchor-IsValid :
      (a : Header) (t : BlockDownloadTask Tx) → IsValid t → IsValid (on_anchor a t)
  unfolding on_anchor insert_anchor
  on_anchor-IsValid a t h = elim (Cached-cases (get_mut a.number t.anchor_cache)) [
    | inl e ↦ rw (e, insert_anchor) (All-append IsAnchored t.out [] h.0 tt, h.1)
    | inr (inl (bs, e)) ↦
        rw (e, insert_anchor)
          (
            All-append IsAnchored t.out (map (anchored a) bs) h.0
                (All-map-anchored a bs (rw e at (get_mut-Found a.number t.anchor_cache h.1))),
            insert-CacheIsValid a.number (available a) t.anchor_cache refl h.1,
          )
    | inr (inr (x, e)) ↦ rw (e, insert_anchor) (All-append IsAnchored t.out [] h.0 tt, h.1)
  ]

  pub on_block-IsValid :
      (anchor_id : ℕ) (b : Block Tx) (t : BlockDownloadTask Tx)
      → anchor_block_id b ≡ some anchor_id
      → IsValid t
      → IsValid (on_block anchor_id b t)
  unfolding on_block
  on_block-IsValid anchor_id b t names h = elim (Cached-cases (get_mut anchor_id t.anchor_cache)) [
    | inl e ↦
        rw (e, on_block, insert_pending_new anchor_id b t.anchor_cache e)
          (h.0, insert-CacheIsValid anchor_id (pending (b ∷ [])) t.anchor_cache (names, tt) h.1)
    | inr (inl (bs, e)) ↦
        rw (e, on_block)
          (
            h.0,
            insert-CacheIsValid anchor_id (pending (bs ++ (b ∷ []))) t.anchor_cache
                (All-append (λ x. anchor_block_id x ≡ some anchor_id) bs (b ∷ [])
                  (rw e at (get_mut-Found anchor_id t.anchor_cache h.1)) (names, tt))
                h.1,
          )
    | inr (inr (x, e)) ↦
        rw (e, on_block)
          (
            All-append IsAnchored t.out (anchored x b ∷ []) h.0
                (names ∙ ap some (sym (rw e at (get_mut-Found anchor_id t.anchor_cache h.1))), tt),
            h.1,
          )
  ]
