-- ===== src/Download/Delivery.antt =====
-- What the whole download task of crates/driver/src/sync/soft_blocks.rs delivers.
use taiko_mk.Prelude.{ℕ, ◌+◌, ◌≤◌, ◌<◌, ◌≡◌, ◌≢◌, refl, ap, subst, ◌∙◌, arith, inl, inr}
use taiko_mk.Prelude.{
  Bool, true, false, Option, some, List, [], ◌∷◌, ◌==◌, if◌then◌else◌, length, sum_by, All,
  Bool-cases,
}
use taiko_mk.Batch.{Header}
use taiko_mk.Blocks.{Block}
use taiko_mk.Download.{
  BlockDownloadTask, Reply, not_ready, failed, arrived, Round, again, waits, ready_err, ready_ok,
}
use taiko_mk.Download.{
  get_mut, on_anchor, on_block, new, finish_round, poll_blocks, poll_round, unless_ready,
  poll_rounds,
}
use taiko_mk.Download.Conservation.{
  Cached-cases, weight, weight_out, weight_waiting, weight-on_anchor, weight-on_block, weight_one,
  weight_waiting_one, length-weight,
}
use taiko_mk.Download.Anchors.{IsAnchored, IsValid, on_anchor-IsValid, on_block-IsValid}

abbrev one : {Tx : Type 0} → Block Tx → ℕ
one b = 1

number_of : {Tx : Type 0} (bs : List (Block Tx)) → sum_by one bs ≡ length bs
number_of [] = refl
number_of (b ∷ bs) = omega (arith, number_of bs)

-- The blocks that arrive in the rounds.
abbrev pub arrivals : {E Tx : Type 0} → List (Reply E Header × Reply E (Block Tx)) → List (Block Tx)
arrivals [] = []
arrivals ((a, arrived b) ∷ rounds) = b ∷ arrivals rounds
arrivals ((a, not_ready) ∷ rounds) = arrivals rounds
arrivals ((a, failed e) ∷ rounds) = arrivals rounds

on_block_count :
    {Tx : Type 0} (id : ℕ) (b : Block Tx) (t : BlockDownloadTask Tx)
    → (on_block id b t).count ≡ t.count
unfolding on_block
on_block_count id b t = elim (Cached-cases (get_mut id t.anchor_cache)) [
  | inl e ↦ rw (e, on_block)
  | inr (inl (bs, e)) ↦ rw (e, on_block)
  | inr (inr (a, e)) ↦ rw (e, on_block)
]

module _ {Tx : Type 0} (anchor_block_id : Block Tx → Option ℕ) where
  -- Every block that arrives has an anchor transaction.
  abbrev pub HasAnchor : Block Tx → Type 0
  HasAnchor b = (k : ℕ) × (anchor_block_id b ≡ some k)

  -- The task is valid and its blocks weigh `n`, and `m` as a number of blocks.
  abbrev Keeps : (Block Tx → ℕ) → ℕ → ℕ → ℕ → BlockDownloadTask Tx → Type 0
  Keeps f count n m t =
      (weight f t ≡ n) × (weight one t ≡ m) × IsValid anchor_block_id t × (t.count ≡ count)

  module _ (E : Type 0) (f : Block Tx → ℕ) (count : ℕ) where
    -- After a round the task is ready exactly when it has put out `count` blocks.
    AfterRound : ℕ → ℕ → Round E Tx → Type 0
    AfterRound n m (again t) = Keeps f count n m t × (length t.out ≢ count)
    AfterRound n m (waits t) = Keeps f count n m t × (length t.out ≢ count)
    AfterRound n m (ready_err e) = Unit
    AfterRound n m (ready_ok bs) =
        (t : BlockDownloadTask Tx) × Keeps f count n m t × (t.out ≡ bs) × (length bs ≡ count)

    finish_round-AfterRound :
        (n m : ℕ) (progress : Bool) (t : BlockDownloadTask Tx)
        → Keeps f count n m t
        → AfterRound n m (finish_round anchor_block_id progress t)
    unfolding finish_round AfterRound
    finish_round-AfterRound n m progress t h = elim (Bool-cases (length t.out == t.count)) [
      | inl e ↦ rw (e, finish_round) (t, h, refl, ground arith)
      | inr e ↦ rw (e, finish_round) (going progress (ground arith))
    ]
      where
        going : (p : Bool) → length t.out ≢ count → AfterRound n m (if p then again t else waits t)
        going true d = (h, d)
        going false d = (h, d)

    -- The weight that a reply brings.
    abbrev brings : (Block Tx → ℕ) → Reply E (Block Tx) → ℕ
    brings g (arrived b) = g b
    brings g not_ready = 0
    brings g (failed e) = 0

    abbrev Named : Reply E (Block Tx) → Type 0
    Named (arrived b) = HasAnchor b
    Named not_ready = Unit
    Named (failed e) = Unit

    poll_blocks-AfterRound :
        (n m : ℕ) (blocks : Reply E (Block Tx)) (progress : Bool) (t : BlockDownloadTask Tx)
        → Named blocks
        → Keeps f count n m t
        → AfterRound
            (n + brings f blocks)
            (m + brings one blocks)
            (poll_blocks anchor_block_id blocks progress t)
    unfolding poll_blocks
    poll_blocks-AfterRound n m not_ready progress t h k =
        finish_round-AfterRound _ _ progress t (omega (arith, k.0), omega (arith, k.1), k.2, k.3)
    poll_blocks-AfterRound n m (failed e) progress t h k = unfold AfterRound in tt
    poll_blocks-AfterRound n m (arrived b) progress t (id, names) k =
        rw (names, poll_blocks)
          (finish_round-AfterRound _ _ true (on_block id b t) (
            omega (arith, k.0, weight-on_block f id b t),
            omega (arith, k.1, weight-on_block one id b t),
            on_block-IsValid anchor_block_id id b t names k.2,
            on_block_count id b t ∙ k.3,
          ))

    poll_round-AfterRound :
        (n m : ℕ) (anchors : Reply E Header) (blocks : Reply E (Block Tx))
        (t : BlockDownloadTask Tx)
        → Named blocks
        → Keeps f count n m t
        → AfterRound
            (n + brings f blocks)
            (m + brings one blocks)
            (poll_round anchor_block_id anchors blocks t)
    unfolding poll_round
    poll_round-AfterRound n m not_ready blocks t h k = poll_blocks-AfterRound n m blocks false t h k
    poll_round-AfterRound n m (failed e) blocks t h k = unfold AfterRound in tt
    poll_round-AfterRound n m (arrived a) blocks t h k =
        poll_blocks-AfterRound n m blocks true (on_anchor a t) h (
          weight-on_anchor f a t ∙ k.0,
          weight-on_anchor one a t ∙ k.1,
          on_anchor-IsValid anchor_block_id a t k.2,
          unfold on_anchor in k.3,
        )

    Named-of_arrivals :
        (a : Reply E Header) (b : Reply E (Block Tx))
        (rounds : List (Reply E Header × Reply E (Block Tx)))
        → All HasAnchor (arrivals ((a, b) ∷ rounds))
        → Named b × All HasAnchor (arrivals rounds)
    Named-of_arrivals a (arrived b) rounds h = h
    Named-of_arrivals a not_ready rounds h = (tt, h)
    Named-of_arrivals a (failed e) rounds h = (tt, h)

    brings_of :
        (g : Block Tx → ℕ) (a : Reply E Header) (b : Reply E (Block Tx))
        (rounds : List (Reply E Header × Reply E (Block Tx)))
        → sum_by g (arrivals ((a, b) ∷ rounds)) ≡ brings g b + sum_by g (arrivals rounds)
    brings_of g a (arrived b) rounds = refl
    brings_of g a not_ready rounds = omega arith
    brings_of g a (failed e) rounds = omega arith

    -- What the task has delivered in the end, of blocks of the weight `n`.
    abbrev pub Delivers : ℕ → Round E Tx → Type 0
    Delivers n (again t) = ⊥
    Delivers n (waits t) = (weight f t ≡ n) × (length t.out ≢ count)
    Delivers n (ready_err e) = Unit
    Delivers n (ready_ok bs) = (weight_out f bs ≡ n) × All (IsAnchored anchor_block_id) bs

    -- A task that is ready with `count` blocks has none waiting, if at most `count` arrive.
    unless_ready-Delivers :
        (n m : ℕ) (future : List (Block Tx)) (rest : BlockDownloadTask Tx → Round E Tx)
        (r : Round E Tx)
        → AfterRound n m r
        → m + sum_by one future ≤ count
        → ((t : BlockDownloadTask Tx)
            → Keeps f count n m t
            → length t.out ≢ count
            → Delivers (n + sum_by f future) (rest t))
        → Delivers (n + sum_by f future) (unless_ready anchor_block_id rest r)
    unfolding unless_ready AfterRound
    unless_ready-Delivers n m future rest (again t) (k, d) fits go = go t k d
    unless_ready-Delivers n m future rest (waits t) (k, d) fits go = go t k d
    unless_ready-Delivers n m future rest (ready_err e) h fits go = tt
    unless_ready-Delivers n m future rest (ready_ok bs) (t, k, e, l) fits go = (
      omega (
        arith,
        k.0,
        ap (weight_out f) e,
        weight_waiting_one f t.anchor_cache none_left.0,
        weight_one f future none_left.1,
      ),
      subst (All (IsAnchored anchor_block_id)) e k.2.0,
    )
      where
        none_left : (weight_waiting one t.anchor_cache ≡ 0) × (sum_by one future ≡ 0)
        none_left = omega (arith, k.1, length-weight t.out, ap length e)

    poll_rounds-Delivers :
        (n m : ℕ) (rounds : List (Reply E Header × Reply E (Block Tx))) (t : BlockDownloadTask Tx)
        → All HasAnchor (arrivals rounds)
        → Keeps f count n m t
        → length t.out ≢ count
        → m + sum_by one (arrivals rounds) ≤ count
        → Delivers (n + sum_by f (arrivals rounds)) (poll_rounds anchor_block_id rounds t)
    unfolding poll_rounds
    poll_rounds-Delivers n m [] t h k d fits = (omega (arith, k.0), d)
    poll_rounds-Delivers n m ((a, b) ∷ rounds) t h k d fits =
        rw (brings_of f a b rounds, sum)
          (unless_ready-Delivers (n + brings f b) (m + brings one b) (arrivals rounds)
            (poll_rounds anchor_block_id rounds) (poll_round anchor_block_id a b t)
            (poll_round-AfterRound n m a b t (Named-of_arrivals a b rounds h).0 k)
            (omega (arith, brings_of one a b rounds))
            (λ t' k' d'.
              poll_rounds-Delivers (n + brings f b) (m + brings one b) rounds t'
                (Named-of_arrivals a b rounds h).1 k' d' (omega (arith, brings_of one a b rounds))))
      where
        sum :
            n + (brings f b + sum_by f (arrivals rounds))
            ≡ n + brings f b + sum_by f (arrivals rounds)
        sum = omega arith

  -- A download of `count` blocks, of which at most `count` arrive, each with an anchor transaction.
  -- When it is ready without an error, its result holds exactly the blocks that arrived, each as
  -- often as it arrived (by any weight of blocks), and each with the anchor that it names. While it
  -- is not ready, no block that arrived is lost: it is in the output or waits for its anchor.
  pub poll_rounds_lem :
      (E : Type 0) (f : Block Tx → ℕ) (count : ℕ)
      (rounds : List (Reply E Header × Reply E (Block Tx)))
      → 0 < count
      → All HasAnchor (arrivals rounds)
      → length (arrivals rounds) ≤ count
      → Delivers E f count
          (sum_by f (arrivals rounds))
          (poll_rounds anchor_block_id rounds (new count))
  poll_rounds_lem E f count rounds pos h fits =
      subst (λ (n : ℕ). Delivers E f count n (poll_rounds anchor_block_id rounds (new count)))
        (omega arith)
        (poll_rounds-Delivers E f count 0 0 rounds (new count) h
          (unfold new in (refl, refl, (tt, tt), refl)) (unfold new in omega arith)
          (omega (arith, number_of (arrivals rounds))))
