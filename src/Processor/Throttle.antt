-- ===== src/Processor/Throttle.antt =====
-- The bound on the next block's size: crates/driver/src/batch_submitter/processor.rs.
use native.Mathlib.Nat.{div-le_self}
use taiko_mk.Prelude.{
  ℕ, zero, suc, [], if◌then◌else◌, leb, length-append, ◌+◌, ◌/◌, ◌≤◌, ◌<◌, ◌≡◌, refl, ap, ◌∙◌, ◌++◌,
  ◌∷◌, length, arith, saturating_sub,
}
use taiko_mk.Batch.{Batch}
use taiko_mk.Processor.{
  BatchSubmissionProcessor, da_throttle_threshold, throttle, calc_max_next_block_size,
}

throttle-le : (factor n size : ℕ) → throttle factor n size ≤ size
unfolding throttle
throttle-le factor zero size = omega arith
throttle-le factor (suc n) size =
    omega (arith, throttle-le factor n (saturating_sub size (size / factor)))

throttle-suc :
    (factor n size : ℕ)
    → throttle factor (suc n) size
      ≡ saturating_sub (throttle factor n size) (throttle factor n size / factor)
unfolding throttle
throttle-suc factor zero size = refl
throttle-suc factor (suc n) size = throttle-suc factor n (saturating_sub size (size / factor))

throttle-add_one :
    (factor n size : ℕ)
    → throttle factor (n + 1) size
      ≡ saturating_sub (throttle factor n size) (throttle factor n size / factor)
throttle-add_one factor n size =
    ap (λ k. throttle factor k size) (omega arith) ∙ throttle-suc factor n size

throttle-length :
    (factor n size : ℕ)
    → (if leb da_throttle_threshold n then throttle factor n size else size)
      ≡ throttle factor n size
unfolding throttle
throttle-length factor zero size = refl
throttle-length factor (suc n) size = ground arith

module _ {Tx Receipt Error : Type 0} where
  -- The suggested size is at most the configured one, and a batch that joins the queue takes the
  -- share that the factor says off it. The factor is not zero.
  calc_max_next_block_size_lem :
      (p : BatchSubmissionProcessor Tx Receipt Error) (batch : Batch Tx) (deadline : ℕ)
      → 0 < p.da_throttling_factor
      → let longer : BatchSubmissionProcessor Tx Receipt Error = record p {
        request_queue = p.request_queue ++ (batch, deadline) ∷ [];
      } in
        let size = calc_max_next_block_size p in
        (size ≤ p.max_block_size)
        × (calc_max_next_block_size longer + size / p.da_throttling_factor ≡ size)
  unfolding calc_max_next_block_size
  calc_max_next_block_size_lem p batch deadline pos =
      let factor = p.da_throttling_factor in
      let queue_size = length p.request_queue in
      rw
        (
          throttle-length factor queue_size p.max_block_size,
          throttle-length factor (length (p.request_queue ++ (batch, deadline) ∷ []))
              p.max_block_size,
          length-append p.request_queue ((batch, deadline) ∷ []),
        )
        (
          throttle-le factor queue_size p.max_block_size,
          omega (
            arith,
            throttle-add_one factor queue_size p.max_block_size,
            div-le_self (throttle factor queue_size p.max_block_size) factor,
          ),
        )
