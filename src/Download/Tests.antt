-- ===== src/Download/Tests.antt =====
-- A run of crates/driver/src/sync/soft_blocks.rs: two blocks with one anchor.
use taiko_mk.Prelude.{ℕ, ◌/◌, ◌≡◌, refl, arith, Option, some, List, [], ◌∷◌, sum_by}
use taiko_mk.Batch.{Header}
use taiko_mk.Blocks.{Block}
use taiko_mk.Samples.{header}
use taiko_mk.Download.{
  Reply, not_ready, arrived, ready_ok, new, poll_rounds, poll_round, poll_blocks, finish_round,
  unless_ready, on_anchor, on_block, insert_anchor, insert_pending, get_mut, insert, anchored,
}
use taiko_mk.Download.Delivery.{arrivals, Delivers, poll_rounds_lem}

abbrev l2_block : ℕ → Block ℕ
l2_block n = record { header = header n; transactions = [] }

abbrev half_id : Block ℕ → Option ℕ
half_id b = some (b.header.number / 2)

abbrev rounds : List (Reply ℕ Header × Reply ℕ (Block ℕ))
rounds =
    (not_ready, arrived (l2_block 10))
    ∷ (not_ready, not_ready)
    ∷ (arrived (header 5), arrived (l2_block 11))
    ∷ []

poll_rounds_test :
    poll_rounds half_id rounds (new 2)
    ≡ ready_ok (anchored (header 5) (l2_block 10) ∷ anchored (header 5) (l2_block 11) ∷ [])
unfolding poll_rounds poll_round poll_blocks finish_round unless_ready on_anchor on_block
    insert_anchor insert_pending get_mut insert new
poll_rounds_test = refl

abbrev number_of_block : Block ℕ → ℕ
number_of_block b = b.header.number

poll_rounds_lem_example :
    Delivers half_id ℕ number_of_block 2
      (sum_by number_of_block (arrivals rounds))
      (poll_rounds half_id rounds (new 2))
poll_rounds_lem_example =
    poll_rounds_lem half_id ℕ number_of_block 2 rounds (omega arith) ((5, refl), ((5, refl), tt))
      (omega arith)
