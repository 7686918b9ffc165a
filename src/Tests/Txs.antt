-- ===== src/Tests/Txs.antt =====
-- The verifiers of transactions.
use ckb_miner_opt.Base.{
  ℕ, ◌-◌, ◌*◌, ◌≤◌, ◌<◌, ◌≡◌, refl, ◌↔◌, ◌⊎◌, true, none, some, [], ◌∷◌, arith, All, ltb,
  ℕ_discrete, if◌then◌else◌,
}
use ckb_miner_opt.Base.Outcome.{Outcome, ok}
use ckb_miner_opt.Core.Cell.{ResolvedTransaction, cell_only}
use ckb_miner_opt.Core.Transaction.{new_cell}
use ckb_miner_opt.Verify.Error.{TransactionError}
use ckb_miner_opt.Verify.Since.{SinceContext, verify, extract_metric, flags_is_valid, is_absolute}
use ckb_miner_opt.Verify.Since.Later.{Grown, Later}
use ckb_miner_opt.Verify.Since.Mono.{verify_mono}
use ckb_miner_opt.Verify.Tx.{TxLimits, verify_capacity, is_exempt}
use ckb_miner_opt.Verify.Tx.Balance.{Balances, Pays, verify_capacity_iff}
use ckb_miner_opt.Verify.Tx.Accepted.{Accepted}
use ckb_miner_opt.Tests.Data.{live_cell, hash_of, transaction, output, second_resolved}
use ckb_miner_opt.Verify.MedianTime.{MedianTimeContext, block_median_time}

verify_capacity_iff_example : (verify_capacity second_resolved ≡ ok tt) ↔ (
    ((is_exempt second_resolved ≡ true) ⊎ Balances second_resolved)
    × All Pays second_resolved.transaction.outputs)
verify_capacity_iff_example = verify_capacity_iff second_resolved

-- Spends a cell of block 3 no earlier than ten blocks later.
abbrev locked : ResolvedTransaction
locked = record {
  transaction =
      transaction 4 []
        (record { previous_output = new_cell (hash_of 1) 0; since = 0x8000_0000_0000_000a } ∷ [])
        (output ∷ []);
  resolved_deps = [];
  resolved_inputs =
      cell_only (record live_cell { block_info = some (record { number = 3; epoch = 0 }) }) ∷ [];
}

-- Before block `n` only the blocks below it are known.
abbrev known_below : ℕ → MedianTimeContext
known_below n = record {
  median_block_count = 3;
  timestamp_and_parent = λ hash. if ltb hash n then some (hash * 10, hash - 1) else none;
  get_block_hash = λ k. if ltb k n then some k else none;
}

abbrev pub at : ℕ → SinceContext
at n = record { median = known_below n; block_number = n; epoch_number = 0 }

abbrev pub limits : TxLimits
limits = record { max_block_bytes = 2_000_000; cellbase_maturity = 100 }

-- Scripts that use seven cycles.
abbrev pub scripts : ResolvedTransaction → ℕ → Outcome TransactionError ℕ
scripts rtx max_cycles = ok 7

open_at_13 : verify (at 13) locked ≡ ok tt
unfolding verify flags_is_valid is_absolute extract_metric
open_at_13 = refl

-- The median times before the two blocks in between.
median_time_12 : block_median_time (known_below 15) 12 12 ≡ some 110
unfolding block_median_time
median_time_12 = refl

median_time_13 : block_median_time (known_below 15) 13 13 ≡ some 120
unfolding block_median_time
median_time_13 = refl

Grown-to_15 : (k : ℕ) → 13 ≤ k → k < 15 → Grown (known_below 15) k
Grown-to_15 k low high = elim (ℕ_discrete k 13) [
  | yes at_13 ↦
      rw at_13 (13, 12, 130, refl, refl, refl, λ m read. ground (arith, median_time_12, read))
  | no later ↦
      let at_14 : k ≡ 14 = omega (arith, later) in
      rw at_14 (14, 13, 140, refl, refl, refl, λ m read. ground (arith, median_time_13, read))
]

Later-at_15 : Later (at 13) (at 15)
Later-at_15 = record {
  above_genesis = omega arith;
  number = omega arith;
  small = omega arith;
  epoch = omega arith;
  some_count = omega arith;
  same_count = refl;
  known_tip = (12, refl);
  same_hash = λ n hash h. ground arith;
  same_header = λ hash header h. ground arith;
  grown = Grown-to_15;
}

verify_mono_example : verify (at 15) locked ≡ ok tt
verify_mono_example = verify_mono (at 13) (at 15) Later-at_15 locked ((2, refl), tt) open_at_13
