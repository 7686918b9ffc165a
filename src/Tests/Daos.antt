-- ===== src/Tests/Daos.antt =====
-- Interest of the DAO, and the fee of a transaction.
use ckb_miner_opt.Base.{◌+◌, ◌≡◌, refl, false, none, [], ◌∷◌}
use ckb_miner_opt.Base.Outcome.{ok}
use ckb_miner_opt.Core.Capacity.{Capacity}
use ckb_miner_opt.Core.Capacity.Sums.{sum}
use ckb_miner_opt.Core.Extras.{DaoStats}
use ckb_miner_opt.Core.Cell.{ResolvedTransaction, cell_only}
use ckb_miner_opt.Dao.Fee.{DataLoader, calculate_transaction_fee}
use ckb_miner_opt.Dao.Fee.Balance.{AllOrdinary, ordinary, calculate_transaction_fee-verify_capacity}
use ckb_miner_opt.Verify.Tx.{verify_capacity, is_exempt, output_capacities, input_capacities}
use ckb_miner_opt.Tests.Data.{output, second_resolved, live_cell, second}

abbrev deposit : DaoStats
deposit = record {
  accumulated_rate = 10_000_000_000_000_000;
  accumulated_capacity = 5_000_000_000_000;
}

abbrev withdraw : DaoStats
withdraw = record {
  accumulated_rate = 10_096_000_000_000_000;
  accumulated_capacity = 5_148_000_000_000;
}

abbrev pub loader : DataLoader
loader = record {
  get_cell_output = λ hash i. none;
  get_block_ext = λ hash. none;
  from_slice = λ bytes. none;
}

-- Pays a fee of 1000.
abbrev paying : ResolvedTransaction
paying = record second_resolved {
  transaction = record second { outputs = record output { capacity = 9_999_999_000 } ∷ [] };
}

paying_ordinary : AllOrdinary loader paying.transaction.inputs paying.resolved_inputs
unfolding ckb_miner_opt.Dao.Fee.lazy_load_cell_output ckb_miner_opt.Core.Cell.pool_cell
paying_ordinary = (ordinary live_cell output refl refl refl refl, tt)

paying_plain : is_exempt paying ≡ false
unfolding ckb_miner_opt.Core.Transaction.is_withdrawing_from_dao
paying_plain = refl

paying_accepted : verify_capacity paying ≡ ok tt
unfolding verify_capacity ckb_miner_opt.Core.Transaction.is_withdrawing_from_dao
    ckb_miner_opt.Core.Capacity.Sums.sum_from ckb_miner_opt.Core.Capacity.safe_add
    ckb_miner_opt.Core.Cell.pool_cell ckb_miner_opt.Core.Transaction.Occupied.is_lack_of_capacity
    ckb_miner_opt.Core.Capacity.bytes
paying_accepted = refl

calculate_transaction_fee-verify_capacity_example :
    (fee : Capacity) × (calculate_transaction_fee loader paying ≡ ok fee)
    × (fee + sum (output_capacities paying) ≡ sum (input_capacities paying))
calculate_transaction_fee-verify_capacity_example =
    calculate_transaction_fee-verify_capacity loader paying paying_ordinary paying_plain
      paying_accepted
