-- ===== src/Tests/Data.antt =====
-- Transactions, providers and headers that the tests share.
use ckb_miner_opt.Base.{ℕ, ◌*◌, ◌^◌, none, some, List, [], ◌∷◌}
use ckb_miner_opt.Core.Transaction.{Script, OutPoint, CellInput, CellOutput, Transaction, new_cell}
use ckb_miner_opt.Core.Cell.{
  CellProvider, CellStatus, HeaderProvider, HeaderStatus, pool_cell, default_out_point,
  ResolvedTransaction, cell_only, CellMeta,
}

abbrev pub lock : Script
lock = record { args = []; code_hash = 1 }

-- A hundred bytes' worth.
abbrev pub output : CellOutput
output = record { capacity = 10_000_000_000; bytes = []; lock = lock; type_ = none }

abbrev pub spend : OutPoint → CellInput
spend o = record { previous_output = o; since = 0 }

-- The hash of the transaction with this short id.
abbrev pub hash_of : ℕ → ℕ
hash_of id = id * 2 ^ 176

abbrev pub transaction : ℕ → List OutPoint → List CellInput → List CellOutput → Transaction
transaction id deps inputs outputs = record {
  version = 0;
  deps = deps;
  inputs = inputs;
  outputs = outputs;
  witnesses = [];
  hash = hash_of id;
  witness_hash = hash_of id;
}

-- `first` spends an output of the transaction with id 1 and names another as a dep; `second` spends
-- the output of `first`.
abbrev pub first : Transaction
first =
    transaction 2 (new_cell (hash_of 1) 1 ∷ []) (spend (new_cell (hash_of 1) 0) ∷ []) (output ∷ [])

abbrev pub second : Transaction
second = transaction 3 [] (spend (new_cell (hash_of 2) 0) ∷ []) (output ∷ [])

-- The same cell wherever one is asked for.
abbrev pub live_cell : CellMeta
live_cell = pool_cell output default_out_point

abbrev pub cells : CellProvider
cells o = some (CellStatus.live live_cell)

abbrev pub no_cells : CellProvider
no_cells o = some CellStatus.unknown

abbrev pub headers : HeaderProvider
headers o = HeaderStatus.unspecified

abbrev pub first_resolved : ResolvedTransaction
first_resolved = record {
  transaction = first;
  resolved_deps = cell_only live_cell ∷ [];
  resolved_inputs = cell_only live_cell ∷ [];
}

abbrev pub second_resolved : ResolvedTransaction
second_resolved = record {
  transaction = second;
  resolved_deps = [];
  resolved_inputs = cell_only live_cell ∷ [];
}
