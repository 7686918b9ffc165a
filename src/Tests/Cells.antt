-- ===== src/Tests/Cells.antt =====
-- Resolving transactions, and the set of cells.
use ckb_miner_opt.Base.{
  inl, inr, ◌<◌, ◌≡◌, ◌≢◌, refl, Option, none, some, List, [], ◌∷◌, All, false, ℕ_discrete,
}
use ckb_miner_opt.Base.Maps.{Distinct, get, contains_key, nat_key, contains, insert}
use ckb_miner_opt.Base.Outcome.{ok, err}
use ckb_miner_opt.Core.Transaction.{
  H256, new_cell, out_point_key, OutPoint-discrete, is_cellbase, is_issuing_dao,
}
use ckb_miner_opt.Core.Block.{Block}
use ckb_miner_opt.Core.Cell.Providers.{new_block_cells, index_of}
use ckb_miner_opt.Core.Cell.Providers.Order.{new_block_cells-Order}
use ckb_miner_opt.Tests.Consensus.{header_at}
use ckb_miner_opt.Core.Cell.{UnresolvableError}
use ckb_miner_opt.Core.Cell.Resolve.{
  resolve_transaction, resolve_all, resolve_dep, resolve_deps, resolve_input, resolve_inputs,
}
use ckb_miner_opt.Core.Cell.Resolve.Spending.{all_spent, resolve_all-Distinct}
use ckb_miner_opt.Core.Cell.Resolve.Matching.{IsUnknown}
use ckb_miner_opt.Core.Cell.Resolve.Result.{
  Resolved, resolve_transaction_sound, resolve_transaction-unknown,
}
use ckb_miner_opt.Core.TransactionMeta.{new}
use ckb_miner_opt.CellSet.{CellSet, CellSetDiff, NewOutputs, overlay_get, new_overlay}
use ckb_miner_opt.CellSet.Update.{BatchOp, update_cells}
use ckb_miner_opt.CellSet.Overlay.{overlay-eq_update, overlay-ignores_inputs}
use ckb_miner_opt.Tests.Data.{
  first, second, hash_of, cells, no_cells, headers, first_resolved, second_resolved,
}

first_resolves :
    resolve_transaction cells headers first [] ≡ ok (first_resolved, new_cell (hash_of 1) 0 ∷ [])
unfolding resolve_transaction resolve_inputs is_cellbase resolve_input is_issuing_dao contains
    resolve_deps resolve_dep OutPoint-discrete ℕ_discrete
first_resolves = refl

both_resolve :
    resolve_all cells headers (first ∷ second ∷ []) []
    ≡ ok (
      first_resolved ∷ second_resolved ∷ [],
      new_cell (hash_of 2) 0 ∷ new_cell (hash_of 1) 0 ∷ [],
    )
unfolding resolve_all resolve_transaction resolve_inputs is_cellbase resolve_input is_issuing_dao
    contains resolve_deps resolve_dep OutPoint-discrete ℕ_discrete
both_resolve = refl

first_missing :
    resolve_transaction no_cells headers first []
    ≡ err (UnresolvableError.unknown (new_cell (hash_of 1) 0 ∷ new_cell (hash_of 1) 1 ∷ []))
unfolding resolve_transaction resolve_inputs is_cellbase resolve_input is_issuing_dao contains
    resolve_deps resolve_dep
first_missing = refl

resolve_all-Distinct_example : Distinct (all_spent cells headers (first ∷ second ∷ []))
resolve_all-Distinct_example = resolve_all-Distinct cells headers (first ∷ second ∷ []) both_resolve

resolve_transaction_sound_example :
    Resolved cells headers first (new_cell (hash_of 1) 0 ∷ []) first_resolved
resolve_transaction_sound_example = resolve_transaction_sound cells headers first [] first_resolves

resolve_transaction-unknown_example :
    (new_cell (hash_of 1) 0 ∷ new_cell (hash_of 1) 1 ∷ [] ≢ [])
    × All (IsUnknown no_cells headers) (new_cell (hash_of 1) 0 ∷ new_cell (hash_of 1) 1 ∷ [])
resolve_transaction-unknown_example =
    resolve_transaction-unknown no_cells headers first []
      (new_cell (hash_of 1) 0 ∷ new_cell (hash_of 1) 1 ∷ []) first_missing

-- The set holds the transaction with id 1; the diff attaches `first`.
abbrev set : CellSet
set = record { inner = (hash_of 1, new 1 0 2 false) ∷ [] }

abbrev diff : CellSetDiff
diff = record {
  old_inputs = [];
  old_outputs = [];
  new_inputs = new_cell (hash_of 1) 0 ∷ [];
  new_outputs = (hash_of 2, record { number = 2; epoch = 0; cellbase = false; count = 1 }) ∷ [];
}

first_old : contains_key diff.new_outputs (hash_of 1) ≡ false
unfolding get ℕ_discrete
first_old = refl

second_absent : get set.inner (hash_of 2) ≡ none
unfolding get ℕ_discrete
second_absent = refl

-- The store holds no transaction.
abbrev nothing_stored : H256 → Option NewOutputs
nothing_stored hash = none

overlay-eq_update_example :
    (left : CellSet) × (ops : List BatchOp) × (update_cells nothing_stored diff set
      ≡ some (left, ops))
    × ((h : H256) → overlay_get (new_overlay set diff) h ≡ get left.inner h)
overlay-eq_update_example = overlay-eq_update nothing_stored set diff refl refl (first_old, tt)

overlay-ignores_inputs_example :
    overlay_get (new_overlay set diff) (hash_of 2)
    ≡ overlay_get (new_overlay set (record diff { old_inputs = []; new_inputs = [] })) (hash_of 2)
overlay-ignores_inputs_example = overlay-ignores_inputs set diff (hash_of 2) second_absent

-- `second` spends the output of `first`, which stands before it.
abbrev ordered : Block
ordered = record {
  header = header_at 5;
  uncles = [];
  transactions = first ∷ second ∷ [];
  proposals = [];
}

ordered_cells :
    new_block_cells ordered
    ≡ ok (record { output_indices = (hash_of 2, 0) ∷ (hash_of 3, 1) ∷ []; block = ordered })
unfolding new_block_cells index_of get insert ℕ_discrete
ordered_cells = refl

new_block_cells-Order_example : 0 < 1
new_block_cells-Order_example =
    new_block_cells-Order ordered 1 0 second first (new_cell (hash_of 2) 0)
      (record { tx_hash = hash_of 2; index = 0 }) ordered_cells refl refl (inr (inl refl)) refl refl
