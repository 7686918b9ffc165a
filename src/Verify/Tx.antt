-- ===== src/Verify/Tx.antt =====
-- verification/src/transaction_verifier.rs without the `since` locks (Verify/Since.antt): the small
-- verifiers and the two that run them in order. Running the scripts is the parameter `scripts`.
pub mod Balance
pub mod Accepted
use ckb_miner_opt.Base.{
  ℕ, ◌+◌, ◌≡◌, Bool, true, false, not, ◌||◌, Option, none, some, List, [], ◌∷◌, map, ltb, leb, ◌==◌,
  if◌then◌else◌, length,
}
use ckb_miner_opt.Base.Outcome.{Outcome, ok, err, panic, ◌>>=◌, ◌>>◌, refuse_if, expect, add_u64}
use ckb_miner_opt.Base.Seen.{all_new}
use ckb_miner_opt.Core.Capacity.{Capacity}
use ckb_miner_opt.Core.Capacity.Sums.{sum_from}
use ckb_miner_opt.Core.Transaction.{
  OutPoint, CellInput, CellOutput, Script, Bytes, Transaction, tx_version, is_empty, input_size,
  out_point_size, is_withdrawing_from_dao, out_point_key,
}
use ckb_miner_opt.Core.Transaction.Occupied.{is_lack_of_capacity}
use ckb_miner_opt.Core.Cell.{
  CellMeta, BlockInfo, ResolvedOutPoint, ResolvedTransaction, cell_meta, has_no_inputs,
}
use ckb_miner_opt.Verify.Error.{
  TransactionError, from_capacity, version, exceeded_maximum_block_bytes, empty,
  cellbase_immaturity, duplicate_deps, outputs_sum_overflow, insufficient_cell_capacity,
}
use ckb_miner_opt.Verify.Since
use ckb_miner_opt.Verify.Since.{SinceContext}

abbrev pub Check : Type 0
Check = Outcome TransactionError (Unit {0})

unfoldable pub verify_version : Transaction → Check
verify_version tx = refuse_if (not (tx.version == tx_version)) version

abbrev pub total {ℓ} : {A : Type ℓ} → (A → ℕ) → List A → ℕ
total size [] = 0
total size (x ∷ xs) = size x + total size xs

unfoldable pub script_size : Script → ℕ
script_size s = total length s.args + 32

unfoldable pub output_size : CellOutput → ℕ
unfolding script_size
output_size o =
    8 + length o.bytes + script_size o.lock + elim o.type_ [ none ↦ 0 | some s ↦ script_size s ]

-- `Transaction::serialized_size`
unfoldable pub serialized_size : Transaction → ℕ
unfolding output_size out_point_size input_size
serialized_size tx =
    4
    + total out_point_size tx.deps
    + total input_size tx.inputs
    + total output_size tx.outputs
    + total (total length) tx.witnesses

unfoldable pub verify_size : ℕ → Transaction → Check
unfolding serialized_size
verify_size block_bytes_limit tx =
    if leb (serialized_size tx) block_bytes_limit then ok tt else err exceeded_maximum_block_bytes

unfoldable pub verify_empty : Transaction → Check
verify_empty tx = refuse_if (is_empty tx) empty

-- The closure `cellbase_immature`; the block info is read only for a cellbase.
unfoldable pub cellbase_immature : ℕ → ℕ → CellMeta → Outcome TransactionError Bool
cellbase_immature block_number cellbase_maturity meta =
    if meta.cellbase
    then (do
      info ← expect meta.block_info
      matured ← add_u64 info.number cellbase_maturity
      ok (ltb block_number matured))
    else ok false

-- `iter().filter_map(ResolvedOutPoint::cell).any(cellbase_immature)` stops at the first hit.
unfoldable pub any_immature : ℕ → ℕ → List ResolvedOutPoint → Outcome TransactionError Bool
unfolding cellbase_immature
any_immature n maturity [] = ok false
any_immature n maturity (r ∷ rs) =
    let rest = any_immature n maturity rs in
    elim (cell_meta r.cell) [
      | none ↦ rest
      | some meta ↦ do hit ← cellbase_immature n maturity meta; if hit then ok true else rest
    ]

unfoldable pub verify_maturity : ℕ → ℕ → ResolvedTransaction → Check
unfolding any_immature
verify_maturity n maturity rtx = do
  input_immature ← any_immature n maturity rtx.resolved_inputs
  immature ← (if input_immature then ok true else any_immature n maturity rtx.resolved_deps)
  refuse_if immature cellbase_immaturity

unfoldable pub verify_duplicate_deps : Transaction → Check
verify_duplicate_deps tx = if all_new tx.deps then ok tt else err duplicate_deps

abbrev pub capacity_of : ResolvedOutPoint → Capacity
capacity_of r = elim (cell_meta r.cell) [ none ↦ 0 | some meta ↦ meta.capacity ]

abbrev pub input_capacities : ResolvedTransaction → List Capacity
input_capacities rtx = map capacity_of rtx.resolved_inputs

abbrev pub output_capacities : ResolvedTransaction → List Capacity
output_capacities rtx = map (λ o. o.capacity) rtx.transaction.outputs

-- The loop over the outputs.
unfoldable pub verify_outputs : List CellOutput → Check
verify_outputs [] = ok tt
verify_outputs (o ∷ os) = do
  lacking ← from_capacity (is_lack_of_capacity o)
  refuse_if lacking insufficient_cell_capacity
  verify_outputs os

abbrev pub is_exempt : ResolvedTransaction → Bool
is_exempt rtx = has_no_inputs rtx.resolved_inputs || is_withdrawing_from_dao rtx.transaction

unfoldable pub verify_balance : ResolvedTransaction → Check
verify_balance rtx =
    if not (is_exempt rtx)
    then (do
      inputs_total ← from_capacity (sum_from 0 (input_capacities rtx))
      outputs_total ← from_capacity (sum_from 0 (output_capacities rtx))
      refuse_if (ltb inputs_total outputs_total) outputs_sum_overflow)
    else ok tt

-- `CapacityVerifier::verify`
unfoldable pub verify_capacity : ResolvedTransaction → Check
unfolding verify_outputs verify_balance
verify_capacity rtx = do verify_balance rtx; verify_outputs rtx.transaction.outputs

-- The parts of `Consensus` that the verifiers read.
pub record TxLimits : Type 0 where
  pub max_block_bytes : ℕ
  pub cellbase_maturity : ℕ

-- `ContextualTransactionVerifier::verify`
unfoldable pub verify_contextual : TxLimits → SinceContext → ResolvedTransaction → Check
verify_contextual limits ctx rtx = do
  verify_maturity ctx.block_number limits.cellbase_maturity rtx
  Since.verify ctx rtx

-- `TransactionVerifier::verify`; `scripts` returns the cycles used.
unfoldable pub verify_transaction :
    (ResolvedTransaction → ℕ → Outcome TransactionError ℕ)
    → TxLimits
    → SinceContext
    → ℕ
    → ResolvedTransaction
    → Outcome TransactionError ℕ
verify_transaction scripts limits ctx max_cycles rtx = do
  verify_version rtx.transaction
  verify_size limits.max_block_bytes rtx.transaction
  verify_empty rtx.transaction
  verify_maturity ctx.block_number limits.cellbase_maturity rtx
  verify_capacity rtx
  verify_duplicate_deps rtx.transaction
  Since.verify ctx rtx
  scripts rtx max_cycles
