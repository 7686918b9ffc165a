-- ===== src/Dao/Fee/Balance.antt =====
-- The fee of a transaction without DAO cells (util/dao/utils/src/lib.rs) is what the capacity verifier
-- (verification/src/transaction_verifier.rs) leaves over.
use ckb_miner_opt.Base.{
  ℕ, ◌+◌, ◌-◌, ◌≤◌, ◌<◌, ◌≡◌, ap, sym, ◌∙◌, inl, inr, false, List, [], ◌∷◌, map, arith, ◌==◌,
}
use ckb_miner_opt.Base.Outcome.{ok, u64_modulus}
use ckb_miner_opt.Core.Capacity.{Capacity, safe_add, safe_sub}
use ckb_miner_opt.Core.Capacity.Sums.{sum, checked, sum_from, sum_from-eq_checked}
use ckb_miner_opt.Core.Transaction.{CellInput, CellOutput, Transaction}
use ckb_miner_opt.Core.Cell.{CellMeta, ResolvedCell, ResolvedOutPoint, ResolvedTransaction}
use ckb_miner_opt.Verify.Tx.{
  capacity_of, input_capacities, output_capacities, verify_capacity, is_exempt,
}
use ckb_miner_opt.Verify.Tx.Balance.{verify_capacity_iff}
use ckb_miner_opt.Dao.Fee.{
  DataLoader, dao_code_hash, lazy_load_cell_output, cell_capacity, input_capacity, inputs_from,
  fee_of, calculate_transaction_fee,
}

-- A resolved input whose cell is not locked by the DAO, and holds what its metadata says.
pub data Ordinary (dl : DataLoader) (r : ResolvedOutPoint) : Type 0 where
  ordinary :
      (meta : CellMeta) (output : CellOutput)
      → r.cell ≡ ResolvedCell.cell meta
      → lazy_load_cell_output dl meta ≡ ok output
      → output.capacity ≡ meta.capacity
      → (output.lock.code_hash == dao_code_hash) ≡ false
      → Ordinary dl r

-- Each input has its resolved one, and that is an ordinary one.
abbrev pub AllOrdinary : DataLoader → List CellInput → List ResolvedOutPoint → Type 0
AllOrdinary dl [] [] = Unit
AllOrdinary dl [] (r ∷ rs) = ⊥
AllOrdinary dl (i ∷ is) [] = ⊥
AllOrdinary dl (i ∷ is) (r ∷ rs) = Ordinary dl r × AllOrdinary dl is rs

input_capacity-eq :
    (dl : DataLoader) (tx : Transaction) (i : ℕ) (input : CellInput) (r : ResolvedOutPoint)
    → Ordinary dl r
    → input_capacity dl tx i input r ≡ ok (capacity_of r)
unfolding input_capacity cell_capacity
input_capacity-eq dl tx i input r (ordinary meta output is_cell loaded same plain) =
    let held : capacity_of r ≡ meta.capacity =
      ap (λ (c : ResolvedCell). capacity_of (record { cell = c; header = r.header })) is_cell in
    simp (input_capacity, cell_capacity, is_cell, loaded, plain, same) (ap ok (sym held))

safe_add-fits : (a b : ℕ) → a + b < u64_modulus → safe_add a b ≡ ok (a + b)
unfolding safe_add
safe_add-fits a b h = ground arith

inputs_from-eq :
    (dl : DataLoader) (tx : Transaction) (i acc : ℕ) (is : List CellInput)
    (rs : List ResolvedOutPoint)
    → AllOrdinary dl is rs
    → acc + sum (map capacity_of rs) < u64_modulus
    → inputs_from dl tx i acc is rs ≡ ok (acc + sum (map capacity_of rs))
unfolding inputs_from
inputs_from-eq dl tx i acc [] [] all fits = ap ok (omega arith)
inputs_from-eq dl tx i acc [] (r ∷ rs) all fits = absurd all
inputs_from-eq dl tx i acc (input ∷ is) [] all fits = absurd all
inputs_from-eq dl tx i acc (input ∷ is) (r ∷ rs) all fits =
    simp
      (
        inputs_from,
        input_capacity-eq dl tx i input r all.0,
        safe_add-fits (capacity_of r) acc (omega arith),
      )
      (inputs_from-eq dl tx (i + 1) (capacity_of r + acc) is rs all.1 (omega arith)
        ∙ ap ok (omega arith))

checked-fits : (n : ℕ) → n < u64_modulus → checked (0 + n) ≡ ok n
checked-fits n h = ground arith

fee_of-eq : (x y : ℕ) → y ≤ x → fee_of x y ≡ ok (x - y)
unfolding fee_of safe_sub
fee_of-eq x y le = ground arith

-- Take a transaction that the capacity verifier accepts and that is neither a cellbase nor issues from the
-- DAO. If each of its inputs has a resolved cell whose output the loader finds, whose output has the capacity
-- that the cell's metadata says, and which is not locked by the DAO, then the transaction has a fee, and the
-- fee and the outputs together are the inputs.
pub calculate_transaction_fee-verify_capacity :
    (dl : DataLoader) (rtx : ResolvedTransaction)
    → AllOrdinary dl rtx.transaction.inputs rtx.resolved_inputs
    → is_exempt rtx ≡ false
    → verify_capacity rtx ≡ ok tt
    → (fee : Capacity) × (calculate_transaction_fee dl rtx ≡ ok fee)
      × (fee + sum (output_capacities rtx) ≡ sum (input_capacities rtx))
unfolding calculate_transaction_fee
calculate_transaction_fee-verify_capacity dl rtx all plain accepted =
    elim ((verify_capacity_iff rtx).0 accepted).0 [
      | inl exempt ↦ absurd (cc)
      | inr (fits_in, fits_out, le) ↦
          let inputs : inputs_from dl rtx.transaction 0 0 rtx.transaction.inputs rtx.resolved_inputs
              ≡ ok (sum (input_capacities rtx)) =
            inputs_from-eq dl rtx.transaction 0 0 rtx.transaction.inputs rtx.resolved_inputs all
              (omega arith)
            ∙ ap ok (omega arith) in
          let outputs : sum_from 0 (output_capacities rtx) ≡ ok (sum (output_capacities rtx)) =
            sum_from-eq_checked (output_capacities rtx) 0 (omega arith)
            ∙ checked-fits (sum (output_capacities rtx)) fits_out in
          (
            sum (input_capacities rtx) - sum (output_capacities rtx),
            simp (
              calculate_transaction_fee,
              inputs,
              outputs,
              fee_of-eq (sum (input_capacities rtx)) (sum (output_capacities rtx)) le,
            ),
            omega arith,
          )
    ]
