-- ===== src/Dao/Fee.antt =====
-- `calculate_transaction_fee` of util/dao/utils/src/lib.rs, with the `DataLoaderWrapper` of
-- store/src/data_loader_wrapper.rs. The error stands for `None`. `from_slice` reads a hash from bytes.
pub mod Balance
use ckb_miner_opt.Base.{
  ℕ, zero, suc, ◌+◌, Bool, Option, none, some, List, [], ◌∷◌, ltb, ◌==◌, if◌then◌else◌, get_elem?,
}
use ckb_miner_opt.Base.Outcome.{Outcome, ok, err, panic, ◌>>=◌, expect, map_err}
use ckb_miner_opt.Core.Capacity.{Capacity, Result, safe_add, safe_sub}
use ckb_miner_opt.Core.Capacity.Sums.{sum_from}
use ckb_miner_opt.Core.Extras.{BlockExt}
use ckb_miner_opt.Core.Transaction.{H256, Bytes, CellInput, CellOutput, Transaction}
use ckb_miner_opt.Core.Cell.{CellMeta, ResolvedCell, ResolvedOutPoint, ResolvedTransaction}
use ckb_miner_opt.Verify.Tx.{output_capacities}
use ckb_miner_opt.Dao.{calculate_maximum_withdraw}

-- `DAO_CODE_HASH` of core/src/script.rs
abbrev pub dao_code_hash : H256
dao_code_hash = 0x4e4552564f5344414f434f444530303031

pub record DataLoader : Type 0 where
  pub get_cell_output : H256 → ℕ → Option CellOutput
  pub get_block_ext : H256 → Option BlockExt
  pub from_slice : Bytes → Option H256

abbrev pub Fee : Type 0 → Type 0
Fee A = Outcome (Unit {0}) A

-- `.ok()`
abbrev pub ok_of {ℓ} :
    {A : Type ℓ} → Outcome ckb_miner_opt.Core.Capacity.Error A → Outcome (Unit {0}) A
ok_of r = map_err (λ _. tt) r

abbrev pub or_none {ℓ} : {A : Type ℓ} → Option A → Outcome (Unit {0}) A
or_none none = err tt
or_none (some a) = ok a

abbrev pub and_then {ℓ κ} : {A : Type ℓ} {B : Type κ} → Option A → (A → Option B) → Option B
and_then none f = none
and_then (some a) f = f a

unfoldable pub lazy_load_cell_output : DataLoader → CellMeta → Fee CellOutput
lazy_load_cell_output dl meta = elim meta.cell_output [
  | some output ↦ ok output
  | none ↦ expect (dl.get_cell_output meta.out_point.tx_hash meta.out_point.index)
]

-- The ext of the block that the third item of the input's witness names.
unfoldable pub withdraw_ext : DataLoader → Transaction → ℕ → Option BlockExt
withdraw_ext dl tx i =
    and_then (get_elem? tx.witnesses i)
      λ witness. and_then (get_elem? witness 2) λ arg. and_then (dl.from_slice arg) dl.get_block_ext

unfoldable pub withdraw_capacity :
    DataLoader → Transaction → ℕ → CellInput → CellOutput → Fee Capacity
unfolding withdraw_ext
withdraw_capacity dl tx i input output = do
  deposit ← or_none (and_then input.previous_output.block_hash dl.get_block_ext)
  withdraw ← or_none (withdraw_ext dl tx i)
  ok_of (calculate_maximum_withdraw output deposit.dao_stats withdraw.dao_stats)

unfoldable pub cell_capacity : DataLoader → Transaction → ℕ → CellInput → CellMeta → Fee Capacity
unfolding lazy_load_cell_output withdraw_capacity
cell_capacity dl tx i input meta = do
  output ← lazy_load_cell_output dl meta
  (if output.lock.code_hash == dao_code_hash
      then withdraw_capacity dl tx i input output
      else ok output.capacity)

unfoldable pub input_capacity :
    DataLoader → Transaction → ℕ → CellInput → ResolvedOutPoint → Fee Capacity
unfolding cell_capacity
input_capacity dl tx i input resolved = elim resolved.cell [
  | ResolvedCell.issuing_dao_input ↦ ok 0
  | ResolvedCell.null ↦ err tt
  | ResolvedCell.cell meta ↦ cell_capacity dl tx i input meta
]

-- The `try_fold` over the inputs, with their places, and the resolved ones.
unfoldable pub inputs_from :
    DataLoader → Transaction → ℕ → Capacity → List CellInput → List ResolvedOutPoint → Fee Capacity
inputs_from dl tx i acc [] rs = ok acc
inputs_from dl tx i acc (input ∷ is) [] = ok acc
inputs_from dl tx i acc (input ∷ is) (r ∷ rs) = do
  capacity ← input_capacity dl tx i input r
  acc' ← ok_of (safe_add capacity acc)
  inputs_from dl tx (i + 1) acc' is rs

unfoldable pub fee_of : Capacity → Capacity → Result Capacity
fee_of x y = if ltb y x then safe_sub x y else ok 0

unfoldable pub calculate_transaction_fee : DataLoader → ResolvedTransaction → Fee Capacity
calculate_transaction_fee dl rtx = do
  x ← inputs_from dl rtx.transaction 0 0 rtx.transaction.inputs rtx.resolved_inputs
  y ← ok_of (sum_from 0 (output_capacities rtx))
  ok_of (fee_of x y)
