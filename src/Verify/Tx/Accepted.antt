-- ===== src/Verify/Tx/Accepted.antt =====
-- What a transaction that passes all the verifiers is like.
use ckb_miner_opt.Base.{ℕ, ◌+◌, ◌≤◌, ◌≡◌, ◌⊎◌, true, false, none, some, All}
use ckb_miner_opt.Base.Outcome.{Outcome, ok}
use ckb_miner_opt.Base.Maps.{Distinct}
use ckb_miner_opt.Core.Transaction.{tx_version, is_empty, out_point_key}
use ckb_miner_opt.Core.Cell.{ResolvedOutPoint, ResolvedTransaction, cell_meta}
use ckb_miner_opt.Verify.Since
use ckb_miner_opt.Verify.Since.{SinceContext}
use ckb_miner_opt.Verify.Tx.{TxLimits, serialized_size, is_exempt}
use ckb_miner_opt.Verify.Tx.Balance.{Balances, Pays}

-- A cell from a cellbase is known to have matured.
abbrev pub Mature : ℕ → ℕ → ResolvedOutPoint → Type 0
Mature n maturity r = elim (cell_meta r.cell) [
  | none ↦ Unit {0}
  | some meta ↦ elim meta.cellbase [
    | false ↦ Unit {0}
    | true ↦ elim meta.block_info [ none ↦ ⊥ | some info ↦ info.number + maturity ≤ n ]
  ]
]

-- The verdict on a transaction that was accepted.
pub record Accepted (limits : TxLimits) (ctx : SinceContext) (rtx : ResolvedTransaction)
    : Type 0 where
  pub version : rtx.transaction.version ≡ tx_version
  pub size : serialized_size rtx.transaction ≤ limits.max_block_bytes
  pub not_empty : is_empty rtx.transaction ≡ false
  pub mature_inputs : All (Mature ctx.block_number limits.cellbase_maturity) rtx.resolved_inputs
  pub mature_deps : All (Mature ctx.block_number limits.cellbase_maturity) rtx.resolved_deps
  pub balanced : (is_exempt rtx ≡ true) ⊎ Balances rtx
  pub paid : All Pays rtx.transaction.outputs
  pub deps_differ : Distinct rtx.transaction.deps
  pub unlocked : Since.verify ctx rtx ≡ ok tt
