-- ===== src/Tests/Pools.antt =====
-- The transaction pool: an admission, and the pool after the tip moved.
use ckb_miner_opt.Base.{
  ℕ, ◌≤◌, ◌≡◌, refl, Bool, true, false, Option, none, some, List, [], ◌∷◌, arith, ◌==◌,
}
use ckb_miner_opt.Base.Maps.{insert, contains_key, nat_key}
use ckb_miner_opt.Core.Transaction.{ProposalShortId}
use ckb_miner_opt.Pool.Types.{PendingEntry, ProposedEntry, in_place}
use ckb_miner_opt.Pool.Orphan.{no_orphans}
use ckb_miner_opt.Pool.TxPool.{TxPool}
use ckb_miner_opt.Pool.Admission.{Admission, admitted, PoolView, add_tx_to_pool}
use ckb_miner_opt.Pool.Reorg.{update_tx_pool_for_reorg}
use ckb_miner_opt.Verify.Contextual.{Cache}
use ckb_miner_opt.Pool.Admission.Limits.{WithinLimits, add_tx_to_pool-WithinLimits}
use ckb_miner_opt.Tests.Data.{cells, headers, first}
use ckb_miner_opt.Tests.Txs.{at, limits, scripts}
use ckb_miner_opt.Tests.Daos.{loader}

abbrev view : PoolView
view = record {
  cells = cells;
  headers = headers;
  contains_proposal_id = λ id. id == 2;
  since = at 13;
  limits = limits;
  max_block_cycles = 100;
  loader = loader;
}

abbrev empty_pool : TxPool
empty_pool = record {
  config = record { max_mem_size = 1000; max_cycles = 50 };
  pending = [];
  gap = [];
  proposed = record { vertices = []; edges = record { inner = []; outer = []; deps = [] } };
  orphan = no_orphans;
  conflict = [];
  last_txs_updated_at = 0;
  total_tx_size = 0;
  total_tx_cycles = 0;
}

abbrev adding : Option (TxPool × Admission)
adding =
    add_tx_to_pool (in_place PendingEntry) (in_place ProposedEntry) insert scripts 9 view first 7
      empty_pool

abbrev pool_after : TxPool
pool_after = elim adding [ none ↦ empty_pool | some (p, r) ↦ p ]

first_admitted : adding ≡ some (pool_after, admitted 7)
unfolding add_tx_to_pool ckb_miner_opt.Pool.TxPool.reach_tx_pool_limit
    ckb_miner_opt.Verify.Tx.serialized_size
    ckb_miner_opt.Pool.Admission.resolve_tx_from_pending_and_proposed
    ckb_miner_opt.Core.Cell.Resolve.resolve_transaction
    ckb_miner_opt.Core.Cell.Resolve.resolve_inputs ckb_miner_opt.Core.Transaction.is_cellbase
    ckb_miner_opt.Core.Cell.Resolve.resolve_input ckb_miner_opt.Core.Transaction.is_issuing_dao
    ckb_miner_opt.Base.Maps.contains ckb_miner_opt.Core.Cell.Providers.overlay_cell
    ckb_miner_opt.Pool.Pending.pending_cell ckb_miner_opt.Base.Maps.get
    ckb_miner_opt.Pool.Proposed.proposed_cell ckb_miner_opt.Core.Cell.Resolve.resolve_deps
    ckb_miner_opt.Core.Cell.Resolve.resolve_dep ckb_miner_opt.Core.Transaction.OutPoint-discrete
    ckb_miner_opt.Base.ℕ_discrete ckb_miner_opt.Pool.Admission.verify_rtx
    ckb_miner_opt.Verify.Tx.verify_contextual ckb_miner_opt.Verify.Tx.verify_maturity
    ckb_miner_opt.Core.Cell.pool_cell ckb_miner_opt.Verify.Since.verify
    ckb_miner_opt.Core.Transaction.from_tx_hash
    ckb_miner_opt.Pool.Admission.proposed_tx_and_descendants
    ckb_miner_opt.Pool.Admission.proposed_tx ckb_miner_opt.Pool.Admission.resolve_tx_from_proposed
    ckb_miner_opt.Dao.Fee.calculate_transaction_fee ckb_miner_opt.Dao.Fee.inputs_from
    ckb_miner_opt.Dao.Fee.input_capacity ckb_miner_opt.Core.Capacity.safe_add
    ckb_miner_opt.Core.Capacity.Sums.sum_from ckb_miner_opt.Dao.Fee.fee_of
    ckb_miner_opt.Pool.Admission.try_proposed_orphan_by_ancestor
    ckb_miner_opt.Pool.Orphan.remove_by_ancestor ckb_miner_opt.Pool.TxPool.add_proposed
    ckb_miner_opt.Base.Maps.remove ckb_miner_opt.Pool.Admission.place_orphans
    ckb_miner_opt.Pool.TxPool.update_statics_for_add_tx
first_admitted = refl

add_tx_to_pool-WithinLimits_example :
    WithinLimits pool_after × (pool_after.config ≡ empty_pool.config)
add_tx_to_pool-WithinLimits_example =
    add_tx_to_pool-WithinLimits (in_place PendingEntry) (in_place ProposedEntry) insert scripts 9
      view first 7 empty_pool pool_after (admitted 7) (omega arith, omega arith) first_admitted

-- `first` waits in the gap, and its id becomes committable.
abbrev gap_pool : TxPool
gap_pool = record empty_pool {
  gap = (2, record { transaction = first; cycles = some 7; size = 200 }) ∷ [];
}

abbrev moving : Option (TxPool × Cache)
moving =
    update_tx_pool_for_reorg (in_place PendingEntry) (in_place ProposedEntry) insert scripts 9 view
      (λ id. false) (λ txs. txs) (λ hash cycles cache. cache) [] [] [] gap_pool []

abbrev pool_moved : TxPool
pool_moved = elim moving [ none ↦ empty_pool | some (p, cache) ↦ p ]

gap_is_empty : pool_moved.gap ≡ []
unfolding update_tx_pool_for_reorg ckb_miner_opt.Pool.TxPool.remove_expired
    ckb_miner_opt.Pool.TxPool.remove_committed_txs_from_proposed
    ckb_miner_opt.Pool.Reorg.add_again_each ckb_miner_opt.Pool.Reorg.release_each
    ckb_miner_opt.Pool.Reorg.propose_each ckb_miner_opt.Pool.Reorg.take_proposed
    ckb_miner_opt.Pool.Admission.proposed_tx_and_descendants
    ckb_miner_opt.Pool.Admission.proposed_tx ckb_miner_opt.Pool.Admission.resolve_tx_from_proposed
    ckb_miner_opt.Core.Cell.Resolve.resolve_transaction
    ckb_miner_opt.Core.Cell.Resolve.resolve_inputs ckb_miner_opt.Core.Transaction.is_cellbase
    ckb_miner_opt.Core.Cell.Resolve.resolve_input ckb_miner_opt.Core.Transaction.is_issuing_dao
    ckb_miner_opt.Base.Maps.contains ckb_miner_opt.Core.Cell.Providers.overlay_cell
    ckb_miner_opt.Pool.Proposed.proposed_cell ckb_miner_opt.Base.Maps.get
    ckb_miner_opt.Core.Cell.Resolve.resolve_deps ckb_miner_opt.Core.Cell.Resolve.resolve_dep
    ckb_miner_opt.Core.Transaction.OutPoint-discrete ckb_miner_opt.Base.ℕ_discrete
    ckb_miner_opt.Pool.Admission.verify_rtx ckb_miner_opt.Verify.Tx.verify_contextual
    ckb_miner_opt.Verify.Tx.verify_maturity ckb_miner_opt.Core.Cell.pool_cell
    ckb_miner_opt.Verify.Since.verify ckb_miner_opt.Dao.Fee.calculate_transaction_fee
    ckb_miner_opt.Dao.Fee.inputs_from ckb_miner_opt.Dao.Fee.input_capacity
    ckb_miner_opt.Core.Capacity.safe_add ckb_miner_opt.Core.Capacity.Sums.sum_from
    ckb_miner_opt.Dao.Fee.fee_of ckb_miner_opt.Pool.Admission.try_proposed_orphan_by_ancestor
    ckb_miner_opt.Pool.Orphan.remove_by_ancestor ckb_miner_opt.Pool.TxPool.add_proposed
    ckb_miner_opt.Base.Maps.remove ckb_miner_opt.Pool.Admission.place_orphans
gap_is_empty = refl

first_is_proposed : contains_key pool_moved.proposed.vertices 2 ≡ true
unfolding ckb_miner_opt.Base.Maps.get update_tx_pool_for_reorg
    ckb_miner_opt.Pool.TxPool.remove_expired
    ckb_miner_opt.Pool.TxPool.remove_committed_txs_from_proposed
    ckb_miner_opt.Pool.Reorg.add_again_each ckb_miner_opt.Pool.Reorg.release_each
    ckb_miner_opt.Pool.Reorg.propose_each ckb_miner_opt.Pool.Reorg.take_proposed
    ckb_miner_opt.Pool.Admission.proposed_tx_and_descendants
    ckb_miner_opt.Pool.Admission.proposed_tx ckb_miner_opt.Pool.Admission.resolve_tx_from_proposed
    ckb_miner_opt.Core.Cell.Resolve.resolve_transaction
    ckb_miner_opt.Core.Cell.Resolve.resolve_inputs ckb_miner_opt.Core.Transaction.is_cellbase
    ckb_miner_opt.Core.Cell.Resolve.resolve_input ckb_miner_opt.Core.Transaction.is_issuing_dao
    ckb_miner_opt.Base.Maps.contains ckb_miner_opt.Core.Cell.Providers.overlay_cell
    ckb_miner_opt.Pool.Proposed.proposed_cell ckb_miner_opt.Core.Cell.Resolve.resolve_deps
    ckb_miner_opt.Core.Cell.Resolve.resolve_dep ckb_miner_opt.Core.Transaction.OutPoint-discrete
    ckb_miner_opt.Base.ℕ_discrete ckb_miner_opt.Pool.Admission.verify_rtx
    ckb_miner_opt.Verify.Tx.verify_contextual ckb_miner_opt.Verify.Tx.verify_maturity
    ckb_miner_opt.Core.Cell.pool_cell ckb_miner_opt.Verify.Since.verify
    ckb_miner_opt.Dao.Fee.calculate_transaction_fee ckb_miner_opt.Dao.Fee.inputs_from
    ckb_miner_opt.Dao.Fee.input_capacity ckb_miner_opt.Core.Capacity.safe_add
    ckb_miner_opt.Core.Capacity.Sums.sum_from ckb_miner_opt.Dao.Fee.fee_of
    ckb_miner_opt.Pool.Admission.try_proposed_orphan_by_ancestor
    ckb_miner_opt.Pool.Orphan.remove_by_ancestor ckb_miner_opt.Pool.TxPool.add_proposed
    ckb_miner_opt.Base.Maps.remove ckb_miner_opt.Pool.Admission.place_orphans
    ckb_miner_opt.Pool.Proposed.add_tx insert ckb_miner_opt.Core.Transaction.from_tx_hash
first_is_proposed = refl
