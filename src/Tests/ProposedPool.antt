-- ===== src/Tests/ProposedPool.antt =====
-- The proposed pool.
use ckb_miner_opt.Base.{ℕ, ◌≡◌, refl, none, some, [], ◌∷◌, arith, ℕ_discrete}
use ckb_miner_opt.Base.Maps.{get, contains, nat_key, insert, remove, set_remove}
use ckb_miner_opt.Core.Transaction.{
  Transaction, new_cell, out_point_key, OutPoint-discrete, from_tx_hash,
}
use ckb_miner_opt.Core.Cell.{CellStatus, pool_cell}
use ckb_miner_opt.Pool.Types.{ProposedEntry, in_place}
use ckb_miner_opt.Pool.Edges.{no_edges, delete_value_in_deps, insert_deps}
use ckb_miner_opt.Pool.Proposed.{
  ProposedPool, Removed, add_tx, proposed_cell, remove_vertex, drain, drop_vertex,
}
use ckb_miner_opt.Pool.Proposed.Commit.{dec_ref, remove_committed_tx}
use ckb_miner_opt.Pool.Proposed.Removal.{Leaves, remove_vertex-total, remove_vertex-Leaves}
use ckb_miner_opt.Pool.Proposed.Cells.{add_tx-output_live}
use ckb_miner_opt.Tests.Data.{transaction, spend, first, second, output, hash_of}

abbrev no_pool : ProposedPool
no_pool = record { vertices = []; edges = no_edges }

-- `second` spends the output of `first`.
abbrev pool : ProposedPool
pool =
    add_tx (in_place ProposedEntry) 7 0 100 second
      (add_tx (in_place ProposedEntry) 7 0 100 first no_pool)

remove_vertex-total_example : (r : Removed) × (remove_vertex 2 pool ≡ some r)
remove_vertex-total_example = remove_vertex-total 2 pool

abbrev entry : Transaction → ℕ → ProposedEntry
entry tx refs_count = record {
  transaction = tx;
  refs_count = refs_count;
  cycles = 7;
  fee = 0;
  size = 100;
}

-- Removing `first` removes `second` too.
first_leaves : remove_vertex 2 pool ≡ some (no_pool, entry first 0 ∷ entry second 1 ∷ [])
unfolding remove_vertex drain add_tx insert ℕ_discrete from_tx_hash get drop_vertex
    delete_value_in_deps insert_deps OutPoint-discrete remove set_remove contains
first_leaves = refl

remove_vertex-Leaves_example :
    (get no_pool.vertices 2 ≡ none) × Leaves pool (no_pool, entry first 0 ∷ entry second 1 ∷ [])
remove_vertex-Leaves_example = remove_vertex-Leaves 2 pool first_leaves

-- The child came first.
add_tx-output_live_example :
    proposed_cell
      (add_tx
        (in_place ProposedEntry)
        7
        0
        100
        first
        (add_tx (in_place ProposedEntry) 7 0 100 second no_pool))
      (new_cell (hash_of 2) 0)
    ≡ some (CellStatus.live (pool_cell output (record { tx_hash = hash_of 2; index = 0 })))
add_tx-output_live_example =
    add_tx-output_live (in_place ProposedEntry) 7 0 100 first
      (add_tx (in_place ProposedEntry) 7 0 100 second no_pool) 0 (omega arith) refl

-- Names an output of `first` as a dep.
abbrev reader : Transaction
reader =
    transaction 5 (new_cell (hash_of 2) 0 ∷ []) (spend (new_cell (hash_of 1) 7) ∷ []) (output ∷ [])

abbrev readers_pool : ProposedPool
readers_pool =
    add_tx (in_place ProposedEntry) 7 0 100 first
      (add_tx (in_place ProposedEntry) 7 0 100 reader no_pool)

-- The reader came first, so it does not count `first`; when `first` is committed, the count of the
-- reader falls below zero, which panics.
reader_count_panics : remove_committed_tx first readers_pool ≡ none
unfolding remove_committed_tx get add_tx insert ℕ_discrete from_tx_hash insert_deps
    OutPoint-discrete contains dec_ref remove
reader_count_panics = refl
