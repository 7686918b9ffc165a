-- ===== src/Tests.antt =====
-- Concrete runs: the theorems of the other modules applied where their hypotheses hold.
mod Data
mod Cells
mod Values
mod Txs
mod Consensus
mod Headers
mod Blocks
mod ProposedPool
mod Orphans
mod Chains
mod Syncs
mod Daos
mod Pools
