-- ===== src/Pool.antt =====
-- shared/src/tx_pool: the pools of transactions that wait for a block.
pub mod Types
pub mod Edges
pub mod Proposed
pub mod Orphan
pub mod Pending
pub mod TxPool
pub mod Admission
pub mod Reorg
