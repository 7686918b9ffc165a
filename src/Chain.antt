-- ===== src/Chain.antt =====
-- The chain service (chain/src/chain.rs) and the chain that it keeps.
pub mod Store
pub mod Provider
pub mod State
pub mod Fork
pub mod Reconcile
pub mod Service
