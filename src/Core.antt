-- ===== src/Core.antt =====
-- core/src and util/occupied-capacity: the data that the other crates share.
pub mod Capacity
pub mod Transaction
pub mod Block
pub mod Extras
pub mod Cell
pub mod TransactionMeta
