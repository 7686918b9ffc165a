-- ===== src/Verify.antt =====
-- verification/src: the verifiers of transactions, headers, uncles and blocks.
pub mod Error
pub mod MedianTime
pub mod Since
pub mod Tx
pub mod Commit
pub mod Contextual
pub mod Uncles
pub mod Header
pub mod Block
