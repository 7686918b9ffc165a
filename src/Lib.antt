-- ===== src/Lib.antt =====
-- A verification library for the core of the CKB node: what makes a transaction and a block valid, how
-- a block becomes the tip, how the set of live cells, the proposals and the epochs follow the chain,
-- the pool of transactions that may be committed, and the headers of peers. Definitions are shallow
-- translations of the Rust sources, by clauses, and can be run. Paths below are from the repository's root.
--
-- How the parts interact. A block is checked by itself (Verify/Block), its header against its parent
-- and the epoch (Verify/Header, Epoch), its uncles (Verify/Uncles) and its proposals (Verify/Commit).
-- Its transactions are resolved against providers of cells and headers (Core/Cell) that read an overlay
-- of the cell set (CellSet), and each resolved transaction is verified (Verify/Tx, Verify/Since). When
-- the tip changes, the cell set is updated by the diff of the fork (CellSet/Update) and the proposal
-- table moves on (Proposal). The chain service (Chain) composes these: a block that is better than the
-- tip makes the fork's blocks leave and join (Chain/Fork), those not verified before are verified one
-- after the other (Chain/Reconcile, Verify/Contextual), and the state moves on (Chain/Service). The
-- proposed pool (Pool/Proposed) is a provider of cells too. Headers of peers are kept with skip
-- pointers (Sync/HeaderView), locators find where two chains part (Sync/Locator), and blocks that were
-- asked for are kept by peer and by block (Sync/Inflight).
--
-- Which file models what:
--   Base and below        shared helpers: Boolean tests and list functions on native numbers, maps and
--                         sets as lists with decidable keys, results that fail or panic
--   Core/Capacity         util/occupied-capacity/core/src/units.rs (Capacity, safe_add and the like)
--   Core/Transaction      core/src/transaction.rs and core/src/script.rs
--   Core/Transaction/Occupied
--                         the derived occupied_capacity (util/occupied-capacity/core/src/traits.rs)
--   Core/TransactionMeta  core/src/transaction_meta.rs
--   Core/Block            core/src/header.rs, core/src/uncle.rs and core/src/block.rs
--   Core/Cell             core/src/cell.rs; Providers: overlays and the providers of a block;
--                         Resolve: resolve_transaction, its loops one function each, and
--                         its use for a whole block in chain/src/chain.rs
--   CellSet               shared/src/cell_set.rs; Update: the cell part of ChainState::update_tip in
--                         shared/src/chain_state.rs
--   Proposal              shared/src/tx_proposal_table.rs
--   Epoch                 core/src/extras.rs (EpochExt) and next_epoch_ext of spec/src/consensus.rs
--   Core/Extras           core/src/extras.rs (BlockExt and DaoStats)
--   Chain/Store           the getters of store/src/store.rs that the chain uses, and the parameters of
--                         spec/src/consensus.rs
--   Chain/Provider        ChainProvider for Shared (shared/src/shared.rs)
--   Chain/State           ChainState of shared/src/chain_state.rs, its cell and header providers
--   Chain/Fork            find_fork of chain/src/chain.rs, its loops one function each
--   Chain/Reconcile       reconcile_main_chain of chain/src/chain.rs
--   Chain/Service         insert_block of chain/src/chain.rs
--   Dao                   util/dao/src/lib.rs; Fee: util/dao/utils/src/lib.rs with the loader of
--                         store/src/data_loader_wrapper.rs
--   Reward                util/reward-calculator/src/lib.rs
--   Sync/HeaderView       HeaderView and the header map of sync/src/types.rs
--   Sync/Locator          locators and common ancestors of sync/src/types.rs
--   Sync/Inflight         InflightBlocks of sync/src/types.rs
--   Verify/Error          the TransactionError of verification/src/error.rs
--   Verify/MedianTime     traits/src/block_median_time_context.rs
--   Verify/Since          SinceVerifier of verification/src/transaction_verifier.rs
--   Verify/Tx             the other verifiers of verification/src/transaction_verifier.rs
--   Verify/Header         verification/src/header_verifier.rs
--   Verify/Uncles         verification/src/uncles_verifier.rs, and the UncleVerifierContext of
--                         verification/src/contextual_block_verifier.rs
--   Verify/Commit         CommitVerifier of verification/src/contextual_block_verifier.rs
--   Verify/Contextual     the rest of verification/src/contextual_block_verifier.rs
--   Verify/Block          verification/src/block_verifier.rs
--   Pool/Edges            Edges of shared/src/tx_pool/proposed.rs
--   Pool/Types            the entries of shared/src/tx_pool/types.rs
--   Pool/Orphan           OrphanPool of shared/src/tx_pool/orphan.rs
--   Pool/Proposed         ProposedPool of shared/src/tx_pool/proposed.rs; Commit: what leaves it when a
--                         transaction is committed
--   Pool/Pending          shared/src/tx_pool/pending.rs
--   Pool/TxPool           TxPool of shared/src/tx_pool/pool.rs
--   Pool/Admission        what admits transactions to the pool in shared/src/chain_state.rs
--   Pool/Reorg            update_tx_pool_for_reorg of shared/src/chain_state.rs
--   Tests and below       concrete runs
--
-- State and errors. State is passed explicitly: an operation takes the state last and returns the state
-- after it with its result. Rust results are the type Outcome, whose third case is a panic: a failed
-- expect, an index out of range, or an arithmetic overflow, which the release profile in Cargo.toml
-- checks. Where no error is possible, Option stands for "or panics". Machine integers are natural
-- numbers with the tests on 2^64 and the reductions modulo 2^32 written out. Hash maps and hash sets
-- are lists; where the source iterates over one, the list is one order of it, and theorems hold for all.
--
-- Loops are recursion on lists. Loops over a queue have fuel: in ProposedPool::remove_vertex and
-- OrphanPool::recursion_remove for as many removals as there are vertices, in
-- OrphanPool::remove_by_ancestor for one round more than there are vertices. That is enough, as the
-- queue grows only by the outputs of a vertex that was removed. The while loop of the commit verifier
-- has as many turns as there are heights in the window, which is what its condition allows. The loops
-- of find_fork have a turn for each height they go down, get_locator one for each height and one more,
-- the search by skip pointers one for each height above its target: every turn goes down.
--
-- Parameters, for code that is not in the repository or is not modelled: U256 multiplication and
-- division (exact within 256 bits) and addition, the virtual machine, the proof of work, hash and root computations,
-- the clock, the store, and where LinkedHashMap::insert puts an entry.
--
-- Not modelled: hash computation, serialisation and builders; script execution; the database, whose
-- batches are lists of writes; the network, RPC, the relay of blocks and transactions, the messages of
-- the synchroniser, the miner and the binaries.
pub mod Base
pub mod Core
pub mod CellSet
pub mod Verify
pub mod Pool
pub mod Sync
pub mod Dao
pub mod Reward
pub mod Chain
pub mod Proposal
pub mod Epoch
pub mod Tests
