-- ===== src/Chain/Provider.antt =====
-- `ChainProvider` as `Shared` implements it (shared/src/shared.rs).
pub mod Ancestor
use ckb_miner_opt.Base.{ℕ, zero, suc, ◌-◌, Option, none, some, ltb, if◌then◌else◌}
use ckb_miner_opt.Core.Transaction.{H256}
use ckb_miner_opt.Core.Block.{Header}
use ckb_miner_opt.Epoch.{EpochExt, U256Arithmetic, Adjusted}
use ckb_miner_opt.Epoch
use ckb_miner_opt.Chain.Store.{ChainStore, Consensus}

-- The `while` loop, with a turn for each height to go down.
unfoldable pub walk : ChainStore → ℕ → Header → Option Header
walk s zero index_walk = some index_walk
walk s (suc turns) index_walk = elim (s.get_block_header index_walk.parent_hash) [
  | none ↦ none
  | some header ↦ walk s turns header
]

-- From a block that is not on the main chain.
unfoldable pub ancestor_on_fork : ChainStore → H256 → ℕ → Option Header
ancestor_on_fork s base number = elim (s.get_block_header base) [
  | none ↦ none
  | some header ↦ if ltb header.number number then none else walk s (header.number - number) header
]

unfoldable pub ancestor_on_main : ChainStore → ℕ → ℕ → Option Header
ancestor_on_main s n_number number =
    if ltb n_number number
    then none
    else elim (s.get_block_hash number) [ none ↦ none | some hash ↦ s.get_block_header hash ]

unfoldable pub get_ancestor : ChainStore → H256 → ℕ → Option Header
get_ancestor s base number = elim (s.get_block_number base) [
  | some n_number ↦ ancestor_on_main s n_number number
  | none ↦ ancestor_on_fork s base number
]

unfoldable pub get_block_epoch : ChainStore → H256 → Option EpochExt
get_block_epoch s hash = elim (s.get_block_epoch_index hash) [
  | none ↦ none
  | some index ↦ s.get_epoch_ext index
]

abbrev pub total_uncles_count : ChainStore → H256 → Option ℕ
total_uncles_count s hash = elim (s.get_block_ext hash) [
  | none ↦ none
  | some ext ↦ some ext.total_uncles_count
]

unfoldable pub next_epoch_ext :
    U256Arithmetic → ChainStore → Consensus → EpochExt → Header → Adjusted (Option EpochExt)
next_epoch_ext u s c last_epoch header =
    Epoch.next_epoch_ext u c.epoch last_epoch header s.get_block_header (total_uncles_count s)
