-- ===== src/Chain/Store.antt =====
-- What the chain asks of its store (the getters of `ChainStore` in store/src/store.rs, which read a
-- database), and the consensus parameters (spec/src/consensus.rs) that it reads.
use ckb_miner_opt.Base.{ℕ, ◌+◌, ◌-◌, Bool, Option, none, some, List, ltb, leb, if◌then◌else◌}
use ckb_miner_opt.Core.Capacity.{Capacity, Ratio}
use ckb_miner_opt.Core.Transaction.{H256, CellOutput, Script, Transaction}
use ckb_miner_opt.Core.Block.{Header, UncleBlock, Block}
use ckb_miner_opt.Core.Cell.{CellMeta}
use ckb_miner_opt.Core.Extras.{BlockExt}
use ckb_miner_opt.Epoch.{EpochExt}
use ckb_miner_opt.Epoch
use ckb_miner_opt.Proposal.{ProposalWindow, Ids}
use ckb_miner_opt.Verify.Tx.{TxLimits}

pub record ChainStore : Type 0 where
  pub get_block_hash : ℕ → Option H256
  pub get_block_number : H256 → Option ℕ
  pub get_block_header : H256 → Option Header
  pub get_block : H256 → Option Block
  pub get_block_ext : H256 → Option BlockExt
  pub get_block_epoch_index : H256 → Option H256
  pub get_epoch_ext : H256 → Option EpochExt
  pub get_block_proposal_txs_ids : H256 → Option Ids
  pub get_block_uncles : H256 → Option (List UncleBlock)
  pub get_block_txs_hashes : H256 → Option (List H256)
  pub get_cellbase : H256 → Option Transaction
  pub get_cell_output : H256 → ℕ → Option CellOutput
  pub is_uncle : H256 → Bool
  pub get_cell_meta : H256 → ℕ → Option CellMeta
  -- the block hash of `get_transaction_address`
  pub get_transaction_block : H256 → Option H256

pub record Consensus : Type 0 where
  pub epoch : Epoch.Consensus
  pub genesis_epoch_ext : EpochExt
  pub secondary_epoch_reward : Capacity
  pub tx_proposal_window : ProposalWindow
  pub proposer_reward_ratio : Ratio
  pub bootstrap_lock : Script
  pub limits : TxLimits
  pub max_block_cycles : ℕ
  pub median_time_block_count : ℕ

abbrev pub finalization_delay_length : Consensus → ℕ
finalization_delay_length c = c.tx_proposal_window.farthest + 1

abbrev pub reserve_number : Consensus → ℕ
reserve_number c = finalization_delay_length c

-- `checked_sub`, and nothing for the genesis block.
unfoldable pub finalize_target : Consensus → ℕ → Option ℕ
finalize_target c block_number =
    if leb (finalization_delay_length c) block_number
    then if ltb (block_number - finalization_delay_length c) 1
      then none
      else some (block_number - finalization_delay_length c)
    else none
