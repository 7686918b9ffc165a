-- ===== src/Chain/State.antt =====
-- `ChainState` of shared/src/chain_state.rs without its pool: the tip, the live cells, the proposals, the
-- epoch, and what it tells about cells and headers. Where a cell is live the store must know it.
use ckb_miner_opt.Base.{
  ℕ, true, false, Option, none, some, List, [], ◌∷◌, ◌==◌, if◌then◌else◌, get_elem?,
}
use ckb_miner_opt.Base.Maps.{get, nat_key}
use ckb_miner_opt.Core.Transaction.{H256, CellOutPoint, CellOutput}
use ckb_miner_opt.Core.TransactionMeta.{TransactionMeta, is_dead}
use ckb_miner_opt.Core.Block.{Header, Block, union_proposal_ids}
use ckb_miner_opt.Core.Cell.{
  CellMeta, CellStatus, HeaderStatus, CellProvider, HeaderProvider, from_cell_output,
}
use ckb_miner_opt.CellSet.{CellSet, CellSetDiff, new_overlay, overlay_get}
use ckb_miner_opt.Epoch.{EpochExt}
use ckb_miner_opt.Proposal.{TxProposalTable, insert_ids, remove_ids}
use ckb_miner_opt.Chain.Store.{ChainStore}

pub record ChainState : Type 0 where
  pub tip_header : Header
  pub total_difficulty : ℕ
  pub cell_set : CellSet
  pub proposal_ids : TxProposalTable
  pub current_epoch_ext : EpochExt

abbrev pub Outputs : Type 0
Outputs = List (H256 × List CellOutput)

-- `expect`
abbrev pub live_or_panic : Option CellMeta → Option CellStatus
live_or_panic none = none
live_or_panic (some meta) = some (CellStatus.live meta)

abbrev pub meta_status : Option TransactionMeta → ℕ → Option CellMeta → Option CellStatus
meta_status none index meta = some CellStatus.unknown
meta_status (some tx_meta) index meta = elim (is_dead tx_meta index) [
  | none ↦ some CellStatus.unknown
  | some true ↦ some CellStatus.dead
  | some false ↦ live_or_panic meta
]

-- `CellProvider for ChainState`
unfoldable pub chain_cell : ChainStore → CellSet → CellProvider
chain_cell s cells o = elim o.cell [
  | none ↦ some CellStatus.unspecified
  | some c ↦ meta_status (get cells.inner c.tx_hash) c.index (s.get_cell_meta c.tx_hash c.index)
]

-- `HeaderProvider for ChainState`
unfoldable pub chain_header : ChainStore → HeaderProvider
chain_header s o = elim o.block_hash [
  | none ↦ HeaderStatus.unspecified
  | some hash ↦ elim (s.get_block_header hash) [
    | none ↦ HeaderStatus.unknown
    | some header ↦ elim o.cell [
      | none ↦ HeaderStatus.live header
      | some c ↦ elim (s.get_transaction_block c.tx_hash) [
        | none ↦ HeaderStatus.inclusion_failure
        | some block_hash ↦
            if block_hash == hash then HeaderStatus.live header else HeaderStatus.inclusion_failure
      ]
    ]
  ]
]

-- The metadata that `ChainCellSetOverlay` builds from an output of the fork; the index must be there.
abbrev pub fork_meta : CellOutPoint → TransactionMeta → Option CellOutput → Option CellMeta
fork_meta c tx_meta none = none
fork_meta c tx_meta (some output) = some (record (from_cell_output output) {
  out_point = c;
  block_info = some (record { number = tx_meta.block_number; epoch = tx_meta.epoch_number });
  cellbase = tx_meta.cellbase;
})

abbrev pub overlay_meta : ChainStore → Outputs → CellOutPoint → TransactionMeta → Option CellMeta
overlay_meta s outputs c tx_meta = elim (get outputs c.tx_hash) [
  | some os ↦ fork_meta c tx_meta (get_elem? os c.index)
  | none ↦ s.get_cell_meta c.tx_hash c.index
]

abbrev pub overlay_status :
    ChainStore → Outputs → CellOutPoint → Option TransactionMeta → Option CellStatus
overlay_status s outputs c none = some CellStatus.unknown
overlay_status s outputs c (some tx_meta) =
    meta_status (some tx_meta) c.index (overlay_meta s outputs c tx_meta)

-- `CellProvider for ChainCellSetOverlay`, as `new_cell_set_overlay` makes it.
unfoldable pub overlay_cells : ChainStore → CellSet → CellSetDiff → Outputs → CellProvider
overlay_cells s cells diff outputs o = elim o.cell [
  | none ↦ some CellStatus.unspecified
  | some c ↦ overlay_status s outputs c (overlay_get (new_overlay cells diff) c.tx_hash)
]

abbrev pub insert_proposal_ids : Block → TxProposalTable → TxProposalTable
insert_proposal_ids block t = (insert_ids block.header.number (union_proposal_ids block) t).0

abbrev pub remove_proposal_ids : Block → TxProposalTable → TxProposalTable
remove_proposal_ids block t = (remove_ids block.header.number t).0

-- `update_proposal_ids` of chain/src/chain.rs
abbrev pub remove_each : List Block → TxProposalTable → TxProposalTable
remove_each [] t = t
remove_each (b ∷ bs) t = remove_each bs (remove_proposal_ids b t)

abbrev pub insert_each : List Block → TxProposalTable → TxProposalTable
insert_each [] t = t
insert_each (b ∷ bs) t = insert_each bs (insert_proposal_ids b t)

unfoldable pub update_proposal_ids : List Block → List Block → TxProposalTable → TxProposalTable
update_proposal_ids detached attached t = insert_each attached (remove_each detached t)
