-- ===== src/Core/Cell/Providers.antt =====
-- core/src/cell.rs: overlays of providers, the cells of a block that is being verified, and the
-- headers of the blocks that a fork attaches and detaches.
pub mod Order
use ckb_miner_opt.Base.{
  ℕ, suc, Option, none, some, List, [], ◌∷◌, ◌==◌, leb, if◌then◌else◌, get_elem?,
}
use ckb_miner_opt.Base.Outcome.{Outcome, ok, err, ◌>>◌}
use ckb_miner_opt.Base.Maps.{get, insert, contains_key, nat_key}
use ckb_miner_opt.Core.Transaction.{
  H256, CellOutPoint, OutPoint, CellOutput, Transaction, input_pts,
}
use ckb_miner_opt.Core.Block.{Header, Block}
use ckb_miner_opt.Core.Cell.{
  CellStatus, HeaderStatus, CellProvider, HeaderProvider, UnresolvableError,
}

-- `OverlayCellProvider::cell`: the lower provider is asked only where the upper one does not know.
unfoldable pub overlay_cell : CellProvider → CellProvider → CellProvider
overlay_cell overlay cells o = elim (overlay o) [
  | none ↦ none
  | some (CellStatus.live m) ↦ some (CellStatus.live m)
  | some CellStatus.dead ↦ some CellStatus.dead
  | some CellStatus.unknown ↦ cells o
  | some CellStatus.unspecified ↦ some CellStatus.unspecified
]

unfoldable pub overlay_header : HeaderProvider → HeaderProvider → HeaderProvider
overlay_header overlay headers o = elim (overlay o) [
  | HeaderStatus.live h ↦ HeaderStatus.live h
  | HeaderStatus.inclusion_failure ↦ HeaderStatus.inclusion_failure
  | HeaderStatus.unknown ↦ headers o
  | HeaderStatus.unspecified ↦ HeaderStatus.unspecified
]

pub record BlockCellProvider : Type 0 where
  pub output_indices : List (H256 × ℕ)
  pub block : Block

-- `enumerate().map(|(idx, tx)| (tx.hash(), idx)).collect()`: a later transaction of the same hash
-- takes the place of an earlier one.
unfoldable pub indices_from : ℕ → List Transaction → List (H256 × ℕ) → List (H256 × ℕ)
indices_from i [] m = m
indices_from i (tx ∷ txs) m = indices_from (suc i) txs (insert tx.hash i m)

-- The index in the block of the transaction that an out point refers to.
unfoldable pub index_of : List (H256 × ℕ) → OutPoint → Option ℕ
index_of m o = elim o.cell [ none ↦ none | some c ↦ get m c.tx_hash ]

-- One `for` over the out points of the transaction at `idx`.
unfoldable pub check_order :
    List (H256 × ℕ) → ℕ → List OutPoint → Outcome UnresolvableError (Unit {0})
check_order m idx [] = ok tt
check_order m idx (o ∷ os) =
    let rest = check_order m idx os in
    elim (index_of m o) [
      | none ↦ rest
      | some i ↦ if leb idx i then err (UnresolvableError.out_of_order o) else rest
    ]

unfoldable pub check_orders :
    List (H256 × ℕ) → ℕ → List Transaction → Outcome UnresolvableError (Unit {0})
unfolding check_order
check_orders m idx [] = ok tt
check_orders m idx (tx ∷ txs) = do
  check_order m idx tx.deps
  check_order m idx (input_pts tx)
  check_orders m (suc idx) txs

-- `BlockCellProvider::new`
unfoldable pub new_block_cells : Block → Outcome UnresolvableError BlockCellProvider
unfolding check_orders indices_from
new_block_cells b = do
  let indices = indices_from 0 b.transactions []
  check_orders indices 0 b.transactions
  ok (record { output_indices = indices; block = b })

block_output : Block → CellOutPoint → ℕ → Option CellOutput → CellStatus
block_output b c i none = CellStatus.unknown
block_output b c i (some output) = CellStatus.live (record {
  cell_output = some output;
  out_point = c;
  block_info = some (record { number = b.header.number; epoch = b.header.epoch });
  cellbase = i == 0;
  capacity = output.capacity;
  data_hash = none;
})

-- `self.block.transactions()[*i]` would panic out of range.
unfoldable pub block_cell : BlockCellProvider → CellProvider
unfolding block_output
block_cell p o = elim o.cell [
  | none ↦ some CellStatus.unspecified
  | some c ↦ elim (get p.output_indices c.tx_hash) [
    | none ↦ some CellStatus.unknown
    | some i ↦ elim (get_elem? p.block.transactions i) [
      | none ↦ none
      | some tx ↦ some (block_output p.block c i (get_elem? tx.outputs c.index))
    ]
  ]
]

pub record BlockHeadersProvider : Type 0 where
  pub attached_indices : List (H256 × Header)
  pub attached_transaction_blocks : List (H256 × H256)
  pub detached_indices : List (H256 × Header)

attach_transactions : H256 → List Transaction → List (H256 × H256) → List (H256 × H256)
attach_transactions h [] m = m
attach_transactions h (tx ∷ txs) m = attach_transactions h txs (insert tx.hash h m)

unfoldable pub push_attached : Block → BlockHeadersProvider → BlockHeadersProvider
unfolding attach_transactions
push_attached b p = record p {
  attached_indices = insert b.header.hash b.header p.attached_indices;
  attached_transaction_blocks =
      attach_transactions b.header.hash b.transactions p.attached_transaction_blocks;
}

unfoldable pub push_detached : Block → BlockHeadersProvider → BlockHeadersProvider
push_detached b p = record p { detached_indices = insert b.header.hash b.header p.detached_indices }

-- The header is live if no cell is asked for, or if the cell's transaction is in that block.
unfoldable pub included : Option H256 → H256 → Header → HeaderStatus
included none h header = HeaderStatus.inclusion_failure
included (some h') h header =
    if h' == h then HeaderStatus.live header else HeaderStatus.inclusion_failure

unfoldable pub block_header : BlockHeadersProvider → HeaderProvider
unfolding included
block_header p o = elim o.block_hash [
  | none ↦ HeaderStatus.unspecified
  | some h ↦
      if contains_key p.detached_indices h
      then HeaderStatus.unknown
      else elim (get p.attached_indices h) [
        | none ↦ HeaderStatus.unknown
        | some header ↦ elim o.cell [
          | none ↦ HeaderStatus.live header
          | some c ↦ included (get p.attached_transaction_blocks c.tx_hash) h header
        ]
      ]
]
