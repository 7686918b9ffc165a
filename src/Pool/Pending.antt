-- ===== src/Pool/Pending.antt =====
-- `PendingQueue` of shared/src/tx_pool/pending.rs.
use ckb_miner_opt.Base.{ℕ, Option, none, some, List, take, map}
use ckb_miner_opt.Base.Maps.{get, nat_key}
use ckb_miner_opt.Core.Transaction.{
  ProposalShortId, Transaction, CellOutPoint, from_tx_hash, proposal_short_id, get_output,
}
use ckb_miner_opt.Core.Cell.{CellStatus, CellProvider, pool_cell}
use ckb_miner_opt.Pool.Types.{PendingEntry, Entries, Insertion}

abbrev pub PendingQueue : Type 0
PendingQueue = Entries PendingEntry

-- `add_tx`: the queue after it, and the entry that was replaced.
unfoldable pub add_pending :
    Insertion PendingEntry
    → Option ℕ
    → ℕ
    → Transaction
    → PendingQueue
    → PendingQueue × Option PendingEntry
add_pending ins cycles size tx q =
    let id = proposal_short_id tx in
    (ins.place id (record { transaction = tx; cycles = cycles; size = size }) q, get q id)

abbrev pub fetch : ℕ → PendingQueue → List ProposalShortId
fetch n q = map (λ e. e.0) (take n q)

abbrev pub output_status : CellOutPoint → Option PendingEntry → CellStatus
output_status c none = CellStatus.unknown
output_status c (some e) = elim (get_output e.transaction c.index) [
  | none ↦ CellStatus.unknown
  | some output ↦ CellStatus.live (pool_cell output c)
]

unfoldable pub pending_cell : PendingQueue → CellProvider
pending_cell q o = elim o.cell [
  | none ↦ some CellStatus.unspecified
  | some c ↦ some (output_status c (get q (from_tx_hash c.tx_hash)))
]
