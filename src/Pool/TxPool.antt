-- ===== src/Pool/TxPool.antt =====
-- `TxPool` of shared/src/tx_pool/pool.rs: the pools together, with the sums of sizes and cycles. `none` is a panic,
-- and the end of the fuel in the proposed pool, which has enough. `ins` and the like say where a linked map
-- puts an entry.
use ckb_miner_opt.Base.{
  ℕ, ◌+◌, ◌-◌, Bool, true, false, ◌||◌, Option, none, some, List, [], ◌∷◌, ltb, if◌then◌else◌,
}
use ckb_miner_opt.Base.Maps.{get, remove, contains_key, nat_key}
use ckb_miner_opt.Base.Outcome.{u64_modulus}
use ckb_miner_opt.Core.Capacity.{Capacity}
use ckb_miner_opt.Core.Transaction.{ProposalShortId, Transaction, OutPoint, proposal_short_id}
use ckb_miner_opt.Pool.Types.{DefectEntry, PendingEntry, ProposedEntry, Entries, Insertion}
use ckb_miner_opt.Pool.Pending.{PendingQueue, add_pending}
use ckb_miner_opt.Pool.Proposed.{ProposedPool, add_tx, remove_vertex}
use ckb_miner_opt.Pool.Proposed.Commit.{remove_committed_tx}
use ckb_miner_opt.Pool.Orphan.{OrphanPool, add_orphan}

pub record TxPoolConfig : Type 0 where
  pub max_mem_size : ℕ
  pub max_cycles : ℕ

pub record TxPool : Type 0 where
  pub config : TxPoolConfig
  pub pending : PendingQueue
  pub gap : PendingQueue
  pub proposed : ProposedPool
  pub orphan : OrphanPool
  pub conflict : Entries DefectEntry
  pub last_txs_updated_at : ℕ
  pub total_tx_size : ℕ
  pub total_tx_cycles : ℕ

-- `a + b` under overflow checks.
abbrev pub checked_total : ℕ → ℕ → Option ℕ
checked_total a b = if ltb (a + b) u64_modulus then some (a + b) else none

abbrev pub reach_limit : ℕ → ℕ → ℕ → Option Bool
reach_limit total more limit = elim (checked_total total more) [
  | none ↦ none
  | some sum ↦ some (ltb limit sum)
]

-- `reach_tx_pool_limit` of shared/src/chain_state.rs, whose `||` leaves out the second test.
unfoldable pub reach_tx_pool_limit : ℕ → ℕ → TxPool → Option Bool
reach_tx_pool_limit size cycles p = elim (reach_limit p.total_tx_size size p.config.max_mem_size) [
  | none ↦ none
  | some true ↦ some true
  | some false ↦ reach_limit p.total_tx_cycles cycles p.config.max_cycles
]

unfoldable pub update_statics_for_add_tx : ℕ → ℕ → TxPool → Option TxPool
update_statics_for_add_tx size cycles p = elim (checked_total p.total_tx_size size) [
  | none ↦ none
  | some total_size ↦ elim (checked_total p.total_tx_cycles cycles) [
    | none ↦ none
    | some total_cycles ↦
        some (record p { total_tx_size = total_size; total_tx_cycles = total_cycles })
  ]
]

-- `checked_sub(..).unwrap_or_else(|| 0)`
unfoldable pub update_statics_for_remove_tx : ℕ → ℕ → TxPool → TxPool
update_statics_for_remove_tx size cycles p = record p {
  total_tx_size = p.total_tx_size - size;
  total_tx_cycles = p.total_tx_cycles - cycles;
}

abbrev pub is_none {ℓ} : {A : Type ℓ} → Option A → Bool
is_none none = true
is_none (some _) = false

abbrev pub contains_proposal_id : TxPool → ProposalShortId → Bool
contains_proposal_id p id =
    contains_key p.pending id
    || contains_key p.conflict id
    || contains_key p.proposed.vertices id
    || contains_key p.orphan.vertices id

module _ (ins : Insertion PendingEntry) where
  unfoldable pub enqueue_tx : Option ℕ → ℕ → Transaction → TxPool → TxPool × Bool
  enqueue_tx cycles size tx p =
      let added = add_pending ins cycles size tx p.pending in
      if contains_key p.gap (proposal_short_id tx)
      then (p, false)
      else (record p { pending = added.0 }, is_none added.1)

  unfoldable pub add_gap : Option ℕ → ℕ → Transaction → TxPool → TxPool × Bool
  add_gap cycles size tx p =
      let added = add_pending ins cycles size tx p.gap in
      (record p { gap = added.0 }, is_none added.1)

  abbrev pub enqueue_each : List ProposedEntry → TxPool → TxPool
  enqueue_each [] p = p
  enqueue_each (e ∷ es) p = enqueue_each es (enqueue_tx (some e.cycles) e.size e.transaction p).0

  abbrev pub expire_gap : ProposalShortId → Option PendingEntry → TxPool → TxPool
  expire_gap id none p = p
  expire_gap id (some e) p =
      (enqueue_tx e.cycles e.size e.transaction (record p { gap = remove id p.gap })).0

  unfoldable pub remove_expired : List ProposalShortId → TxPool → Option TxPool
  remove_expired [] p = some p
  remove_expired (id ∷ ids) p =
      let p' = expire_gap id (get p.gap id) p in
      elim (remove_vertex id p'.proposed) [
        | none ↦ none
        | some (proposed, entries) ↦
            remove_expired ids (enqueue_each entries (record p' { proposed = proposed }))
      ]

abbrev pub forget_entries : List ProposedEntry → TxPool → TxPool
forget_entries [] p = p
forget_entries (e ∷ es) p = forget_entries es (update_statics_for_remove_tx e.size e.cycles p)

unfoldable pub remove_committed_txs_from_proposed : List Transaction → TxPool → Option TxPool
remove_committed_txs_from_proposed [] p = some p
remove_committed_txs_from_proposed (tx ∷ txs) p = elim (remove_committed_tx tx p.proposed) [
  | none ↦ none
  | some (proposed, entries) ↦
      remove_committed_txs_from_proposed txs
        (forget_entries entries (record p { proposed = proposed }))
]

unfoldable pub add_orphan_tx :
    Option ℕ → ℕ → Transaction → List OutPoint → TxPool → TxPool × Option DefectEntry
add_orphan_tx cycles size tx unknown p =
    let added = add_orphan cycles size tx unknown p.orphan in
    (record p { orphan = added.0 }, added.1)

unfoldable pub add_proposed :
    Insertion ProposedEntry → ℕ → ℕ → Capacity → ℕ → Transaction → TxPool → TxPool
add_proposed ins now cycles fee size tx p = record p {
  last_txs_updated_at = now;
  proposed = add_tx ins cycles fee size tx p.proposed;
}
