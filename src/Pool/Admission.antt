-- ===== src/Pool/Admission.antt =====
-- The admission of transactions to the pool in shared/src/chain_state.rs. `view` is what the pool reads of the
-- chain state, `remember` the `insert` of the cache of conflicts (crate lru-cache), which may drop entries,
-- and `now` the clock.
pub mod Lowers
pub mod Limits
use ckb_miner_opt.Base.{ℕ, ◌+◌, Bool, true, false, Option, none, some, List, [], ◌∷◌, if◌then◌else◌}
use ckb_miner_opt.Base.Maps.{get, contains, nat_key}
use ckb_miner_opt.Base.Outcome.{Outcome, ok, err, panic, ◌>>=◌, ◌>>◌, map_err}
use ckb_miner_opt.Core.Transaction.{
  H256, Bytes, ProposalShortId, Transaction, OutPoint, proposal_short_id,
}
use ckb_miner_opt.Core.Cell.{CellProvider, HeaderProvider, ResolvedTransaction, UnresolvableError}
use ckb_miner_opt.Core.Cell.Providers.{overlay_cell}
use ckb_miner_opt.Core.Cell.Resolve.{resolve_transaction}
use ckb_miner_opt.Dao.Fee.{DataLoader, calculate_transaction_fee}
use ckb_miner_opt.Verify.Error.{TransactionError}
use ckb_miner_opt.Verify.MedianTime.{MedianTimeContext}
use ckb_miner_opt.Verify.Since.{SinceContext}
use ckb_miner_opt.Verify.Tx.{TxLimits, verify_contextual, verify_transaction, serialized_size}
use ckb_miner_opt.Pool.Types.{DefectEntry, PendingEntry, ProposedEntry, Entries, Insertion}
use ckb_miner_opt.Pool.Pending.{pending_cell}
use ckb_miner_opt.Pool.Proposed.{proposed_cell}
use ckb_miner_opt.Pool.Orphan.{remove_by_ancestor}
use ckb_miner_opt.Pool.TxPool.{
  TxPool, reach_tx_pool_limit, update_statics_for_add_tx, update_statics_for_remove_tx, enqueue_tx,
  add_orphan_tx, add_proposed, is_none,
}
use ckb_miner_opt.Chain.Store.{ChainStore, Consensus}
use ckb_miner_opt.Chain.State.{ChainState, chain_cell, chain_header}

pub data PoolError : Type 0 where
  unresolvable_transaction : UnresolvableError → PoolError
  invalid_tx : TransactionError → PoolError
  limit_reached tx_fee : PoolError

-- `Result<Cycle, PoolError>`, beside the pool that an error may have changed too.
pub data Admission : Type 0 where
  admitted : ℕ → Admission
  refused : PoolError → Admission

pub record PoolView : Type 0 where
  pub cells : CellProvider
  pub headers : HeaderProvider
  pub contains_proposal_id : ProposalShortId → Bool
  pub since : SinceContext
  pub limits : TxLimits
  pub max_block_cycles : ℕ
  pub loader : DataLoader

-- `BlockMedianTimeContext for &ChainState`
abbrev pub chain_median : ChainStore → Consensus → MedianTimeContext
chain_median s c = record {
  median_block_count = c.median_time_block_count;
  timestamp_and_parent = λ hash. elim (s.get_block_header hash) [
    | none ↦ none
    | some header ↦ some (header.timestamp, header.parent_hash)
  ];
  get_block_hash = s.get_block_hash;
}

abbrev pub view_of : (Bytes → Option H256) → ChainStore → Consensus → ChainState → PoolView
view_of from_slice s c state = record {
  cells = chain_cell s state.cell_set;
  headers = chain_header s;
  contains_proposal_id = λ id. contains state.proposal_ids.set id;
  since = record {
    median = chain_median s c;
    block_number = state.tip_header.number + 1;
    epoch_number = state.current_epoch_ext.number;
  };
  limits = c.limits;
  max_block_cycles = c.max_block_cycles;
  loader = record {
    get_cell_output = s.get_cell_output;
    get_block_ext = s.get_block_ext;
    from_slice = from_slice;
  };
}

abbrev pub cycles_or_zero : Option ℕ → ℕ
cycles_or_zero none = 0
cycles_or_zero (some cycles) = cycles

module _ (ins : Insertion PendingEntry) (place : Insertion ProposedEntry)
    (remember : ProposalShortId → DefectEntry → Entries DefectEntry → Entries DefectEntry)
    (scripts : ResolvedTransaction → ℕ → Outcome TransactionError ℕ) (now : ℕ)
    (view : PoolView) where
  abbrev pub Resolved : Type 0
  Resolved = Outcome UnresolvableError (ResolvedTransaction × List OutPoint)

  unfoldable pub resolve_tx_from_pending_and_proposed : Transaction → TxPool → Resolved
  resolve_tx_from_pending_and_proposed tx p =
      resolve_transaction
        (overlay_cell (pending_cell p.pending)
          (overlay_cell (pending_cell p.gap) (overlay_cell (proposed_cell p.proposed) view.cells)))
        view.headers tx []

  unfoldable pub resolve_tx_from_proposed : Transaction → TxPool → Resolved
  resolve_tx_from_proposed tx p =
      resolve_transaction (overlay_cell (proposed_cell p.proposed) view.cells) view.headers tx []

  unfoldable pub verify_rtx : ResolvedTransaction → Option ℕ → Outcome PoolError ℕ
  verify_rtx rtx (some cycles) = do
    map_err invalid_tx (verify_contextual view.limits view.since rtx)
    ok cycles
  verify_rtx rtx none =
      map_err invalid_tx
        (verify_transaction scripts view.limits view.since view.max_block_cycles rtx)

  abbrev pub unless_none {ℓ} : {A : Type ℓ} → ℕ → ℕ → Option A → TxPool → TxPool
  unless_none size cycles none p = p
  unless_none size cycles (some _) p = update_statics_for_remove_tx size cycles p

  -- What becomes of a transaction that is not resolved.
  unfoldable pub put_aside : UnresolvableError → Option ℕ → ℕ → Transaction → TxPool → TxPool
  put_aside (UnresolvableError.dead o) cycles size tx p =
      let id = proposal_short_id tx in
      let entry : DefectEntry = record {
        transaction = tx;
        refs_count = 0;
        cycles = cycles;
        size = size;
      } in
      unless_none size (cycles_or_zero cycles) (get p.conflict id)
        (record p { conflict = remember id entry p.conflict })
  put_aside (UnresolvableError.unknown outs) cycles size tx p =
      let (p', old) = add_orphan_tx cycles size tx outs p in
      unless_none size (cycles_or_zero cycles) old p'
  put_aside UnresolvableError.empty cycles size tx p =
      update_statics_for_remove_tx size (cycles_or_zero cycles) p
  put_aside (UnresolvableError.unspecified_input_cell o) cycles size tx p =
      update_statics_for_remove_tx size (cycles_or_zero cycles) p
  put_aside (UnresolvableError.invalid_header o) cycles size tx p =
      update_statics_for_remove_tx size (cycles_or_zero cycles) p
  put_aside (UnresolvableError.out_of_order o) cycles size tx p =
      update_statics_for_remove_tx size (cycles_or_zero cycles) p

  unfoldable pub propose_with_fee :
      ℕ → ℕ → Transaction → TxPool → Outcome (Unit {0}) ℕ → Option (TxPool × Admission)
  propose_with_fee cycles size tx p panic = none
  propose_with_fee cycles size tx p (err _) =
      some (update_statics_for_remove_tx size cycles p, refused tx_fee)
  propose_with_fee cycles size tx p (ok fee) =
      some (add_proposed place now cycles fee size tx p, admitted cycles)

  unfoldable pub propose_verified :
      Option ℕ
      → ℕ
      → Transaction
      → ResolvedTransaction
      → TxPool
      → Outcome PoolError ℕ
      → Option (TxPool × Admission)
  unfolding propose_with_fee
  propose_verified old size tx rtx p panic = none
  propose_verified old size tx rtx p (err e) =
      some (update_statics_for_remove_tx size (cycles_or_zero old) p, refused e)
  propose_verified old size tx rtx p (ok cycles) =
      propose_with_fee cycles size tx p (calculate_transaction_fee view.loader rtx)

  unfoldable pub propose_resolved :
      Option ℕ → ℕ → Transaction → TxPool → Resolved → Option (TxPool × Admission)
  unfolding propose_verified put_aside
  propose_resolved cycles size tx p panic = none
  propose_resolved cycles size tx p (err e) =
      some (put_aside e cycles size tx p, refused (unresolvable_transaction e))
  propose_resolved cycles size tx p (ok (rtx, seen)) =
      propose_verified cycles size tx rtx p (verify_rtx rtx cycles)

  unfoldable pub proposed_tx : Option ℕ → ℕ → Transaction → TxPool → Option (TxPool × Admission)
  unfolding propose_resolved
  proposed_tx cycles size tx p = propose_resolved cycles size tx p (resolve_tx_from_proposed tx p)

  -- One entry that waited for an output of an ancestor.
  unfoldable pub place_orphan : Bool → DefectEntry → TxPool → Option TxPool
  place_orphan false e p = some (enqueue_tx ins e.cycles e.size e.transaction p).0
  place_orphan true e p = elim (proposed_tx e.cycles e.size e.transaction p) [
    | none ↦ none
    | some (p', admitted _) ↦ some p'
    | some (p', refused _) ↦ some (update_statics_for_remove_tx e.size (cycles_or_zero e.cycles) p')
  ]

  unfoldable pub place_orphans : Bool → List DefectEntry → TxPool → Option TxPool
  place_orphans is_proposed [] p = some p
  place_orphans is_proposed (e ∷ es) p = elim (place_orphan is_proposed e p) [
    | none ↦ none
    | some p' ↦ place_orphans is_proposed es p'
  ]

  unfoldable pub try_proposed_orphan_by_ancestor : Transaction → TxPool → Option TxPool
  try_proposed_orphan_by_ancestor tx p = elim (remove_by_ancestor tx p.orphan) [
    | panic ↦ none
    | err _ ↦ none
    | ok released ↦
        place_orphans (view.contains_proposal_id (proposal_short_id tx)) released.txs
          (record p { orphan = released.pool })
  ]

  unfoldable pub proposed_tx_and_descendants :
      Option ℕ → ℕ → Transaction → TxPool → Option (TxPool × Admission)
  proposed_tx_and_descendants cycles size tx p = elim (proposed_tx cycles size tx p) [
    | none ↦ none
    | some (p', refused e) ↦ some (p', refused e)
    | some (p', admitted c) ↦ elim (try_proposed_orphan_by_ancestor tx p') [
      | none ↦ none
      | some p'' ↦ some (p'', admitted c)
    ]
  ]

  abbrev pub count_in : ℕ → ℕ → TxPool → Option (TxPool × Admission)
  count_in size cycles p = elim (update_statics_for_add_tx size cycles p) [
    | none ↦ none
    | some p' ↦ some (p', admitted cycles)
  ]

  abbrev pub add_as_proposed : ℕ → ℕ → Transaction → TxPool → Option (TxPool × Admission)
  add_as_proposed size cycles tx p = elim (proposed_tx_and_descendants (some cycles) size tx p) [
    | none ↦ none
    | some (p', refused e) ↦ some (p', refused e)
    | some (p', admitted _) ↦ count_in size cycles p'
  ]

  abbrev pub add_as_pending : ℕ → ℕ → Transaction → TxPool → Option (TxPool × Admission)
  add_as_pending size cycles tx p =
      let (p', is_new) = enqueue_tx ins (some cycles) size tx p in
      if is_new then count_in size cycles p' else some (p', admitted cycles)

  unfoldable pub add_verified :
      ℕ → Transaction → TxPool → Outcome PoolError ℕ → Option (TxPool × Admission)
  add_verified size tx p panic = none
  add_verified size tx p (err e) = some (p, refused e)
  add_verified size tx p (ok cycles) =
      if view.contains_proposal_id (proposal_short_id tx)
      then add_as_proposed size cycles tx p
      else add_as_pending size cycles tx p

  unfoldable pub add_resolved :
      ℕ → ℕ → Transaction → TxPool → Resolved → Option (TxPool × Admission)
  unfolding add_verified
  add_resolved size cycles tx p panic = none
  add_resolved size cycles tx p (err e) = some (p, refused (unresolvable_transaction e))
  add_resolved size cycles tx p (ok (rtx, seen)) =
      add_verified size tx p (verify_rtx rtx (some cycles))

  unfoldable pub add_tx_to_pool : Transaction → ℕ → TxPool → Option (TxPool × Admission)
  unfolding add_resolved
  add_tx_to_pool tx cycles p = elim (reach_tx_pool_limit (serialized_size tx) cycles p) [
    | none ↦ none
    | some true ↦ some (p, refused limit_reached)
    | some false ↦
        add_resolved (serialized_size tx) cycles tx p (resolve_tx_from_pending_and_proposed tx p)
  ]
