-- ===== src/Pool/Reorg.antt =====
-- `update_tx_pool_for_reorg` of shared/src/chain_state.rs: the pool after the tip moved. `collect` is the linked
-- set that is made of a list (a git dependency), `remember_cycles` the `insert` of the cache of cycles; the other
-- parameters are those of the admission. `none` is a panic.
use ckb_miner_opt.Base.{
  ℕ, Bool, true, false, Option, none, some, List, [], ◌∷◌, ◌++◌, ◌==◌, if◌then◌else◌,
}
use ckb_miner_opt.Base.Maps.{get, nat_key}
use ckb_miner_opt.Base.Outcome.{Outcome}
use ckb_miner_opt.Core.Transaction.{H256, ProposalShortId, Transaction, proposal_short_id}
use ckb_miner_opt.Core.Block.{Block}
use ckb_miner_opt.Core.Cell.{ResolvedTransaction}
use ckb_miner_opt.Verify.Error.{TransactionError}
use ckb_miner_opt.Verify.Commit.{skip_one}
use ckb_miner_opt.Verify.Contextual.{Cache}
use ckb_miner_opt.Verify.Tx.{serialized_size}
use ckb_miner_opt.Pool.Types.{DefectEntry, PendingEntry, ProposedEntry, Entries, Insertion}
use ckb_miner_opt.Pool.TxPool.{
  TxPool, update_statics_for_add_tx, enqueue_tx, add_gap, remove_expired,
  remove_committed_txs_from_proposed,
}
use ckb_miner_opt.Pool.Admission.{
  admitted, refused, PoolView, cycles_or_zero, proposed_tx_and_descendants,
  try_proposed_orphan_by_ancestor,
}

abbrev pub without_cellbases : List Block → List Transaction
without_cellbases [] = []
without_cellbases (b ∷ bs) = skip_one b.transactions ++ without_cellbases bs

abbrev pub has_tx : H256 → List Transaction → Bool
has_tx hash [] = false
has_tx hash (tx ∷ txs) = if tx.hash == hash then true else has_tx hash txs

-- `detached.difference(&attached)`
abbrev pub difference_of : List Transaction → List Transaction → List Transaction
difference_of [] attached = []
difference_of (tx ∷ txs) attached =
    let rest = difference_of txs attached in if has_tx tx.hash attached then rest else tx ∷ rest

-- What is taken out of a pool: cycles, size and transaction.
abbrev pub Taken : Type 0
Taken = List (Option ℕ × ℕ × Transaction)

abbrev pub taken_pending : PendingEntry → Option ℕ × ℕ × Transaction
taken_pending e = (e.cycles, e.size, e.transaction)

abbrev pub taken_defect : DefectEntry → Option ℕ × ℕ × Transaction
taken_defect e = (e.cycles, e.size, e.transaction)

-- The entries of a pool that match, and those that stay.
unfoldable pub take_matching :
    {V : Type 0}
    → (V → Option ℕ × ℕ × Transaction)
    → (ProposalShortId → Bool)
    → Entries V
    → Taken × Entries V
take_matching taken matches [] = ([], [])
take_matching taken matches ((id, e) ∷ es) =
    let (out, rest) = take_matching taken matches es in
    if matches id then (taken e ∷ out, rest) else (out, (id, e) ∷ rest)

module _ (ins : Insertion PendingEntry) (place : Insertion ProposedEntry)
    (remember : ProposalShortId → DefectEntry → Entries DefectEntry → Entries DefectEntry)
    (scripts : ResolvedTransaction → ℕ → Outcome TransactionError ℕ) (now : ℕ) (view : PoolView)
    (contains_gap : ProposalShortId → Bool) (collect : List Transaction → List Transaction)
    (remember_cycles : H256 → ℕ → Cache → Cache) where
  abbrev pub count_if : Bool → ℕ → Option ℕ → TxPool → Option TxPool
  count_if false size cycles p = some p
  count_if true size cycles p = update_statics_for_add_tx size (cycles_or_zero cycles) p

  abbrev pub remember_if_none : H256 → ℕ → Option ℕ → Cache → Cache
  remember_if_none hash cycles none cache = remember_cycles hash cycles cache
  remember_if_none hash cycles (some _) cache = cache

  abbrev pub with_cache : Cache → Option TxPool → Option (TxPool × Cache)
  with_cache cache none = none
  with_cache cache (some p) = some (p, cache)

  -- A transaction that left the chain and is proposed.
  unfoldable pub propose_again : Transaction → Option ℕ → TxPool → Cache → Option (TxPool × Cache)
  propose_again tx cached p cache =
      elim (proposed_tx_and_descendants ins place remember scripts now view cached
        (serialized_size tx) tx p) [
          | none ↦ none
          | some (p', refused _) ↦ some (p', cache)
          | some (p', admitted cycles) ↦
              with_cache (remember_if_none tx.hash cycles cached cache)
                (update_statics_for_add_tx (serialized_size tx) cycles p')
        ]

  -- A transaction that left the chain.
  unfoldable pub add_again : Transaction → TxPool → Cache → Option (TxPool × Cache)
  add_again tx p cache =
      let cached = get cache tx.hash in
      let size = serialized_size tx in
      let gap = add_gap ins cached size tx p in
      let pending = enqueue_tx ins cached size tx p in
      if view.contains_proposal_id (proposal_short_id tx)
      then propose_again tx cached p cache
      else if contains_gap (proposal_short_id tx)
      then with_cache cache (count_if gap.1 size cached gap.0)
      else with_cache cache (count_if pending.1 size cached pending.0)

  unfoldable pub add_again_each : List Transaction → TxPool → Cache → Option (TxPool × Cache)
  add_again_each [] p cache = some (p, cache)
  add_again_each (tx ∷ txs) p cache = elim (add_again tx p cache) [
    | none ↦ none
    | some (p', cache') ↦ add_again_each txs p' cache'
  ]

  unfoldable pub release_each : List Transaction → TxPool → Option TxPool
  release_each [] p = some p
  release_each (tx ∷ txs) p =
      elim (try_proposed_orphan_by_ancestor ins place remember scripts now view tx p) [
        | none ↦ none
        | some p' ↦ release_each txs p'
      ]

  -- The entries that become committable, those that become proposed, and the pool without them.
  unfoldable pub take_proposed : TxPool → Taken × Taken × TxPool
  unfolding take_matching
  take_proposed p =
      let proposed = view.contains_proposal_id in
      let (from_gap, gap) = take_matching taken_pending proposed p.gap in
      let (from_pending, pending) = take_matching taken_pending proposed p.pending in
      let (gap_pending, pending') = take_matching taken_pending contains_gap pending in
      let (from_conflict, conflict) = take_matching taken_defect proposed p.conflict in
      let (gap_conflict, conflict') = take_matching taken_defect contains_gap conflict in
      (
        from_gap ++ from_pending ++ from_conflict,
        gap_pending ++ gap_conflict,
        record p { gap = gap; pending = pending'; conflict = conflict' },
      )

  unfoldable pub propose_each : Taken → TxPool → Option TxPool
  propose_each [] p = some p
  propose_each ((cycles, size, tx) ∷ taken) p =
      elim (proposed_tx_and_descendants ins place remember scripts now view cycles size tx p) [
        | none ↦ none
        | some (p', _) ↦ propose_each taken p'
      ]

  abbrev pub gap_each : Taken → TxPool → TxPool
  gap_each [] p = p
  gap_each ((cycles, size, tx) ∷ taken) p = gap_each taken (add_gap ins cycles size tx p).0

  abbrev pub move_on : Taken × Taken × TxPool → Option TxPool
  move_on (entries, gaps, p) = elim (propose_each entries p) [
    | none ↦ none
    | some p' ↦ some (gap_each gaps p')
  ]

  unfoldable pub update_tx_pool_for_reorg :
      List Block → List Block → List ProposalShortId → TxPool → Cache → Option (TxPool × Cache)
  update_tx_pool_for_reorg detached_blocks attached_blocks detached_proposal_id p cache =
      let attached = collect (without_cellbases attached_blocks) in
      let retain = difference_of (collect (without_cellbases detached_blocks)) attached in
      elim (remove_expired ins detached_proposal_id p) [
        | none ↦ none
        | some p₁ ↦ elim (remove_committed_txs_from_proposed attached p₁) [
          | none ↦ none
          | some p₂ ↦ elim (add_again_each retain p₂ cache) [
            | none ↦ none
            | some (p₃, cache') ↦ elim (release_each attached p₃) [
              | none ↦ none
              | some p₄ ↦ with_cache cache' (move_on (take_proposed p₄))
            ]
          ]
        ]
      ]
