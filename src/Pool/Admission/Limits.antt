-- ===== src/Pool/Admission/Limits.antt =====
-- The admission of a transaction (shared/src/chain_state.rs) keeps the pool within its limits.
use ckb_miner_opt.Base.{
  ℕ, ◌+◌, ◌≤◌, ◌≡◌, refl, sym, ap, ◌∙◌, Bool, true, false, Option, none, some, List, arith, ltb,
  if-ind, option-ind, some-fst, subst, Bool-cases, inl, inr,
}
use ckb_miner_opt.Base.Maps.{nat_key}
use ckb_miner_opt.Base.Outcome.{Outcome, ok, err, panic, u64_modulus, >>=-eq-ok, map_err}
use ckb_miner_opt.Core.Transaction.{ProposalShortId, Transaction, OutPoint, proposal_short_id}
use ckb_miner_opt.Core.Cell.{ResolvedTransaction, UnresolvableError}
use ckb_miner_opt.Verify.Error.{TransactionError}
use ckb_miner_opt.Verify.Tx.{serialized_size, verify_contextual}
use ckb_miner_opt.Pool.Types.{DefectEntry, PendingEntry, ProposedEntry, Entries, Insertion}
use ckb_miner_opt.Pool.TxPool.{TxPool, reach_tx_pool_limit, update_statics_for_add_tx, enqueue_tx}
use ckb_miner_opt.Pool.Admission.{
  PoolError, limit_reached, invalid_tx, Admission, admitted, refused, PoolView,
  proposed_tx_and_descendants, add_verified, add_resolved, add_tx_to_pool,
  resolve_tx_from_pending_and_proposed, verify_rtx, count_in, add_as_pending,
}
use ckb_miner_opt.Pool.Admission.Lowers.{
  NoMore, enqueue_tx-NoMore, Lowers, Lowers-some, proposed_tx_and_descendants-Lowers,
}

-- The totals after a transaction is counted in.
update_statics_for_add_tx-eq :
    (size cycles : ℕ) (p q : TxPool)
    → update_statics_for_add_tx size cycles p ≡ some q
    → (q.config ≡ p.config)
      × (q.total_tx_size ≡ p.total_tx_size + size)
      × (q.total_tx_cycles ≡ p.total_tx_cycles + cycles)
unfolding update_statics_for_add_tx
update_statics_for_add_tx-eq size cycles p q h =
    elim (Bool-cases (ltb (p.total_tx_size + size) u64_modulus)) [
      | inr over ↦ absurd (cc)
      | inl fits ↦ elim (Bool-cases (ltb (p.total_tx_cycles + cycles) u64_modulus)) [
        | inr over ↦ absurd (cc)
        | inl fits' ↦
            let same : ◌≡◌ {A = TxPool}
                (record p {
                  total_tx_size = p.total_tx_size + size;
                  total_tx_cycles = p.total_tx_cycles + cycles;
                })
                q =
              cc in
            (
              ap (λ x. x.config) (sym same),
              ap (λ x. x.total_tx_size) (sym same),
              ap (λ x. x.total_tx_cycles) (sym same),
            )
      ]
    ]

-- A limit that is not reached.
reach_tx_pool_limit-false :
    (size cycles : ℕ) (p : TxPool)
    → reach_tx_pool_limit size cycles p ≡ some false
    → (p.total_tx_size + size ≤ p.config.max_mem_size)
      × (p.total_tx_cycles + cycles ≤ p.config.max_cycles)
unfolding reach_tx_pool_limit
reach_tx_pool_limit-false size cycles p h = (ground arith, ground arith)

abbrev pub WithinLimits : TxPool → Type 0
WithinLimits p =
    (p.total_tx_size ≤ p.config.max_mem_size) × (p.total_tx_cycles ≤ p.config.max_cycles)

-- What a step returns stays within the limits, which stay the same.
abbrev Keeps : TxPool → Option (TxPool × Admission) → Type 0
Keeps p o =
    (p' : TxPool) (r : Admission)
    → o ≡ some (p', r)
    → (p'.config ≡ p.config)
      × (p'.total_tx_size ≤ p.config.max_mem_size)
      × (p'.total_tx_cycles ≤ p.config.max_cycles)

NoMore-Keeps : (p q : TxPool) (a : Admission) → WithinLimits p → NoMore p q → Keeps p (some (q, a))
NoMore-Keeps p q a (size, cycles) less p' r h =
    let (same, size', cycles') = Lowers-some p q a less p' r h in (same, omega arith, omega arith)

module _ (ins : Insertion PendingEntry) (place : Insertion ProposedEntry)
    (remember : ProposalShortId → DefectEntry → Entries DefectEntry → Entries DefectEntry)
    (scripts : ResolvedTransaction → ℕ → Outcome TransactionError ℕ) (now : ℕ)
    (view : PoolView) where
  count_in-Keeps :
      (size cycles : ℕ) (p q : TxPool)
      → NoMore p q
      → (p.total_tx_size + size ≤ p.config.max_mem_size)
        × (p.total_tx_cycles + cycles ≤ p.config.max_cycles)
      → Keeps p (count_in ins place remember scripts now view size cycles q)
  count_in-Keeps size cycles p q (config, less, less') (room, room') =
      option-ind (Keeps p) (update_statics_for_add_tx size cycles q) none _ (λ p' r h. absurd (cc))
        (λ q' counted p' r h.
          let (same, sum, sum') = update_statics_for_add_tx-eq size cycles q q' counted in
          let is : q' ≡ p' = some-fst h in
          subst
            (λ x.
              (x.config ≡ p.config)
              × (x.total_tx_size ≤ p.config.max_mem_size)
              × (x.total_tx_cycles ≤ p.config.max_cycles))
            is (same ∙ config, omega (arith, sum), omega (arith, sum')))

  add_as_proposed-after :
      (size cycles : ℕ) (p : TxPool) (o : Option (TxPool × Admission))
      → WithinLimits p
      → (p.total_tx_size + size ≤ p.config.max_mem_size)
        × (p.total_tx_cycles + cycles ≤ p.config.max_cycles)
      → Lowers p o
      → Keeps p (elim o [
        | none ↦ none
        | some (p', refused e) ↦ some (p', refused e)
        | some (p', admitted _) ↦ count_in ins place remember scripts now view size cycles p'
      ])
  add_as_proposed-after size cycles p none within room lowers = λ p' r h. absurd (cc)
  add_as_proposed-after size cycles p (some (q, refused e)) within room lowers =
      NoMore-Keeps p q (refused e) within (lowers q (refused e) refl)
  add_as_proposed-after size cycles p (some (q, admitted c)) within room lowers =
      count_in-Keeps size cycles p q (lowers q (admitted c) refl) room

  add_as_pending-Keeps :
      (size cycles : ℕ) (tx : Transaction) (p : TxPool)
      → WithinLimits p
      → (p.total_tx_size + size ≤ p.config.max_mem_size)
        × (p.total_tx_cycles + cycles ≤ p.config.max_cycles)
      → Keeps p (add_as_pending ins place remember scripts now view size cycles tx p)
  add_as_pending-Keeps size cycles tx p within room =
      let queued = enqueue_tx ins (some cycles) size tx p in
      let less = enqueue_tx-NoMore ins (some cycles) size tx p in
      if-ind (Keeps p) queued.1 (count_in ins place remember scripts now view size cycles queued.0)
        (some (queued.0, admitted cycles)) (λ _. count_in-Keeps size cycles p queued.0 less room)
        (λ _. NoMore-Keeps p queued.0 (admitted cycles) within less)

  verify_rtx-cycles :
      (rtx : ResolvedTransaction) (cycles c : ℕ)
      → verify_rtx ins place remember scripts now view rtx (some cycles) ≡ ok c
      → c ≡ cycles
  unfolding verify_rtx
  verify_rtx-cycles rtx cycles c h =
      let (_, _, same) =
        >>=-eq-ok (map_err invalid_tx (verify_contextual view.limits view.since rtx)) _ h in
      cc

  add_resolved-Keeps :
      (size cycles : ℕ) (tx : Transaction) (p : TxPool)
      (resolved : Outcome UnresolvableError (ResolvedTransaction × List OutPoint))
      → WithinLimits p
      → (p.total_tx_size + size ≤ p.config.max_mem_size)
        × (p.total_tx_cycles + cycles ≤ p.config.max_cycles)
      → Keeps p (add_resolved ins place remember scripts now view size cycles tx p resolved)
  unfolding add_resolved add_verified
  add_resolved-Keeps size cycles tx p panic within room = λ p' r h. absurd (cc)
  add_resolved-Keeps size cycles tx p (err e) within room =
      NoMore-Keeps p p _ within (refl, omega arith, omega arith)
  add_resolved-Keeps size cycles tx p (ok (rtx, seen)) within room =
      after (verify_rtx ins place remember scripts now view rtx (some cycles)) refl
    where
      after :
          (o : Outcome PoolError ℕ)
          → verify_rtx ins place remember scripts now view rtx (some cycles) ≡ o
          → Keeps p (add_verified ins place remember scripts now view size tx p o)
      after panic e = λ p' r h. absurd (cc)
      after (err f) e = NoMore-Keeps p p _ within (refl, omega arith, omega arith)
      after (ok c) e =
          let same = verify_rtx-cycles rtx cycles c e in
          let room' : (p.total_tx_size + size ≤ p.config.max_mem_size)
              × (p.total_tx_cycles + c ≤ p.config.max_cycles) =
            (room.0, omega (arith, same, room.1)) in
          if-ind (Keeps p) (view.contains_proposal_id (proposal_short_id tx)) _ _
            (λ _.
              add_as_proposed-after size c p
                (proposed_tx_and_descendants ins place remember scripts now view (some c) size tx p)
                within room'
                (proposed_tx_and_descendants-Lowers ins place remember scripts now view (some c)
                  size tx p))
            (λ _. add_as_pending-Keeps size c tx p within room')

  -- Where the totals of sizes and cycles are within the limits of the configuration, they are so after
  -- `add_tx_to_pool`, whether the transaction is admitted or refused, and the limits are the same.
  pub add_tx_to_pool-WithinLimits :
      (tx : Transaction) (cycles : ℕ) (p p' : TxPool) (r : Admission)
      → WithinLimits p
      → add_tx_to_pool ins place remember scripts now view tx cycles p ≡ some (p', r)
      → WithinLimits p' × (p'.config ≡ p.config)
  unfolding add_tx_to_pool
  add_tx_to_pool-WithinLimits tx cycles p p' r within h =
      let (same, size', cycles') =
        after (reach_tx_pool_limit (serialized_size tx) cycles p) refl p' r h in
      (
        (omega (arith, ap (λ c. c.max_mem_size) same), omega (arith, ap (λ c. c.max_cycles) same)),
        same,
      )
    where
      after :
          (o : Option Bool)
          → reach_tx_pool_limit (serialized_size tx) cycles p ≡ o
          → Keeps p (elim o [
            | none ↦ none
            | some true ↦ some (p, refused limit_reached)
            | some false ↦
                add_resolved ins place remember scripts now view
                  (serialized_size tx)
                  cycles
                  tx
                  p
                  (resolve_tx_from_pending_and_proposed ins place remember scripts now view tx p)
          ])
      after none e = λ q a k. absurd (cc)
      after (some true) e = NoMore-Keeps p p _ within (refl, omega arith, omega arith)
      after (some false) e =
          add_resolved-Keeps (serialized_size tx) cycles tx p
            (resolve_tx_from_pending_and_proposed ins place remember scripts now view tx p) within
            (reach_tx_pool_limit-false (serialized_size tx) cycles p e)
