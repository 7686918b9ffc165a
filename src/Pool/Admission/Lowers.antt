-- ===== src/Pool/Admission/Lowers.antt =====
-- The steps of the admission of a transaction (shared/src/chain_state.rs) before it is counted in: none of
-- them makes the totals greater.
use ckb_miner_opt.Base.{
  ℕ, ◌≤◌, ◌≡◌, refl, ◌∙◌, Bool, true, false, Option, none, some, List, [], ◌∷◌, arith, if-ind,
  option-ind, some-fst, subst,
}
use ckb_miner_opt.Base.Maps.{get, contains_key, nat_key}
use ckb_miner_opt.Base.Outcome.{Outcome, ok, err, panic}
use ckb_miner_opt.Core.Transaction.{ProposalShortId, Transaction, OutPoint, proposal_short_id}
use ckb_miner_opt.Core.Cell.{ResolvedTransaction, UnresolvableError}
use ckb_miner_opt.Dao.Fee.{calculate_transaction_fee}
use ckb_miner_opt.Verify.Error.{TransactionError}
use ckb_miner_opt.Pool.Types.{DefectEntry, PendingEntry, ProposedEntry, Entries, Insertion}
use ckb_miner_opt.Pool.Orphan.{remove_by_ancestor, Released, Releasing}
use ckb_miner_opt.Pool.TxPool.{
  TxPool, update_statics_for_remove_tx, enqueue_tx, add_orphan_tx, add_proposed,
}
use ckb_miner_opt.Pool.Admission.{
  PoolError, Admission, admitted, refused, PoolView, put_aside, propose_with_fee, propose_verified,
  propose_resolved, proposed_tx, place_orphan, place_orphans, try_proposed_orphan_by_ancestor,
  proposed_tx_and_descendants, unless_none, cycles_or_zero, resolve_tx_from_proposed, verify_rtx,
}

-- The totals do not grow, and the limits stay.
abbrev pub NoMore : TxPool → TxPool → Type 0
NoMore p p' =
    (p'.config ≡ p.config)
    × (p'.total_tx_size ≤ p.total_tx_size)
    × (p'.total_tx_cycles ≤ p.total_tx_cycles)

pub NoMore-trans : (p q r : TxPool) → NoMore p q → NoMore q r → NoMore p r
NoMore-trans p q r (same, size, cycles) (same', size', cycles') =
    (same' ∙ same, omega arith, omega arith)

pub update_statics_for_remove_tx-NoMore :
    (size cycles : ℕ) (p : TxPool) → NoMore p (update_statics_for_remove_tx size cycles p)
unfolding update_statics_for_remove_tx
update_statics_for_remove_tx-NoMore size cycles p = (refl, omega arith, omega arith)

pub enqueue_tx-NoMore :
    (ins : Insertion PendingEntry) (cycles : Option ℕ) (size : ℕ) (tx : Transaction) (p : TxPool)
    → NoMore p (enqueue_tx ins cycles size tx p).0
unfolding enqueue_tx
enqueue_tx-NoMore ins cycles size tx p =
    if-ind (λ (r : TxPool × Bool). NoMore p r.0) (contains_key p.gap (proposal_short_id tx)) _ _
      (λ _. (refl, omega arith, omega arith)) (λ _. (refl, omega arith, omega arith))

-- What a step that may end the program returns has no greater totals.
abbrev pub Lowers : TxPool → Option (TxPool × Admission) → Type 0
Lowers p o = (p' : TxPool) (r : Admission) → o ≡ some (p', r) → NoMore p p'

pub Lowers-some : (p q : TxPool) (a : Admission) → NoMore p q → Lowers p (some (q, a))
Lowers-some p q a less p' r h = subst (NoMore p) (some-fst h) less

pub Lowers-none : (p : TxPool) → Lowers p none
Lowers-none p p' r h = absurd (cc)

module _ (ins : Insertion PendingEntry) (place : Insertion ProposedEntry)
    (remember : ProposalShortId → DefectEntry → Entries DefectEntry → Entries DefectEntry)
    (scripts : ResolvedTransaction → ℕ → Outcome TransactionError ℕ) (now : ℕ)
    (view : PoolView) where
  pub unless_none-NoMore :
      {A : Type 0} (size cycles : ℕ) (o : Option A) (p : TxPool)
      → NoMore p (unless_none ins place remember scripts now view size cycles o p)
  unless_none-NoMore size cycles none p = (refl, omega arith, omega arith)
  unless_none-NoMore size cycles (some a) p = update_statics_for_remove_tx-NoMore size cycles p

  pub put_aside-NoMore :
      (e : UnresolvableError) (cycles : Option ℕ) (size : ℕ) (tx : Transaction) (p : TxPool)
      → NoMore p (put_aside ins place remember scripts now view e cycles size tx p)
  unfolding put_aside update_statics_for_remove_tx add_orphan_tx
  put_aside-NoMore (UnresolvableError.dead o) cycles size tx p =
      let less =
        unless_none-NoMore size (cycles_or_zero cycles) (get p.conflict (proposal_short_id tx))
          (record p {
            conflict =
                remember (proposal_short_id tx)
                  (record { transaction = tx; refs_count = 0; cycles = cycles; size = size })
                  p.conflict;
          }) in
      (less.0, less.1, less.2)
  put_aside-NoMore (UnresolvableError.unknown outs) cycles size tx p =
      let added = add_orphan_tx cycles size tx outs p in
      let less = unless_none-NoMore size (cycles_or_zero cycles) added.1 added.0 in
      (less.0, less.1, less.2)
  put_aside-NoMore UnresolvableError.empty cycles size tx p = (refl, omega arith, omega arith)
  put_aside-NoMore (UnresolvableError.unspecified_input_cell o) cycles size tx p =
      (refl, omega arith, omega arith)
  put_aside-NoMore (UnresolvableError.invalid_header o) cycles size tx p =
      (refl, omega arith, omega arith)
  put_aside-NoMore (UnresolvableError.out_of_order o) cycles size tx p =
      (refl, omega arith, omega arith)

  pub propose_with_fee-Lowers :
      (cycles size : ℕ) (tx : Transaction) (p : TxPool) (fee : Outcome (Unit {0}) ℕ)
      → Lowers p (propose_with_fee ins place remember scripts now view cycles size tx p fee)
  unfolding propose_with_fee add_proposed
  propose_with_fee-Lowers cycles size tx p panic = Lowers-none p
  propose_with_fee-Lowers cycles size tx p (err e) =
      Lowers-some p _ _ (update_statics_for_remove_tx-NoMore size cycles p)
  propose_with_fee-Lowers cycles size tx p (ok fee) =
      Lowers-some p _ _ (refl, omega arith, omega arith)

  pub propose_verified-Lowers :
      (old : Option ℕ) (size : ℕ) (tx : Transaction) (rtx : ResolvedTransaction) (p : TxPool)
      (verified : Outcome PoolError ℕ)
      → Lowers p (propose_verified ins place remember scripts now view old size tx rtx p verified)
  unfolding propose_verified
  propose_verified-Lowers old size tx rtx p panic = Lowers-none p
  propose_verified-Lowers old size tx rtx p (err e) =
      Lowers-some p _ _ (update_statics_for_remove_tx-NoMore size (cycles_or_zero old) p)
  propose_verified-Lowers old size tx rtx p (ok cycles) =
      propose_with_fee-Lowers cycles size tx p (calculate_transaction_fee view.loader rtx)

  pub propose_resolved-Lowers :
      (cycles : Option ℕ) (size : ℕ) (tx : Transaction) (p : TxPool)
      (resolved : Outcome UnresolvableError (ResolvedTransaction × List OutPoint))
      → Lowers p (propose_resolved ins place remember scripts now view cycles size tx p resolved)
  unfolding propose_resolved
  propose_resolved-Lowers cycles size tx p panic = Lowers-none p
  propose_resolved-Lowers cycles size tx p (err e) =
      Lowers-some p _ _ (put_aside-NoMore e cycles size tx p)
  propose_resolved-Lowers cycles size tx p (ok (rtx, seen)) =
      propose_verified-Lowers cycles size tx rtx p
        (verify_rtx ins place remember scripts now view rtx cycles)

  pub proposed_tx-Lowers :
      (cycles : Option ℕ) (size : ℕ) (tx : Transaction) (p : TxPool)
      → Lowers p (proposed_tx ins place remember scripts now view cycles size tx p)
  unfolding proposed_tx
  proposed_tx-Lowers cycles size tx p =
      propose_resolved-Lowers cycles size tx p
        (resolve_tx_from_proposed ins place remember scripts now view tx p)

  abbrev pub LowersPool : TxPool → Option TxPool → Type 0
  LowersPool p o = (p' : TxPool) → o ≡ some p' → NoMore p p'

  pub LowersPool-some : (p q : TxPool) → NoMore p q → LowersPool p (some q)
  LowersPool-some p q less p' h = let same : q ≡ p' = cc in subst (NoMore p) same less

  pub place_orphan-after :
      (e : DefectEntry) (p : TxPool) (o : Option (TxPool × Admission))
      → Lowers p o
      → LowersPool p (elim o [
        | none ↦ none
        | some (p', admitted _) ↦ some p'
        | some (p', refused _) ↦
            some (update_statics_for_remove_tx e.size (cycles_or_zero e.cycles) p')
      ])
  place_orphan-after e p none lowers = λ p' h. absurd (cc)
  place_orphan-after e p (some (q, admitted c)) lowers =
      LowersPool-some p q (lowers q (admitted c) refl)
  place_orphan-after e p (some (q, refused c)) lowers =
      LowersPool-some p (update_statics_for_remove_tx e.size (cycles_or_zero e.cycles) q) (
        NoMore-trans p q (update_statics_for_remove_tx e.size (cycles_or_zero e.cycles) q)
          (lowers q (refused c) refl)
          (update_statics_for_remove_tx-NoMore e.size (cycles_or_zero e.cycles) q))

  pub place_orphan-LowersPool :
      (is_proposed : Bool) (e : DefectEntry) (p : TxPool)
      → LowersPool p (place_orphan ins place remember scripts now view is_proposed e p)
  unfolding place_orphan
  place_orphan-LowersPool false e p =
      LowersPool-some p (enqueue_tx ins e.cycles e.size e.transaction p).0
        (enqueue_tx-NoMore ins e.cycles e.size e.transaction p)
  place_orphan-LowersPool true e p =
      place_orphan-after e p
        (proposed_tx ins place remember scripts now view e.cycles e.size e.transaction p)
        (proposed_tx-Lowers e.cycles e.size e.transaction p)

  pub place_orphans-LowersPool :
      (is_proposed : Bool) (es : List DefectEntry) (p : TxPool)
      → LowersPool p (place_orphans ins place remember scripts now view is_proposed es p)
  unfolding place_orphans
  place_orphans-LowersPool is_proposed [] p = LowersPool-some p p (refl, omega arith, omega arith)
  place_orphans-LowersPool is_proposed (e ∷ es) p =
      option-ind (LowersPool p) (place_orphan ins place remember scripts now view is_proposed e p)
        none _ (λ p' h. absurd (cc))
        (λ q placed p' h.
          NoMore-trans p q p' (place_orphan-LowersPool is_proposed e p q placed)
            (place_orphans-LowersPool is_proposed es q p' h))

  pub try_proposed_orphan_by_ancestor-LowersPool :
      (tx : Transaction) (p : TxPool)
      → LowersPool p (try_proposed_orphan_by_ancestor ins place remember scripts now view tx p)
  unfolding try_proposed_orphan_by_ancestor
  try_proposed_orphan_by_ancestor-LowersPool tx p = after (remove_by_ancestor tx p.orphan)
    where
      after :
          (o : Releasing Released)
          → LowersPool p (elim o [
            | panic ↦ none
            | err _ ↦ none
            | ok released ↦
                place_orphans ins place remember scripts now view
                  (view.contains_proposal_id (proposal_short_id tx))
                  released.txs
                  (record p { orphan = released.pool })
          ])
      after panic p' h = absurd (cc)
      after (err e) p' h = absurd (cc)
      after (ok released) p' h =
          place_orphans-LowersPool (view.contains_proposal_id (proposal_short_id tx)) released.txs
            (record p { orphan = released.pool }) p' h

  pub proposed_tx_and_descendants-after :
      (tx : Transaction) (p : TxPool) (o : Option (TxPool × Admission))
      → Lowers p o
      → Lowers p (elim o [
        | none ↦ none
        | some (p', refused e) ↦ some (p', refused e)
        | some (p', admitted c) ↦
            elim (try_proposed_orphan_by_ancestor ins place remember scripts now view tx p') [
              | none ↦ none
              | some p'' ↦ some (p'', admitted c)
            ]
      ])
  proposed_tx_and_descendants-after tx p none lowers = Lowers-none p
  proposed_tx_and_descendants-after tx p (some (q, refused e)) lowers =
      Lowers-some p q (refused e) (lowers q (refused e) refl)
  proposed_tx_and_descendants-after tx p (some (q, admitted c)) lowers =
      option-ind (Lowers p)
        (try_proposed_orphan_by_ancestor ins place remember scripts now view tx q) none _
        (Lowers-none p)
        (λ q' placed. Lowers-some p q' (admitted c) (
          NoMore-trans p q q' (lowers q (admitted c) refl)
            (try_proposed_orphan_by_ancestor-LowersPool tx q q' placed)))

  pub proposed_tx_and_descendants-Lowers :
      (cycles : Option ℕ) (size : ℕ) (tx : Transaction) (p : TxPool)
      → Lowers p (proposed_tx_and_descendants ins place remember scripts now view cycles size tx p)
  unfolding proposed_tx_and_descendants
  proposed_tx_and_descendants-Lowers cycles size tx p =
      proposed_tx_and_descendants-after tx p
        (proposed_tx ins place remember scripts now view cycles size tx p)
        (proposed_tx-Lowers cycles size tx p)
