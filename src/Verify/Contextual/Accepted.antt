-- ===== src/Verify/Contextual/Accepted.antt =====
-- What the contextual verifier of verification/src/contextual_block_verifier.rs ensures of a block.
use ckb_miner_opt.Base.{
  ℕ, suc, ◌≤◌, ◌≡◌, refl, ap, Bool, true, false, not, Option, none, some, List, [], ◌∷◌, arith, ltb,
  ◌==◌, All, ite, ◌∙◌,
}
use ckb_miner_opt.Base.Maps.{get, nat_key}
use ckb_miner_opt.Base.Outcome.{Outcome, ok, err, map_err, refuse_if, >>=-eq-ok, map_err-eq-ok}
use ckb_miner_opt.Core.Capacity.{Capacity}
use ckb_miner_opt.Core.Capacity.Sums.{sum, sum_from}
use ckb_miner_opt.Core.Transaction.{H256, Bytes, Script, CellOutput}
use ckb_miner_opt.Core.Block.{Header, Block}
use ckb_miner_opt.Core.Cell.{ResolvedTransaction}
use ckb_miner_opt.Epoch.{U256Arithmetic, EpochExt}
use ckb_miner_opt.Verify.Error.{TransactionError}
use ckb_miner_opt.Verify.Since.{SinceContext}
use ckb_miner_opt.Verify.Since
use ckb_miner_opt.Verify.Tx.{
  output_capacities, verify_contextual, verify_transaction, TxLimits, verify_version, verify_size,
  verify_empty, verify_maturity, verify_capacity, verify_duplicate_deps,
}
use ckb_miner_opt.Verify.Commit
use ckb_miner_opt.Verify.Uncles.{UncleRules, new_context}
use ckb_miner_opt.Verify.Uncles
use ckb_miner_opt.Chain.Store.{ChainStore, Consensus}
use ckb_miner_opt.Verify.Contextual.{
  exceeded_maximum_cycles, uncles, commit, unknown_parent, invalid_reward_target,
  invalid_reward_amount, transactions, Script-discrete, Checked, ForkContext, Cache,
  commit_provider, check_target, outputs_capacity, check_reward, expected_reward, verify_reward,
  verify_cached, verify_tx, verify_txs, sum_cycles, verify_block_txs, epoch_for, parent_of,
  since_context, verify,
}

-- A transaction that passes all verifiers passes those that depend on where its block stands.
verify_transaction-verify_contextual :
    (scripts : ResolvedTransaction → ℕ → Outcome TransactionError ℕ) (limits : TxLimits)
    (ctx : SinceContext) (max cycles : ℕ) (rtx : ResolvedTransaction)
    → verify_transaction scripts limits ctx max rtx ≡ ok cycles
    → verify_contextual limits ctx rtx ≡ ok tt
unfolding verify_transaction verify_contextual
verify_transaction-verify_contextual scripts limits ctx max cycles rtx h =
    let (_, _, h₁) = >>=-eq-ok (verify_version rtx.transaction) _ h in
    let (_, _, h₂) = >>=-eq-ok (verify_size limits.max_block_bytes rtx.transaction) _ h₁ in
    let (_, _, h₃) = >>=-eq-ok (verify_empty rtx.transaction) _ h₂ in
    let (_, mature, h₄) =
      >>=-eq-ok (verify_maturity ctx.block_number limits.cellbase_maturity rtx) _ h₃ in
    let (_, _, h₅) = >>=-eq-ok (verify_capacity rtx) _ h₄ in
    let (_, _, h₆) = >>=-eq-ok (verify_duplicate_deps rtx.transaction) _ h₅ in
    let (_, unlocked, _) = >>=-eq-ok (Since.verify ctx rtx) _ h₆ in rw mature unlocked

refuse_if-passed {ℓ} : {E : Type ℓ} (b : Bool) (e : E) → refuse_if b e ≡ ok tt → b ≡ false
refuse_if-passed true e h = cc
refuse_if-passed false e h = refl

bounded_by :
    (limit total cycles : ℕ) (cache cache' : Cache)
    → ltb limit total ≡ false
    → ◌≡◌ {A = Checked (ℕ × Cache)} (ok (total, cache)) (ok (cycles, cache'))
    → cycles ≤ limit
bounded_by limit total cycles cache cache' within same = ground arith

cycles_are :
    (sum cycles : ℕ) (fees fees' : List Capacity) (cache cache' : Cache) (limit : ℕ)
    → ◌≡◌ {A = Checked (ℕ × List Capacity × Cache)}
        (ok (sum, fees, cache))
        (ok (cycles, fees', cache'))
    → sum ≤ limit
    → cycles ≤ limit
cycles_are sum cycles fees fees' cache cache' limit same within = ground arith

-- The transaction pays the amount, and its first output has the lock.
abbrev pub PaysTo : Script → Capacity → ResolvedTransaction → Type 0
PaysTo lock reward cellbase =
    (sum_from 0 (output_capacities cellbase) ≡ ok reward)
    × ((o : CellOutput) × (os : List CellOutput) × (cellbase.transaction.outputs ≡ o ∷ os)
        × (o.lock ≡ lock))

check_target-passed :
    (lock : Script) (os : List CellOutput)
    → check_target lock os ≡ ok tt
    → (o : CellOutput) × (rest : List CellOutput) × (os ≡ o ∷ rest) × (o.lock ≡ lock)
unfolding check_target
check_target-passed lock [] h = cc
check_target-passed lock (o ∷ rest) h = (o, rest, refl, same (Script-discrete o.lock lock) h)
  where
    same :
        (d : Dec (o.lock ≡ lock))
        → ◌≡◌ {A = Checked (Unit {0})} (ite d (ok tt) (err invalid_reward_target)) (ok tt)
        → o.lock ≡ lock
    same (yes e) h = e
    same (no other) h = cc

check_reward-PaysTo :
    (cellbase : ResolvedTransaction) (lock : Script) (reward : Capacity)
    → check_reward cellbase lock reward ≡ ok tt
    → PaysTo lock reward cellbase
unfolding check_reward outputs_capacity
check_reward-PaysTo cellbase lock reward h =
    let (total, has_total, h₁) = >>=-eq-ok (outputs_capacity cellbase) _ h in
    let (_, equal, paid) =
      >>=-eq-ok (refuse_if (not (total == reward)) invalid_reward_amount) _ h₁ in
    let exact = refuse_if-passed (not (total == reward)) invalid_reward_amount equal in
    let same : total ≡ reward = not_ne total reward exact in
    (
      map_err-eq-ok _ (sum_from 0 (output_capacities cellbase)) has_total ∙ ap ok same,
      check_target-passed lock cellbase.transaction.outputs paid,
    )
  where
    not_ne : (a b : ℕ) → not (a == b) ≡ false → a ≡ b
    not_ne a b h = ground arith

module _ (u : U256Arithmetic) (from_slice : Bytes → Option H256) (rules : UncleRules)
    (scripts : ResolvedTransaction → ℕ → Outcome TransactionError ℕ)
    (remember : H256 → ℕ → Cache → Cache) (s : ChainStore) (c : Consensus) where
  verify_cached-contextual :
      (ctx : SinceContext) (index : ℕ) (rtx : ResolvedTransaction) (known : Option ℕ)
      (ret : H256 × ℕ)
      → verify_cached u from_slice rules scripts remember s c ctx index rtx known ≡ ok ret
      → verify_contextual c.limits ctx rtx ≡ ok tt
  unfolding verify_cached
  verify_cached-contextual ctx index rtx (some cycles) ret h =
      let (_, passed, _) =
        >>=-eq-ok (map_err (transactions index) (verify_contextual c.limits ctx rtx)) _ h in
      map_err-eq-ok _ (verify_contextual c.limits ctx rtx) passed
  verify_cached-contextual ctx index rtx none ret h =
      let (cycles, passed, _) =
        >>=-eq-ok
          (map_err (transactions index)
            (verify_transaction scripts c.limits ctx c.max_block_cycles rtx))
          _ h in
      verify_transaction-verify_contextual scripts c.limits ctx c.max_block_cycles cycles rtx
        (map_err-eq-ok _ (verify_transaction scripts c.limits ctx c.max_block_cycles rtx) passed)

  verify_txs-All :
      (ctx : SinceContext) (cache : Cache) (index : ℕ) (rtxs : List ResolvedTransaction)
      (rets : List (H256 × ℕ))
      → verify_txs u from_slice rules scripts remember s c ctx cache index rtxs ≡ ok rets
      → All (λ rtx. verify_contextual c.limits ctx rtx ≡ ok tt) rtxs
  unfolding verify_txs verify_tx
  verify_txs-All ctx cache index [] rets h = tt
  verify_txs-All ctx cache index (rtx ∷ rtxs) rets h =
      let (ret, first, h₁) =
        >>=-eq-ok (verify_tx u from_slice rules scripts remember s c ctx cache index rtx) _ h in
      let (rest, others, _) =
        >>=-eq-ok (verify_txs u from_slice rules scripts remember s c ctx cache (suc index) rtxs) _
          h₁ in
      (
        verify_cached-contextual ctx index rtx (get cache rtx.transaction.hash) ret first,
        verify_txs-All ctx cache (suc index) rtxs rest others,
      )

  -- What the verifier has checked of the reward, the transactions and the cycles.
  abbrev pub Rewarded : Header → List ResolvedTransaction → Type 0
  Rewarded parent resolved =
      (lock : Script) × (reward : Capacity) × (cellbase : ResolvedTransaction) × (rtxs : List
        ResolvedTransaction)
      × (resolved ≡ cellbase ∷ rtxs)
      × (expected_reward u from_slice rules scripts remember s c parent cellbase
          ≡ ok (lock, reward))
      × PaysTo lock reward cellbase

  verify_reward-Rewarded :
      (parent : Header) (resolved : List ResolvedTransaction) (txs_fees : List Capacity)
      → verify_reward u from_slice rules scripts remember s c parent resolved ≡ ok txs_fees
      → Rewarded parent resolved
  unfolding verify_reward
  verify_reward-Rewarded parent [] txs_fees h = cc
  verify_reward-Rewarded parent (cellbase ∷ rtxs) txs_fees h =
      let ((lock, reward), expected, h₁) =
        >>=-eq-ok (expected_reward u from_slice rules scripts remember s c parent cellbase) _ h in
      let (_, paid, _) = >>=-eq-ok (check_reward cellbase lock reward) _ h₁ in
      (lock, reward, cellbase, rtxs, refl, expected, check_reward-PaysTo cellbase lock reward paid)

  verify_block_txs-bounded :
      (ctx : SinceContext) (resolved : List ResolvedTransaction) (cache : Cache) (cycles : ℕ)
      (cache' : Cache)
      → verify_block_txs u from_slice rules scripts remember s c ctx resolved cache
        ≡ ok (cycles, cache')
      → All (λ rtx. verify_contextual c.limits ctx rtx ≡ ok tt) resolved
        × (cycles ≤ c.max_block_cycles)
  unfolding verify_block_txs
  verify_block_txs-bounded ctx resolved cache cycles cache' h =
      let (rets, verified, h₁) =
        >>=-eq-ok (verify_txs u from_slice rules scripts remember s c ctx cache 0 resolved) _ h in
      let (total, summed, h₂) =
        >>=-eq-ok (sum_cycles u from_slice rules scripts remember s c 0 rets) _ h₁ in
      let (_, bounded, h₃) =
        >>=-eq-ok (refuse_if (ltb c.max_block_cycles total) exceeded_maximum_cycles) _ h₂ in
      let within =
        refuse_if-passed (ltb c.max_block_cycles total) exceeded_maximum_cycles bounded in
      (
        verify_txs-All ctx cache 0 resolved rets verified,
        bounded_by c.max_block_cycles total cycles _ cache' within h₃,
      )

  parent_of-some :
      (block : Block) (parent : Header)
      → parent_of u from_slice rules scripts remember s c block ≡ ok parent
      → s.get_block_header block.header.parent_hash ≡ some parent
  unfolding parent_of
  parent_of-some block parent h = known (s.get_block_header block.header.parent_hash) h
    where
      known :
          (found : Option Header)
          → ◌≡◌ {A = Checked Header}
              (elim found [ none ↦ err (unknown_parent block.header.parent_hash) | some p ↦ ok p ])
              (ok parent)
          → found ≡ some parent
      known none e = cc
      known (some p) e = cc

  -- A block that the contextual verifier accepts has a known parent and an epoch that follows from it, by
  -- which its uncles are accepted; its transactions may be committed; its first transaction pays the expected reward to the
  -- expected lock; each transaction is mature and its locks are open, also those whose cycles were
  -- cached; and the cycles stay within the limit.
  pub verify-Accepted :
      (fork : ForkContext) (resolved : List ResolvedTransaction) (block : Block) (cache : Cache)
      (cycles : ℕ) (txs_fees : List Capacity) (cache' : Cache)
      → verify u from_slice rules scripts remember s c fork resolved block cache
        ≡ ok (cycles, txs_fees, cache')
      → (parent : Header) × (epoch : EpochExt) × (s.get_block_header block.header.parent_hash
          ≡ some parent)
        × (epoch_for u from_slice rules scripts remember s c block parent ≡ ok epoch)
        × (Uncles.verify
              (record rules { epoch = epoch })
              (new_context fork.attached_blocks fork.detached_blocks block s.get_block_number
                s.is_uncle)
              block
            ≡ ok tt)
        × (Commit.verify
              (commit_provider u from_slice rules scripts remember s c)
              c.tx_proposal_window
              block
            ≡ ok tt)
        × Rewarded parent resolved
        × All
            (λ rtx.
              verify_contextual c.limits
                (since_context u from_slice rules scripts remember s c fork block)
                rtx
              ≡ ok tt)
            resolved
        × (cycles ≤ c.max_block_cycles)
  unfolding verify
  verify-Accepted fork resolved block cache cycles txs_fees cache' h =
      let (parent, has_parent, h₁) =
        >>=-eq-ok (parent_of u from_slice rules scripts remember s c block) _ h in
      let (epoch, has_epoch, h₂) =
        >>=-eq-ok (epoch_for u from_slice rules scripts remember s c block parent) _ h₁ in
      let context =
        new_context fork.attached_blocks fork.detached_blocks block s.get_block_number s.is_uncle in
      let (_, uncles_passed, h₃) =
        >>=-eq-ok (map_err uncles (Uncles.verify (record rules { epoch = epoch }) context block)) _
          h₂ in
      let (_, commit_passed, h₄) =
        >>=-eq-ok
          (map_err commit (
            Commit.verify (commit_provider u from_slice rules scripts remember s c)
              c.tx_proposal_window block))
          _ h₃ in
      let (txs_fees', rewarded, h₅) =
        >>=-eq-ok (verify_reward u from_slice rules scripts remember s c parent resolved) _ h₄ in
      let ((sum, cache''), verified, h₆) =
        >>=-eq-ok
          (verify_block_txs u from_slice rules scripts remember s c
            (since_context u from_slice rules scripts remember s c fork block) resolved cache)
          _ h₅ in
      let (all, bounded) =
        verify_block_txs-bounded (since_context u from_slice rules scripts remember s c fork block)
          resolved cache sum cache'' verified in
      (
        parent,
        epoch,
        parent_of-some block parent has_parent,
        has_epoch,
        map_err-eq-ok uncles (Uncles.verify (record rules { epoch = epoch }) context block)
            uncles_passed,
        map_err-eq-ok commit
            (Commit.verify (commit_provider u from_slice rules scripts remember s c)
              c.tx_proposal_window block)
            commit_passed,
        verify_reward-Rewarded parent resolved txs_fees' rewarded,
        all,
        cycles_are sum cycles txs_fees' txs_fees cache'' cache' c.max_block_cycles h₆ bounded,
      )
