-- ===== src/Verify/Contextual.antt =====
-- The rest of verification/src/contextual_block_verifier.rs: the cellbase's reward, the transactions, and
-- the verifier that runs them all after the uncles and the proposals. Transactions are verified in
-- parallel in the source; here in order, which reports the first error. `remember` is the `insert` of
-- the cache (crate lru-cache), which may drop entries.

pub mod Accepted
use ckb_miner_opt.Base.{
  ℕ, suc, ◌+◌, Bool, not, Option, none, some, List, [], ◌∷◌, ltb, ◌==◌, if◌then◌else◌, ℕ_discrete,
  ite,
}
use ckb_miner_opt.Base.Maps.{get, nat_key}
use ckb_miner_opt.Base.Outcome.{Outcome, ok, err, panic, ◌>>=◌, ◌>>◌, map_err, refuse_if, add_u64}
use ckb_miner_opt.Core.Capacity.{Capacity}
use ckb_miner_opt.Core.Capacity
use ckb_miner_opt.Core.Capacity.Sums.{sum_from}
use ckb_miner_opt.Core.Transaction.{H256, Bytes, Script, CellOutput, Transaction}
use ckb_miner_opt.Core.Block.{Header, Block, UncleBlock, is_genesis}
use ckb_miner_opt.Core.Cell.{ResolvedTransaction}
use ckb_miner_opt.Epoch.{U256Arithmetic, EpochExt, reward_at}
use ckb_miner_opt.Dao.Fee.{DataLoader, calculate_transaction_fee}
use ckb_miner_opt.Reward.{RewardError, block_reward, or_epoch}
use ckb_miner_opt.Verify.Error.{TransactionError}
use ckb_miner_opt.Verify.MedianTime.{MedianTimeContext}
use ckb_miner_opt.Verify.Since.{SinceContext}
use ckb_miner_opt.Verify.Tx.{output_capacities, verify_contextual, verify_transaction}
use ckb_miner_opt.Verify.Commit.{CommitError, Provider, skip_one}
use ckb_miner_opt.Verify.Commit
use ckb_miner_opt.Verify.Uncles.{UnclesError, UncleContext, UncleRules, new_context}
use ckb_miner_opt.Verify.Uncles
use ckb_miner_opt.Chain.Store.{ChainStore, Consensus, reserve_number}
use ckb_miner_opt.Chain.Provider.{get_ancestor, get_block_epoch, next_epoch_ext}

pub data ContextualError : Type 0 where
  unknown_parent : H256 → ContextualError
  uncles : UnclesError → ContextualError
  commit : CommitError → ContextualError
  invalid_reward_amount invalid_reward_target cannot_fetch_block_reward : ContextualError
  fee_calculation capacity_overflow exceeded_maximum_cycles : ContextualError
  transactions : ℕ → TransactionError → ContextualError

abbrev pub Checked : Type 0 → Type 0
Checked A = Outcome ContextualError A

pub record ForkContext : Type 0 where
  pub attached_blocks : List Block
  pub detached_blocks : List Block

abbrev pub find_by_hash : List Block → H256 → Option Header
find_by_hash [] hash = none
find_by_hash (b ∷ bs) hash = if b.header.hash == hash then some b.header else find_by_hash bs hash

abbrev pub find_by_number : List Block → ℕ → Option H256
find_by_number [] number = none
find_by_number (b ∷ bs) number =
    if b.header.number == number then some b.header.hash else find_by_number bs number

abbrev pub or_else {ℓ} : {A : Type ℓ} → Option A → Option A → Option A
or_else none other = other
or_else (some a) other = some a

unfoldable pub fork_header : ForkContext → ChainStore → H256 → Option Header
fork_header ctx s hash = or_else (find_by_hash ctx.attached_blocks hash) (s.get_block_header hash)

unfoldable pub timestamp_and_parent : ForkContext → ChainStore → H256 → Option (ℕ × H256)
unfolding fork_header
timestamp_and_parent ctx s hash = elim (fork_header ctx s hash) [
  | none ↦ none
  | some header ↦ some (header.timestamp, header.parent_hash)
]

-- `BlockMedianTimeContext for ForkContext`
abbrev pub fork_median : ForkContext → ChainStore → Consensus → MedianTimeContext
fork_median ctx s c = record {
  median_block_count = c.median_time_block_count;
  timestamp_and_parent = timestamp_and_parent ctx s;
  get_block_hash =
      λ number. or_else (find_by_number ctx.attached_blocks number) (s.get_block_hash number);
}

unfoldable pub Script-discrete : Discrete Script
Script-discrete = hlevel ℕ_discrete

-- `CellbaseError::InvalidRewardTarget` unless the first output has the lock; there must be one.
unfoldable pub check_target : Script → List CellOutput → Checked (Unit {0})
check_target lock [] = panic
check_target lock (o ∷ _) = ite (Script-discrete o.lock lock) (ok tt) (err invalid_reward_target)

-- `?` on the sum of the outputs.
unfoldable pub outputs_capacity : ResolvedTransaction → Checked Capacity
outputs_capacity rtx =
    map_err (λ (e : Capacity.Error). capacity_overflow) (sum_from 0 (output_capacities rtx))

unfoldable pub check_reward : ResolvedTransaction → Script → Capacity → Checked (Unit {0})
unfolding check_target outputs_capacity
check_reward cellbase lock reward = do
  total ← outputs_capacity cellbase
  refuse_if (not (total == reward)) invalid_reward_amount
  check_target lock cellbase.transaction.outputs

unfoldable pub fees : DataLoader → List ResolvedTransaction → Checked (List Capacity)
fees dl [] = ok []
fees dl (rtx ∷ rtxs) = do
  fee ← map_err (λ (e : Unit {0}). fee_calculation) (calculate_transaction_fee dl rtx)
  rest ← fees dl rtxs
  ok (fee ∷ rest)

abbrev pub Cache : Type 0
Cache = List (H256 × ℕ)

module _ (u : U256Arithmetic) (from_slice : Bytes → Option H256) (rules : UncleRules)
    (scripts : ResolvedTransaction → ℕ → Outcome TransactionError ℕ)
    (remember : H256 → ℕ → Cache → Cache) (s : ChainStore) (c : Consensus) where
  abbrev pub loader : DataLoader
  loader = record {
    get_cell_output = s.get_cell_output;
    get_block_ext = s.get_block_ext;
    from_slice = from_slice;
  }

  abbrev pub commit_provider : Provider
  commit_provider = record {
    get_ancestor = get_ancestor s;
    get_block_header = s.get_block_header;
    get_block_proposal_txs_ids = s.get_block_proposal_txs_ids;
    get_block_uncles = s.get_block_uncles;
  }

  -- The lock and the amount that the cellbase must pay: of the finalized block, or early on of the
  -- genesis epoch to the bootstrap lock, when the cellbase's outputs have been summed.
  unfoldable pub expected_reward : Header → ResolvedTransaction → Checked (Script × Capacity)
  expected_reward parent cellbase = do
    number ← add_u64 parent.number 1
    (if ltb (reserve_number c) number
        then map_err (λ (e : RewardError). cannot_fetch_block_reward)
            (block_reward u from_slice s c parent)
        else (do
          _ ← outputs_capacity cellbase
          reward ←
              map_err (λ (e : Capacity.Error). cannot_fetch_block_reward)
                (reward_at c.genesis_epoch_ext number)
          ok (c.bootstrap_lock, reward)))

  -- `RewardVerifier::verify`, from the cellbase and the rest of the resolved transactions on.
  unfoldable pub verify_reward : Header → List ResolvedTransaction → Checked (List Capacity)
  verify_reward parent [] = panic
  verify_reward parent (cellbase ∷ rtxs) = do
    (lock, reward) ← expected_reward parent cellbase
    check_reward cellbase lock reward
    fees loader rtxs

  -- A transaction whose cycles are cached skips what does not depend on the block.
  unfoldable pub verify_cached :
      SinceContext → ℕ → ResolvedTransaction → Option ℕ → Checked (H256 × ℕ)
  verify_cached ctx index rtx (some cycles) = do
    map_err (transactions index) (verify_contextual c.limits ctx rtx)
    ok (rtx.transaction.hash, cycles)
  verify_cached ctx index rtx none = do
    cycles ←
        map_err (transactions index)
          (verify_transaction scripts c.limits ctx c.max_block_cycles rtx)
    ok (rtx.transaction.hash, cycles)

  unfoldable pub verify_tx : SinceContext → Cache → ℕ → ResolvedTransaction → Checked (H256 × ℕ)
  unfolding verify_cached
  verify_tx ctx cache index rtx = verify_cached ctx index rtx (get cache rtx.transaction.hash)

  unfoldable pub verify_txs :
      SinceContext → Cache → ℕ → List ResolvedTransaction → Checked (List (H256 × ℕ))
  verify_txs ctx cache index [] = ok []
  verify_txs ctx cache index (rtx ∷ rtxs) = do
    ret ← verify_tx ctx cache index rtx
    rest ← verify_txs ctx cache (suc index) rtxs
    ok (ret ∷ rest)

  -- `iter().sum()` panics beyond 64 bits.
  unfoldable pub sum_cycles : ℕ → List (H256 × ℕ) → Checked ℕ
  sum_cycles acc [] = ok acc
  sum_cycles acc ((_, cycles) ∷ rets) = do acc' ← add_u64 acc cycles; sum_cycles acc' rets

  abbrev pub remember_all : List (H256 × ℕ) → Cache → Cache
  remember_all [] cache = cache
  remember_all ((hash, cycles) ∷ rets) cache = remember_all rets (remember hash cycles cache)

  -- `BlockTxsVerifier::verify`; an error keeps the cache, or leaves what was remembered before.
  unfoldable pub verify_block_txs :
      SinceContext → List ResolvedTransaction → Cache → Checked (ℕ × Cache)
  verify_block_txs ctx rtxs cache = do
    rets ← verify_txs ctx cache 0 rtxs
    sum ← sum_cycles 0 rets
    refuse_if (ltb c.max_block_cycles sum) exceeded_maximum_cycles
    ok (sum, remember_all rets cache)

  unfoldable pub prepare_epoch_ext : Header → Checked EpochExt
  prepare_epoch_ext parent = elim (get_block_epoch s parent.hash) [
    | none ↦ err (unknown_parent parent.hash)
    | some last ↦ map_err (λ (e : ⊥). absurd e) (next_epoch_ext u s c last parent) >>= λ next.
        ok (or_epoch last next)
  ]

  unfoldable pub epoch_for : Block → Header → Checked EpochExt
  epoch_for block parent =
      if is_genesis block then ok c.genesis_epoch_ext else prepare_epoch_ext parent

  -- `get_block_header(parent_hash).ok_or_else(..)?`
  unfoldable pub parent_of : Block → Checked Header
  parent_of block = elim (s.get_block_header block.header.parent_hash) [
    | none ↦ err (unknown_parent block.header.parent_hash)
    | some parent ↦ ok parent
  ]

  abbrev pub since_context : ForkContext → Block → SinceContext
  since_context fork block = record {
    median = fork_median fork s c;
    block_number = block.header.number;
    epoch_number = block.header.epoch;
  }

  -- `ContextualBlockVerifier::verify`
  unfoldable pub verify :
      ForkContext → List ResolvedTransaction → Block → Cache → Checked (ℕ × List Capacity × Cache)
  verify fork resolved block cache = do
    parent ← parent_of block
    epoch ← epoch_for block parent
    let context =
        new_context fork.attached_blocks fork.detached_blocks block s.get_block_number s.is_uncle
    map_err uncles (Uncles.verify (record rules { epoch = epoch }) context block)
    map_err commit (Commit.verify commit_provider c.tx_proposal_window block)
    txs_fees ← verify_reward parent resolved
    (cycles, cache') ← verify_block_txs (since_context fork block) resolved cache
    ok (cycles, txs_fees, cache')
