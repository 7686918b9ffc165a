-- ===== src/Chain/Service.antt =====
-- `insert_block` of chain/src/chain.rs: a block is stored, and made the tip when it is better than the
-- current one. `add` is the addition of two U256, `now` the clock, `lookup` the transactions of
-- the store after the batch is written. The operations on the database cannot fail here, and the
-- pool's part of the chain state is left out.
pub mod Better
use ckb_miner_opt.Base.{
  ℕ, ◌+◌, Bool, true, false, ◌&&◌, ◌||◌, Option, none, some, List, [], ◌∷◌, ◌++◌, map, ltb, ◌==◌,
  length, if◌then◌else◌,
}
use ckb_miner_opt.Base.Outcome.{Outcome, ok, err, panic, ◌>>=◌, ◌>>◌, map_err, expect, add_u64}
use ckb_miner_opt.Core.Capacity.{Capacity, Error}
use ckb_miner_opt.Core.Transaction.{H256, Bytes}
use ckb_miner_opt.Core.Block.{Header, Block}
use ckb_miner_opt.Core.Extras.{BlockExt}
use ckb_miner_opt.Core.Cell.{ResolvedTransaction}
use ckb_miner_opt.CellSet.{CellSetDiff, NewOutputs}
use ckb_miner_opt.CellSet.Update.{BatchOp, update_cells}
use ckb_miner_opt.Epoch.{U256Arithmetic, EpochExt}
use ckb_miner_opt.Proposal.{finalize}
use ckb_miner_opt.Dao.{calculate_dao_data}
use ckb_miner_opt.Verify.Error.{TransactionError}
use ckb_miner_opt.Verify.Block.{BlockError, BlockRules}
use ckb_miner_opt.Verify
use ckb_miner_opt.Verify.Uncles.{UncleRules}
use ckb_miner_opt.Verify.Contextual.{Cache}
use ckb_miner_opt.Chain.Store.{ChainStore, Consensus}
use ckb_miner_opt.Chain.Provider.{get_block_epoch, next_epoch_ext}
use ckb_miner_opt.Chain.State.{ChainState, update_proposal_ids}
use ckb_miner_opt.Chain.Fork.{ForkChanges, no_changes, has_detached, BlockStore, find_fork}
use ckb_miner_opt.Chain.Reconcile.{ReconcileError, reconcile_main_chain}

pub data InsertError : Type 0 where
  bad_block : BlockError → InsertError
  invalid_parent_block : InsertError
  bad_dao : Error → InsertError
  bad_chain : ReconcileError → InsertError

-- What the batch of the chain service holds, in the order in which it is put there.
pub data Write : Type 0 where
  insert_stored insert_attached insert_detached : Block → Write
  insert_block_epoch_index : H256 → H256 → Write
  insert_epoch_ext : H256 → EpochExt → Write
  insert_block_ext : H256 → BlockExt → Write
  insert_tip_header : Header → Write
  insert_current_epoch_ext : EpochExt → Write
  cell_write : BatchOp → Write

-- The state after the block, what is written, the cache, and the blocks notified as uncles.
pub record Inserted : Type 0 where
  pub state : ChainState
  pub writes : List Write
  pub cache : Cache
  pub new_uncles : List Block

abbrev pub block_store : ChainStore → BlockStore
block_store s = record {
  get_block_hash = s.get_block_hash;
  get_block = s.get_block;
  get_block_ext = s.get_block_ext;
}

-- The test for a new best block, on the total difficulty and the hash of the block.
unfoldable pub is_new_best : ℕ → H256 → ChainState → Bool
is_new_best total hash state =
    ltb state.total_difficulty total
    || (state.total_difficulty == total && ltb hash state.tip_header.hash)

abbrev pub check_parent : Option Bool → Outcome InsertError (Unit {0})
check_parent (some false) = err invalid_parent_block
check_parent (some true) = ok tt
check_parent none = ok tt

abbrev pub is_some {ℓ} : {A : Type ℓ} → Option A → Bool
is_some none = false
is_some (some _) = true

abbrev pub unwrap_or {ℓ} : {A : Type ℓ} → A → Option A → A
unwrap_or a none = a
unwrap_or a (some b) = b

abbrev pub current_epoch : Bool → EpochExt → EpochExt → EpochExt
current_epoch moved epoch old = if moved then epoch else old

abbrev pub update_index : ForkChanges → List Write
update_index fork =
    map insert_detached fork.detached_blocks ++ map insert_attached fork.attached_blocks

abbrev pub tip_writes : Bool → Header → EpochExt → List Write
tip_writes moved header epoch =
    insert_tip_header header ∷ (if moved then insert_current_epoch_ext epoch ∷ [] else [])

module _ (u : U256Arithmetic) (add : ℕ → ℕ → ℕ) (from_slice : Bytes → Option H256)
    (block_rules : BlockRules) (rules : UncleRules)
    (scripts : ResolvedTransaction → ℕ → Outcome TransactionError ℕ)
    (remember : H256 → ℕ → Cache → Cache) (lookup : H256 → Option NewOutputs) (s : ChainStore)
    (c : Consensus) (now : ℕ) where
  -- The branch of the new best block, with what follows the commit.
  unfoldable pub adopt :
      Bool
      → Block
      → BlockExt
      → EpochExt
      → Bool
      → List Write
      → ChainState
      → Cache
      → Outcome InsertError Inserted
  adopt need_verify block ext epoch new_epoch stored state cache = do
    (index, fork) ← expect (find_fork (block_store s) state.tip_header.number block ext no_changes)
    (diff, exts, cache') ← map_err bad_chain (
        reconcile_main_chain u from_slice rules scripts remember s c state.cell_set
          fork.detached_blocks need_verify fork cache)
    (proposals, detached_proposal_id) ← expect (
        finalize block.header.number
          (update_proposal_ids fork.detached_blocks fork.attached_blocks state.proposal_ids))
    (cells, cell_writes) ← expect (update_cells lookup diff state.cell_set)
    let moved = new_epoch || has_detached fork
    ok (record {
      state = record {
        tip_header = block.header;
        total_difficulty = ext.total_difficulty;
        cell_set = cells;
        proposal_ids = proposals;
        current_epoch_ext = current_epoch moved epoch state.current_epoch_ext;
      };
      writes =
          stored
          ++ (update_index fork
              ++ (map (λ e. insert_block_ext e.0 e.1) exts
                  ++ (tip_writes moved block.header epoch ++ map cell_write cell_writes)));
      cache = cache';
      new_uncles = fork.detached_blocks;
    })

  -- The other branch: the block is kept as an uncle.
  abbrev pub keep : Block → BlockExt → List Write → ChainState → Cache → Inserted
  keep block ext stored state cache = record {
    state = state;
    writes = stored ++ insert_block_ext block.header.hash ext ∷ [];
    cache = cache;
    new_uncles = block ∷ [];
  }

  abbrev pub settle :
      Bool
      → Block
      → BlockExt
      → EpochExt
      → Bool
      → List Write
      → ChainState
      → Cache
      → Outcome InsertError Inserted
  settle need_verify block ext epoch new_epoch stored state cache =
      if is_new_best ext.total_difficulty block.header.hash state
      then adopt need_verify block ext epoch new_epoch stored state cache
      else ok (keep block ext stored state cache)

  abbrev pub verify_block : Bool → Block → Outcome BlockError (Unit {0})
  verify_block need_verify block =
      if need_verify then Verify.Block.verify block_rules block else ok tt

  abbrev pub new_ext : BlockExt → Block → ℕ → ℕ × Capacity → BlockExt
  new_ext parent block uncles dao = record {
    received_at = now;
    total_difficulty = add parent.total_difficulty block.header.difficulty;
    total_uncles_count = uncles;
    verified = none;
    txs_fees = [];
    dao_stats = record { accumulated_rate = dao.0; accumulated_capacity = dao.1 };
  }

  abbrev pub stored_writes : Block → EpochExt → List Write
  stored_writes block epoch =
      insert_stored block
      ∷ insert_block_epoch_index block.header.hash epoch.last_block_hash_in_previous_epoch
      ∷ insert_epoch_ext epoch.last_block_hash_in_previous_epoch epoch
      ∷ []

  unfoldable pub insert_block : Block → Bool → ChainState → Cache → Outcome InsertError Inserted
  insert_block block need_verify state cache = do
    _ ← map_err bad_block (verify_block need_verify block)
    parent_ext ← expect (s.get_block_ext block.header.parent_hash)
    parent_header ← expect (s.get_block_header block.header.parent_hash)
    _ ← check_parent parent_ext.verified
    parent_epoch ← expect (get_block_epoch s parent_header.hash)
    next ← map_err (λ (e : ⊥). absurd e) (next_epoch_ext u s c parent_epoch parent_header)
    dao ← map_err bad_dao (
        calculate_dao_data parent_header.number parent_epoch parent_ext.dao_stats
          c.secondary_epoch_reward)
    uncles ← add_u64 parent_ext.total_uncles_count (length block.uncles)
    let epoch = unwrap_or parent_epoch next
    settle need_verify block (new_ext parent_ext block uncles dao) epoch (is_some next)
        (stored_writes block epoch) state cache
