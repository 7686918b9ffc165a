-- ===== src/Tests/Chains.antt =====
-- A reorganisation: the tip is block 1 on the genesis block; block 1 of a side branch is stored, and block 2 of that
-- branch is inserted.
use ckb_miner_opt.Base.{
  ℕ, zero, suc, ◌+◌, ◌*◌, ◌-◌, ◌≤◌, ◌<◌, ◌≡◌, ◌≢◌, refl, Bool, true, false, Option, none, some,
  List, [], ◌∷◌, arith, ◌==◌, if◌then◌else◌, ltb, ◌⊎◌, All,
}
use ckb_miner_opt.Base.Outcome.{Outcome, ok, err, panic}
use ckb_miner_opt.Core.Transaction.{H256, Bytes, Transaction, new_cellbase_input}
use ckb_miner_opt.Core.Block.{Header, Block}
use ckb_miner_opt.Core.Extras.{BlockExt}
use ckb_miner_opt.Core.Cell.{ResolvedTransaction}
use ckb_miner_opt.Epoch.{EpochExt}
use ckb_miner_opt.Verify.Contextual.{Cache, ForkContext, commit_provider, epoch_for, since_context}
use ckb_miner_opt.Verify.Contextual
use ckb_miner_opt.Verify.Contextual.Accepted.{Rewarded, verify-Accepted}
use ckb_miner_opt.Verify.Tx.{verify_contextual}
use ckb_miner_opt.Verify.Commit
use ckb_miner_opt.Verify.Uncles.{new_context}
use ckb_miner_opt.Verify.Uncles
use ckb_miner_opt.Chain.Provider.{get_ancestor}
use ckb_miner_opt.Chain.Provider.Ancestor.{Lineage, get_ancestor-header_at}
use ckb_miner_opt.Verify
use ckb_miner_opt.Chain.Store.{ChainStore, Consensus}
use ckb_miner_opt.Chain.State.{ChainState}
use ckb_miner_opt.Chain.Fork.{ForkChanges, no_changes, find_fork}
use ckb_miner_opt.Chain.Fork.Attaching.{Branches, Dirty}
use ckb_miner_opt.Chain.Fork.Found.{find_fork-leaving}
use ckb_miner_opt.Chain.Service.{InsertError, Inserted, block_store, insert_block}
use ckb_miner_opt.Chain.Service.Better.{
  Better, Adopted, insert_block-Adopted, start, inserted, NotWorse, insert_block-Follows,
}
use ckb_miner_opt.Tests.Data.{hash_of, output, transaction, lock}
use ckb_miner_opt.Tests.Consensus.{arithmetic, window, header_at, genesis_epoch}
use ckb_miner_opt.Tests.Consensus
use ckb_miner_opt.Tests.Blocks.{uncle_rules, block_rules}
use ckb_miner_opt.Tests.Txs.{scripts, limits}

abbrev cellbase : H256 → ℕ → Transaction
cellbase hash number =
    record (transaction (50 + hash) [] (new_cellbase_input number ∷ [])
      (record output { capacity = 100_000_000_000 } ∷ [])) { witnesses = ((1 ∷ []) ∷ []) ∷ [] }

abbrev block_of : H256 → H256 → ℕ → Block
block_of hash parent_hash number = record {
  header = record (header_at number) { hash = hash; parent_hash = parent_hash };
  uncles = [];
  transactions = cellbase hash number ∷ [];
  proposals = [];
}

-- The hash of a block is its height, and eleven and so on in the branch.
abbrev main : ℕ → Block
main n = block_of n (n - 1) n

abbrev side : ℕ → Block
side zero = main 0
side (suc zero) = block_of 11 0 1
side (suc (suc n)) = block_of (12 + n) (11 + n) (2 + n)

abbrev ext_of : ℕ → Option Bool → BlockExt
ext_of total verified = record {
  received_at = 0;
  total_difficulty = total;
  total_uncles_count = 0;
  verified = verified;
  dao_stats = record {
    accumulated_rate = 10_000_000_000_000_000;
    accumulated_capacity = 5_000_000_000_000;
  };
  txs_fees = [];
}

abbrev side_ext : ℕ → BlockExt
side_ext zero = ext_of 1000 (some true)
side_ext (suc n) = ext_of (1000 * (2 + n)) none

abbrev stored : H256 → Option Block
stored hash =
    if hash == 0
    then some (main 0)
    else if hash == 1
    then some (main 1)
    else if hash == 11
    then some (side 1)
    else none

abbrev store : ChainStore
store = record {
  get_block_hash = λ n. if ltb n 2 then some n else none;
  get_block_number = λ hash. if ltb hash 2 then some hash else none;
  get_block_header = λ hash. elim (stored hash) [ none ↦ none | some b ↦ some b.header ];
  get_block = stored;
  get_block_ext = λ hash.
      if hash == 11
      then some (side_ext 1)
      else if hash == 0
      then some (side_ext 0)
      else some (ext_of 2000 (some true));
  get_block_epoch_index = λ hash. some 0;
  get_epoch_ext = λ hash. some genesis_epoch;
  get_block_proposal_txs_ids = λ hash. none;
  get_block_uncles = λ hash. none;
  get_block_txs_hashes = λ hash. none;
  get_cellbase = λ hash. none;
  get_cell_output = λ hash index. none;
  is_uncle = λ hash. false;
  get_cell_meta = λ hash index. none;
  get_transaction_block = λ hash. none;
}

abbrev consensus : Consensus
consensus = record {
  epoch = Consensus.consensus;
  genesis_epoch_ext = genesis_epoch;
  secondary_epoch_reward = 60_000_000_000_000;
  tx_proposal_window = window;
  proposer_reward_ratio = record { numer = 4; denom = 10 };
  bootstrap_lock = lock;
  limits = limits;
  max_block_cycles = 100;
  median_time_block_count = 11;
}

abbrev tip : ChainState
tip = record {
  tip_header = (main 1).header;
  total_difficulty = 2000;
  cell_set = record { inner = [] };
  proposal_ids = record { table = []; gap = []; set = []; proposal_window = window };
  current_epoch_ext = genesis_epoch;
}

abbrev from_slice : Bytes → Option H256
from_slice bytes = some 1

abbrev remember : H256 → ℕ → Cache → Cache
remember hash cycles cache = (hash, cycles) ∷ cache

abbrev insert_side : Outcome InsertError Inserted
insert_side =
    insert_block arithmetic (λ a b. a + b) from_slice block_rules uncle_rules scripts remember
      (λ hash. none) store consensus 0 (side 2) true tip []

abbrev unchanged : Inserted
unchanged = record { state = tip; writes = []; cache = []; new_uncles = [] }

abbrev result : Inserted
result = elim insert_side [ ok r ↦ r | err e ↦ unchanged | panic ↦ unchanged ]

insert_side-result : insert_side ≡ ok result
unfolding insert_block ckb_miner_opt.Verify.Block.verify ckb_miner_opt.Verify.Tx.serialized_size
    ckb_miner_opt.Core.Transaction.is_cellbase ckb_miner_opt.Base.Seen.all_new
    ckb_miner_opt.Base.Maps.contains ckb_miner_opt.Chain.Provider.get_block_epoch
    ckb_miner_opt.Chain.Provider.next_epoch_ext ckb_miner_opt.Epoch.next_epoch_ext
    ckb_miner_opt.Dao.calculate_dao_data ckb_miner_opt.Dao.calculate_g2
    ckb_miner_opt.Epoch.reward_at ckb_miner_opt.Chain.Service.is_new_best
    ckb_miner_opt.Chain.Service.adopt find_fork ckb_miner_opt.Chain.Fork.alignment_fork
    ckb_miner_opt.Chain.Fork.attach_above ckb_miner_opt.Chain.Fork.find_fork_until_latest_common
    ckb_miner_opt.Base.ℕ_discrete ckb_miner_opt.Chain.Fork.detach ckb_miner_opt.Chain.Fork.attach
    ckb_miner_opt.Chain.Fork.note_ext ckb_miner_opt.Chain.Fork.attach_block
    ckb_miner_opt.Chain.Reconcile.reconcile_main_chain ckb_miner_opt.Chain.Fork.verified_len
    ckb_miner_opt.Chain.Reconcile.reconcile_blocks ckb_miner_opt.Chain.Reconcile.reconcile_block
    ckb_miner_opt.Chain.Reconcile.build_verify_context ckb_miner_opt.Chain.Reconcile.check
    ckb_miner_opt.Core.Cell.Providers.new_block_cells ckb_miner_opt.Core.Cell.Providers.index_of
    ckb_miner_opt.Core.Cell.Resolve.resolve_all ckb_miner_opt.Core.Cell.Resolve.resolve_transaction
    ckb_miner_opt.Core.Cell.Resolve.resolve_inputs ckb_miner_opt.Core.Cell.Resolve.resolve_deps
    ckb_miner_opt.Verify.Contextual.verify ckb_miner_opt.Verify.Contextual.parent_of
    ckb_miner_opt.Verify.Contextual.epoch_for ckb_miner_opt.Verify.Contextual.prepare_epoch_ext
    ckb_miner_opt.Verify.Uncles.verify ckb_miner_opt.Verify.Commit.verify
    ckb_miner_opt.Chain.Provider.get_ancestor ckb_miner_opt.Chain.Provider.ancestor_on_main
    ckb_miner_opt.Verify.Contextual.verify_reward ckb_miner_opt.Verify.Contextual.expected_reward
    ckb_miner_opt.Verify.Contextual.check_reward ckb_miner_opt.Core.Capacity.Sums.sum_from
    ckb_miner_opt.Verify.Contextual.Script-discrete ckb_miner_opt.Verify.Contextual.fees
    ckb_miner_opt.Verify.Contextual.verify_block_txs ckb_miner_opt.Verify.Contextual.verify_txs
    ckb_miner_opt.Verify.Contextual.verify_tx ckb_miner_opt.Base.Maps.get
    ckb_miner_opt.Verify.Tx.verify_transaction ckb_miner_opt.Verify.Tx.verify_version
    ckb_miner_opt.Verify.Tx.verify_size ckb_miner_opt.Verify.Tx.verify_empty
    ckb_miner_opt.Verify.Tx.verify_maturity ckb_miner_opt.Verify.Tx.verify_capacity
    ckb_miner_opt.Core.Transaction.Occupied.is_lack_of_capacity ckb_miner_opt.Core.Capacity.bytes
    ckb_miner_opt.Verify.Tx.verify_duplicate_deps ckb_miner_opt.Verify.Since.verify
    ckb_miner_opt.Verify.Contextual.sum_cycles ckb_miner_opt.Chain.Provider.ancestor_on_fork
    ckb_miner_opt.Chain.Provider.walk ckb_miner_opt.Proposal.finalize
    ckb_miner_opt.Chain.State.update_proposal_ids ckb_miner_opt.CellSet.Update.update_cells
    ckb_miner_opt.CellSet.push_new ckb_miner_opt.CellSet.push_old ckb_miner_opt.Base.Maps.extend
insert_side-result = refl

insert_block-Adopted_example :
    (parent ext : BlockExt) × (Verify.Block.verify block_rules (side 2) ≡ ok tt)
    × (store.get_block_ext 11 ≡ some parent)
    × (parent.verified ≢ some false)
    × (ext.total_difficulty ≡ parent.total_difficulty + 1000)
    × ((Better ext.total_difficulty 12 tip
          × Adopted arithmetic
              (λ a b. a + b)
              from_slice
              block_rules
              uncle_rules
              scripts
              remember
              (λ hash. none)
              store
              consensus
              0
              (side 2)
              ext
              tip
              []
              result)
        ⊎ ((¬ Better ext.total_difficulty 12 tip)
            × (result.state ≡ tip)
            × (result.new_uncles ≡ side 2 ∷ [])))
insert_block-Adopted_example =
    insert_block-Adopted arithmetic (λ a b. a + b) from_slice block_rules uncle_rules scripts
      remember (λ hash. none) store consensus 0 (side 2) tip [] result insert_side-result

insert_block-Follows_example : NotWorse tip result.state
insert_block-Follows_example = insert_block-Follows tip result.state (
    inserted arithmetic (λ a b. a + b) from_slice block_rules uncle_rules scripts remember
      (λ hash. none) store consensus 0 (side 2) [] result start insert_side-result)

main_is_stored : (k : ℕ) → k ≤ 1 → stored (main k).header.hash ≡ some (main k)
main_is_stored zero h = refl
main_is_stored (suc zero) h = refl
main_is_stored (suc (suc k)) h = absurd (omega arith)

side_is_stored : (k : ℕ) → k < 2 → stored (side k).header.hash ≡ some (side k)
side_is_stored zero h = refl
side_is_stored (suc zero) h = refl
side_is_stored (suc (suc k)) h = absurd (omega arith)

ext_is_stored : (k : ℕ) → k < 2 → store.get_block_ext (side k).header.hash ≡ some (side_ext k)
ext_is_stored zero h = refl
ext_is_stored (suc zero) h = refl
ext_is_stored (suc (suc k)) h = absurd (omega arith)

side_linked : (k : ℕ) → (side (suc k)).header.parent_hash ≡ (side k).header.hash
side_linked zero = refl
side_linked (suc zero) = refl
side_linked (suc (suc k)) = omega arith

branches_apart : (k : ℕ) → 0 < k → k ≤ 1 → (main k).header.hash ≢ (side k).header.hash
branches_apart zero low high e = absurd (omega arith)
branches_apart (suc zero) low high e = absurd (omega (arith, e))
branches_apart (suc (suc k)) low high e = absurd (omega arith)

branches : Branches (block_store store) main side side_ext 1 2 0
branches = record {
  fork_below_new = omega arith;
  fork_within = omega arith;
  indexed = λ k h. ground arith;
  main_stored = λ k h. main_is_stored k h;
  side_stored = λ k h. side_is_stored k h;
  ext_stored = λ k h. ext_is_stored k h;
  linked = λ k h. side_linked k;
  new_number = refl;
  agree = refl;
  apart = λ k low high below. branches_apart k low high;
}

find_fork-leaving_example :
    (unseen : Bool) × (changes : ForkChanges) × (find_fork
        (block_store store)
        1
        (side 2)
        (side_ext 2)
        no_changes
      ≡ some (record { number = 0; hash = 0; unseen = unseen }, changes))
    × (changes.attached_blocks ≡ side 1 ∷ side 2 ∷ [])
    × (changes.detached_blocks ≡ main 1 ∷ [])
    × (changes.detached_proposal_id ≡ [])
    × Dirty (block_store store) main side side_ext 1 2 0 branches 0 unseen changes.dirty_exts
find_fork-leaving_example = find_fork-leaving (block_store store) main side side_ext 1 2 0 branches

abbrev fork : ForkContext
fork = record { attached_blocks = side 1 ∷ []; detached_blocks = main 1 ∷ [] }

abbrev resolved : List ResolvedTransaction
resolved = record { transaction = cellbase 12 2; resolved_deps = []; resolved_inputs = [] } ∷ []

side_verified :
    Contextual.verify arithmetic from_slice uncle_rules scripts remember store consensus fork
      resolved
      (side 2)
      []
    ≡ ok (7, [], (hash_of 62, 7) ∷ [])
unfolding Contextual.verify Contextual.parent_of epoch_for Contextual.prepare_epoch_ext
    ckb_miner_opt.Chain.Provider.get_block_epoch ckb_miner_opt.Chain.Provider.next_epoch_ext
    ckb_miner_opt.Epoch.next_epoch_ext Uncles.verify Commit.verify get_ancestor
    ckb_miner_opt.Chain.Provider.ancestor_on_fork ckb_miner_opt.Chain.Provider.walk
    Contextual.verify_reward Contextual.expected_reward ckb_miner_opt.Epoch.reward_at
    Contextual.check_reward ckb_miner_opt.Core.Capacity.Sums.sum_from Contextual.Script-discrete
    ckb_miner_opt.Base.ℕ_discrete Contextual.fees Contextual.verify_block_txs Contextual.verify_txs
    Contextual.verify_tx ckb_miner_opt.Base.Maps.get ckb_miner_opt.Verify.Tx.verify_transaction
    ckb_miner_opt.Verify.Tx.verify_version ckb_miner_opt.Verify.Tx.verify_size
    ckb_miner_opt.Verify.Tx.verify_empty ckb_miner_opt.Verify.Tx.verify_maturity
    ckb_miner_opt.Verify.Tx.verify_capacity
    ckb_miner_opt.Core.Transaction.Occupied.is_lack_of_capacity ckb_miner_opt.Core.Capacity.bytes
    ckb_miner_opt.Verify.Tx.verify_duplicate_deps ckb_miner_opt.Verify.Since.verify
    Contextual.sum_cycles
side_verified = refl

verify-Accepted_example :
    (parent : Header) × (epoch : EpochExt) × (store.get_block_header 11 ≡ some parent)
    × (epoch_for arithmetic from_slice uncle_rules scripts remember store consensus (side 2) parent
        ≡ ok epoch)
    × (Uncles.verify
          (record uncle_rules { epoch = epoch })
          (new_context (side 1 ∷ []) (main 1 ∷ []) (side 2) store.get_block_number store.is_uncle)
          (side 2)
        ≡ ok tt)
    × (Commit.verify
          (commit_provider arithmetic from_slice uncle_rules scripts remember store consensus)
          window
          (side 2)
        ≡ ok tt)
    × Rewarded arithmetic from_slice uncle_rules scripts remember store consensus parent resolved
    × All
        (λ rtx.
          verify_contextual limits
            (since_context arithmetic from_slice uncle_rules scripts remember store consensus fork
              (side 2))
            rtx
          ≡ ok tt)
        resolved
    × (7 ≤ 100)
verify-Accepted_example =
    verify-Accepted arithmetic from_slice uncle_rules scripts remember store consensus fork resolved
      (side 2) [] 7 [] ((hash_of 62, 7) ∷ []) side_verified

side_numbered : (k : ℕ) → (side k).header.number ≡ k
side_numbered zero = refl
side_numbered (suc zero) = refl
side_numbered (suc (suc k)) = omega arith

side_header_is_stored :
    (k : ℕ) → k < 2 → store.get_block_header (side k).header.hash ≡ some (side k).header
side_header_is_stored zero h = refl
side_header_is_stored (suc zero) h = refl
side_header_is_stored (suc (suc k)) h = absurd (omega arith)

on_main_at : (k : ℕ) → k ≤ 0 → store.get_block_number (side k).header.hash ≡ some k
on_main_at zero h = refl
on_main_at (suc k) h = absurd (omega arith)

indexed_at : (k : ℕ) → k ≤ 0 → store.get_block_hash k ≡ some (side k).header.hash
indexed_at zero h = refl
indexed_at (suc k) h = absurd (omega arith)

off_main_at : (k : ℕ) → 0 < k → k ≤ 1 → store.get_block_number (side k).header.hash ≡ none
off_main_at zero low h = absurd (omega arith)
off_main_at (suc zero) low h = refl
off_main_at (suc (suc k)) low h = absurd (omega arith)

abbrev lineage : Lineage store 1 0
lineage = record {
  header_at = λ k. (side k).header;
  numbered = λ k h. side_numbered k;
  linked = λ k h. side_linked k;
  stored = λ k h. side_header_is_stored k (omega arith);
  on_main = λ k h. on_main_at k h;
  indexed = λ k h. indexed_at k h;
  off_main = λ k low h. off_main_at k low h;
}

get_ancestor-header_at_example : get_ancestor store 11 0 ≡ some (main 0).header
get_ancestor-header_at_example = get_ancestor-header_at store 1 0 lineage 1 0 (omega arith)
