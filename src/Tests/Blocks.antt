-- ===== src/Tests/Blocks.antt =====
-- The verifiers of uncles and blocks.
use ckb_miner_opt.Base.{
  ℕ, ◌≡◌, refl, ◌↔◌, true, false, none, some, [], ◌∷◌, arith, ◌==◌, if◌then◌else◌, ℕ_discrete,
}
use ckb_miner_opt.Base.Maps.{nat_key, contains, extend, In}
use ckb_miner_opt.Base.Outcome.{ok}
use ckb_miner_opt.Core.Transaction.{Transaction, ProposalShortId, new_cellbase_input, is_cellbase}
use ckb_miner_opt.Core.Block.{UncleBlock, Block}
use ckb_miner_opt.Proposal.{Ids, TxProposalTable, finalize}
use ckb_miner_opt.Verify.Commit.{Provider, committed_ids, add_block_ids}
use ckb_miner_opt.Verify.Commit.Agreement.{Records, verify-finalize}
use ckb_miner_opt.Verify.Commit
use ckb_miner_opt.Verify.Commit.Walk.{Ancestry}
use ckb_miner_opt.Verify.Commit.Window.{AllProposed, verify-AllProposed}
use ckb_miner_opt.Verify.Uncles.{UncleContext, UncleRules}
use ckb_miner_opt.Verify.Uncles
use ckb_miner_opt.Verify.Uncles.Accepted.{Acceptable, verify-Acceptable}
use ckb_miner_opt.Verify.Block.{BlockRules, verify}
use ckb_miner_opt.Verify.Block.Valid.{ValidBlock, verify-ValidBlock}
use ckb_miner_opt.Tests.Data.{first, output, transaction}
use ckb_miner_opt.Tests.Consensus.{window, header_at, genesis_epoch}
use ckb_miner_opt.Verify.Tx.{serialized_size}
use ckb_miner_opt.Base.Seen.{all_new}

-- A chain on which the block of each height has its height as its hash, and block 9 proposes `first`.
abbrev provider : Provider
provider = record {
  get_ancestor = λ base n. some (header_at n);
  get_block_header = λ hash. some (header_at hash);
  get_block_proposal_txs_ids = λ hash. if hash == 9 then some (2 ∷ []) else none;
  get_block_uncles = λ hash. none;
}

abbrev cellbase : ℕ → Transaction
cellbase number = record (transaction 50 [] (new_cellbase_input number ∷ []) (output ∷ [])) {
  witnesses = ((1 ∷ []) ∷ []) ∷ [];
}

abbrev uncle : UncleBlock
uncle = record { header = record (header_at 11) { hash = 77 }; proposals = [] }

-- Commits `first` at height 12.
abbrev block : Block
block = record {
  header = record (header_at 12) { uncles_count = 1 };
  uncles = uncle ∷ [];
  transactions = cellbase 12 ∷ first ∷ [];
  proposals = 4 ∷ 5 ∷ [];
}

abbrev chain : Ancestry provider 11 12
chain = record {
  header_at = header_at;
  ancestor = λ k h. refl;
  stored = λ k h. refl;
  numbered = λ k h. refl;
  linked = λ k h. omega arith;
}

verify-AllProposed_example :
    (Commit.verify provider window block ≡ ok tt) ↔ AllProposed provider window block chain
verify-AllProposed_example =
    verify-AllProposed provider window block chain (omega arith) (omega arith)

abbrev chain_table : TxProposalTable
chain_table = record { table = (9, 2 ∷ []) ∷ []; gap = []; set = []; proposal_window = window }

chain_table-Records : Records provider chain_table block chain
unfolding add_block_ids extend contains
chain_table-Records k id pos below = (λ h. ground arith, λ h. ground arith)

verify-finalize_example :
    (t' : TxProposalTable) × (removed : Ids) × (finalize 11 chain_table ≡ some (t', removed))
    × ((Commit.verify provider window block ≡ ok tt)
        ↔ ((id : ProposalShortId) → In id (committed_ids block) → contains t'.set id ≡ true))
verify-finalize_example =
    verify-finalize provider chain_table 11 block chain refl (omega arith) (omega arith)
      (omega arith) chain_table-Records

abbrev pub uncle_rules : UncleRules
uncle_rules = record {
  epoch = genesis_epoch;
  max_uncles_num = 2;
  max_block_proposals_limit = 3000;
  cal_uncles_hash = λ us. 0;
  cal_proposals_hash = λ ids. 0;
  verify_header = λ h. true;
}

abbrev uncle_context : UncleContext
uncle_context = record {
  excluded = 12 ∷ [];
  detached = [];
  detached_uncles = [];
  get_block_number = λ hash. none;
  is_uncle = λ hash. false;
}

verify-Acceptable_example :
    (Uncles.verify uncle_rules uncle_context block ≡ ok tt)
    ↔ Acceptable uncle_rules uncle_context block
verify-Acceptable_example =
    verify-Acceptable uncle_rules uncle_context block (omega arith) (omega arith) (omega arith)

abbrev pub block_rules : BlockRules
block_rules = record {
  max_block_proposals_limit = 3000;
  max_block_bytes = 2_000_000;
  proof_size = 0;
  from_slice = λ bytes. some 1;
  cal_transactions_root = λ b. 0;
  cal_witnesses_root = λ b. 0;
  cal_proposals_hash = λ b. 0;
}

block_passes : verify block_rules block ≡ ok tt
unfolding verify serialized_size is_cellbase all_new contains ℕ_discrete
block_passes = refl

verify-ValidBlock_example : ValidBlock block_rules block
verify-ValidBlock_example = verify-ValidBlock block_rules block (omega arith) block_passes
