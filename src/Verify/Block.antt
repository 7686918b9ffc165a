-- ===== src/Verify/Block.antt =====
-- verification/src/block_verifier.rs: the checks of a block that need no chain. The root and hash
-- computations and `H256::from_slice` are parameters.
pub mod Valid
use ckb_miner_opt.Base.{
  ℕ, ◌+◌, ◌*◌, Bool, true, false, not, ◌&&◌, ◌||◌, Option, none, some, List, [], ◌∷◌, map, ltb, leb,
  ◌==◌, if◌then◌else◌, length,
}
use ckb_miner_opt.Base.Maps.{nat_key}
use ckb_miner_opt.Base.Outcome.{Outcome, ok, err, panic, ◌>>=◌, ◌>>◌, refuse_if}
use ckb_miner_opt.Base.Seen.{all_new}
use ckb_miner_opt.Core.Transaction.{
  H256, Bytes, ProposalShortId, Transaction, CellInput, CellOutput, is_cellbase, is_null, is_none,
}
use ckb_miner_opt.Core.Block.{Block, is_genesis}
use ckb_miner_opt.Verify.Tx.{serialized_size}

pub data BlockError : Type 0 where
  invalid_quantity invalid_position invalid_witness invalid_type_script invalid_input : BlockError
  commit_transaction_duplicate proposal_transaction_duplicate : BlockError
  commit_transactions_root witnesses_merkle_root proposal_transactions_root : BlockError
  exceeded_maximum_proposals_limit exceeded_maximum_block_bytes : BlockError

abbrev pub Check : Type 0
Check = Outcome BlockError (Unit {0})

pub record BlockRules : Type 0 where
  pub max_block_proposals_limit : ℕ
  pub max_block_bytes : ℕ
  pub proof_size : ℕ
  pub from_slice : Bytes → Option H256
  pub cal_transactions_root : Block → H256
  pub cal_witnesses_root : Block → H256
  pub cal_proposals_hash : Block → H256

-- `Header::serialized_size` of core/src/header.rs.
abbrev pub header_size : ℕ → ℕ
header_size proof_size = (4 + 32 * 5 + 32 + 8 * 3 + 4) + proof_size + 8

abbrev pub sizes : List Transaction → ℕ
sizes [] = 0
sizes (tx ∷ txs) = serialized_size tx + sizes txs

-- `Block::serialized_size`; an uncle counts as its header.
abbrev pub block_size : ℕ → Block → ℕ
block_size proof_size b =
    header_size proof_size
    + length b.uncles * header_size proof_size
    + length b.proposals * 10
    + sizes b.transactions

-- `.filter(|tx| tx.is_cellbase()).count()`
abbrev pub count_cellbases : List Transaction → ℕ
count_cellbases [] = 0
count_cellbases (tx ∷ txs) = (if is_cellbase tx then 1 else 0) + count_cellbases txs

abbrev pub any_type_script : List CellOutput → Bool
any_type_script [] = false
any_type_script (o ∷ os) = not (is_none o.type_) || any_type_script os

-- `Script::from_witness` succeeds on the first witness.
abbrev pub names_lock : (Bytes → Option H256) → List (List Bytes) → Bool
names_lock from_slice [] = false
names_lock from_slice ([] ∷ _) = false
names_lock from_slice ((code_hash ∷ args) ∷ _) = not (is_none (from_slice code_hash))

-- The first input is `new_cellbase_input(number)`.
abbrev pub is_input_of : ℕ → CellInput → Bool
is_input_of number i = is_null i.previous_output && (i.since == number)

abbrev pub check_first_input : ℕ → List CellInput → Check
check_first_input number [] = panic
check_first_input number (i ∷ _) = refuse_if (not (is_input_of number i)) invalid_input

-- From `transactions()[0]` on.
unfoldable pub check_first : BlockRules → ℕ → List Transaction → Check
check_first rules number [] = panic
check_first rules number (tx ∷ _) =
    refuse_if (not (is_cellbase tx)) invalid_position
    >> refuse_if (not (names_lock rules.from_slice tx.witnesses)) invalid_witness
    >> refuse_if (any_type_script tx.outputs) invalid_type_script
    >> check_first_input number tx.inputs

unfoldable pub verify_cellbase : BlockRules → Block → Check
unfolding check_first
verify_cellbase rules b =
    if is_genesis b
    then ok tt
    else (refuse_if (not (count_cellbases b.transactions == 1)) invalid_quantity
        >> check_first rules b.header.number b.transactions)

abbrev pub tx_hashes : List Transaction → List H256
tx_hashes txs = map (λ tx. tx.hash) txs

unfoldable pub verify_duplicate : Block → Check
verify_duplicate b =
    refuse_if (not (all_new (tx_hashes b.transactions))) commit_transaction_duplicate
    >> refuse_if (not (all_new b.proposals)) proposal_transaction_duplicate

unfoldable pub verify_merkle_root : BlockRules → Block → Check
verify_merkle_root rules b =
    refuse_if (not (b.header.transactions_root == rules.cal_transactions_root b))
      commit_transactions_root
    >> refuse_if (not (b.header.witnesses_root == rules.cal_witnesses_root b)) witnesses_merkle_root
    >> refuse_if (not (b.header.proposals_hash == rules.cal_proposals_hash b))
        proposal_transactions_root

abbrev pub verify_proposals_limit : ℕ → Block → Check
verify_proposals_limit limit b =
    if leb (length b.proposals) limit then ok tt else err exceeded_maximum_proposals_limit

unfoldable pub verify_bytes : ℕ → ℕ → Block → Check
verify_bytes limit proof_size b =
    if is_genesis b
    then ok tt
    else if leb (block_size proof_size b) limit
    then ok tt
    else err exceeded_maximum_block_bytes

unfoldable pub verify : BlockRules → Block → Check
unfolding verify_cellbase verify_duplicate verify_merkle_root verify_bytes
verify rules b =
    verify_proposals_limit rules.max_block_proposals_limit b
    >> verify_bytes rules.max_block_bytes rules.proof_size b
    >> verify_cellbase rules b
    >> verify_duplicate b
    >> verify_merkle_root rules b
