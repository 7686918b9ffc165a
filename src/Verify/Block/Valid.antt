-- ===== src/Verify/Block/Valid.antt =====
-- Which blocks the verifier of verification/src/block_verifier.rs accepts.
use ckb_miner_opt.Base.{
  ℕ, ◌≤◌, ◌<◌, ◌≡◌, refl, true, false, none, List, [], ◌∷◌, arith, length, All,
}
use ckb_miner_opt.Base.Maps.{Distinct, nat_key}
use ckb_miner_opt.Base.Outcome.{ok}
use ckb_miner_opt.Base.Seen.{all_new_iff}
use ckb_miner_opt.Core.Transaction.{Transaction, CellInput, CellOutput, is_cellbase, is_null}
use ckb_miner_opt.Core.Block.{Block}
use ckb_miner_opt.Verify.Block.{
  BlockRules, block_size, count_cellbases, any_type_script, names_lock, check_first_input,
  check_first, verify_cellbase, tx_hashes, verify_duplicate, verify_merkle_root, verify_bytes,
  verify,
}

-- No cellbase but this one, which pays for the block of this number.
pub record Cellbase (rules : BlockRules) (number : ℕ) (first : Transaction)
    (rest : List Transaction) : Type 0 where
  pub first_is : is_cellbase first ≡ true
  pub others : All (λ tx. is_cellbase tx ≡ false) rest
  pub names_lock : names_lock rules.from_slice first.witnesses ≡ true
  pub untyped : All (λ o. o.type_ ≡ none) first.outputs
  pub input :
      (i : CellInput) × (is : List CellInput) × (first.inputs ≡ i ∷ is)
      × (is_null i.previous_output ≡ true)
      × (i.since ≡ number)

count_cellbases-zero :
    (txs : List Transaction) → count_cellbases txs ≡ 0 → All (λ tx. is_cellbase tx ≡ false) txs
count_cellbases-zero [] h = tt
count_cellbases-zero (tx ∷ txs) h = (ground arith, count_cellbases-zero txs (ground arith))

any_type_script-false :
    (os : List CellOutput) → any_type_script os ≡ false → All (λ o. o.type_ ≡ none) os
any_type_script-false [] h = tt
any_type_script-false (o ∷ os) h = (ground arith, any_type_script-false os (ground arith))

check_first_input-ok :
    (number : ℕ) (is : List CellInput)
    → check_first_input number is ≡ ok tt
    → (i : CellInput) × (js : List CellInput) × (is ≡ i ∷ js)
      × (is_null i.previous_output ≡ true)
      × (i.since ≡ number)
check_first_input-ok number [] h = cc
check_first_input-ok number (i ∷ is) h = (i, is, refl, ground arith, ground arith)

check_first-Cellbase :
    (rules : BlockRules) (number : ℕ) (txs : List Transaction)
    → count_cellbases txs ≡ 1
    → check_first rules number txs ≡ ok tt
    → (first : Transaction) × (rest : List Transaction) × (txs ≡ first ∷ rest)
      × Cellbase rules number first rest
unfolding check_first
check_first-Cellbase rules number [] one h = absurd (omega arith)
check_first-Cellbase rules number (tx ∷ txs) one h =
    let last : check_first_input number tx.inputs ≡ ok tt = ground arith in
    let first_is : is_cellbase tx ≡ true = ground arith in
    (
      tx,
      txs,
      refl,
      record {
        first_is = first_is;
        others = count_cellbases-zero txs (ground arith);
        names_lock = ground arith;
        untyped = any_type_script-false tx.outputs (ground arith);
        input = check_first_input-ok number tx.inputs last;
      },
    )

module _ (rules : BlockRules) (b : Block) where
  -- The block is within the limits, its only cellbase is its first transaction and is made for its
  -- number, and its transactions and its proposals are all different.
  pub record ValidBlock : Type 0 where
    pub few_proposals : length b.proposals ≤ rules.max_block_proposals_limit
    pub small : block_size rules.proof_size b ≤ rules.max_block_bytes
    pub cellbase :
        (first : Transaction) × (rest : List Transaction) × (b.transactions ≡ first ∷ rest)
        × Cellbase rules b.header.number first rest
    pub transactions_differ : Distinct (tx_hashes b.transactions)
    pub proposals_differ : Distinct b.proposals
    pub transactions_root : b.header.transactions_root ≡ rules.cal_transactions_root b
    pub witnesses_root : b.header.witnesses_root ≡ rules.cal_witnesses_root b
    pub proposals_hash : b.header.proposals_hash ≡ rules.cal_proposals_hash b

  verify_cellbase-ok :
      0 < b.header.number
      → verify_cellbase rules b ≡ ok tt
      → (first : Transaction) × (rest : List Transaction) × (b.transactions ≡ first ∷ rest)
        × Cellbase rules b.header.number first rest
  unfolding verify_cellbase
  verify_cellbase-ok later h =
      check_first-Cellbase rules b.header.number b.transactions (ground arith) (ground arith)

  -- A block other than genesis that the verifier accepts is within the limits for proposals and
  -- bytes; its first transaction is a cellbase for its number, without type scripts and with a
  -- lock in its witness, and no other transaction is a cellbase; no two transactions have one hash,
  -- and no two proposals are the same; and the header commits to transactions, witnesses, proposals.
  pub verify-ValidBlock : 0 < b.header.number → verify rules b ≡ ok tt → ValidBlock
  unfolding verify verify_bytes verify_duplicate verify_merkle_root
  verify-ValidBlock later h =
      let cellbase : verify_cellbase rules b ≡ ok tt = ground arith in
      let duplicate : verify_duplicate b ≡ ok tt = ground arith in
      let root : verify_merkle_root rules b ≡ ok tt = ground arith in
      record {
        few_proposals = ground arith;
        small = ground arith;
        cellbase = verify_cellbase-ok later cellbase;
        transactions_differ = (all_new_iff (tx_hashes b.transactions)).0 (ground arith);
        proposals_differ = (all_new_iff b.proposals).0 (ground arith);
        transactions_root = ground arith;
        witnesses_root = ground arith;
        proposals_hash = ground arith;
      }
