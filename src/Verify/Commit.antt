-- ===== src/Verify/Commit.antt =====
-- `CommitVerifier` of verification/src/contextual_block_verifier.rs: each transaction that a block
-- commits was proposed in the window.
pub mod Walk
pub mod Window
pub mod Agreement
use ckb_miner_opt.Base.{
  ℕ, zero, suc, ◌+◌, ◌-◌, Bool, true, false, Option, none, some, List, [], ◌∷◌, map, ◌==◌,
  if◌then◌else◌,
}
use ckb_miner_opt.Base.Maps.{extend, nat_key}
use ckb_miner_opt.Base.Outcome.{Outcome, ok, err, panic, ◌>>=◌, refuse_if}
use ckb_miner_opt.Core.Transaction.{H256, ProposalShortId, Transaction, proposal_short_id}
use ckb_miner_opt.Core.Block.{
  Header, Block, UncleBlock, header_is_genesis, is_genesis, extend_with_uncles,
}
use ckb_miner_opt.Proposal.{ProposalWindow, Ids, difference}

pub data CommitError : Type 0 where
  ancestor_not_found : CommitError
  invalid : CommitError

-- What the verifier asks of `ChainProvider` and of its store.
pub record Provider : Type 0 where
  pub get_ancestor : H256 → ℕ → Option Header
  pub get_block_header : H256 → Option Header
  pub get_block_proposal_txs_ids : H256 → Option Ids
  pub get_block_uncles : H256 → Option (List UncleBlock)

-- The ids of one block, its uncles' included, added to the set.
unfoldable pub add_block_ids : Provider → H256 → Ids → Ids
unfolding extend_with_uncles
add_block_ids p hash ids =
    let own : Ids = elim (p.get_block_proposal_txs_ids hash) [
      | none ↦ ids
      | some js ↦ extend ids js
    ] in
    elim (p.get_block_uncles hash) [ none ↦ own | some us ↦ extend_with_uncles own us ]

-- The `while` loop, by the number of turns left; `proposal_end -= 1` panics at 0.
unfoldable pub walk : Provider → ℕ → ℕ → H256 → Ids → Outcome CommitError Ids
unfolding add_block_ids
walk p zero end hash ids = ok ids
walk p (suc turns) end hash ids = elim (p.get_block_header hash) [
  | none ↦ err ancestor_not_found
  | some header ↦
      let rest = walk p turns (end - 1) header.parent_hash (add_block_ids p hash ids) in
      if header_is_genesis header then ok ids else if end == 0 then panic else rest
]

-- `.skip(1)`
abbrev pub skip_one {ℓ} : {A : Type ℓ} → List A → List A
skip_one [] = []
skip_one (x ∷ xs) = xs

abbrev pub committed_ids : Block → Ids
committed_ids b = map proposal_short_id (skip_one b.transactions)

abbrev pub is_empty_ids : Ids → Bool
is_empty_ids [] = true
is_empty_ids (_ ∷ _) = false

unfoldable pub verify : Provider → ProposalWindow → Block → Outcome CommitError (Unit {0})
unfolding walk difference
verify p w b =
    if is_genesis b
    then ok tt
    else (let start = b.header.number - w.farthest in
        let end = b.header.number - w.closest in
        elim (p.get_ancestor b.header.parent_hash end) [
          | none ↦ err ancestor_not_found
          | some ancestor ↦ walk p (end + 1 - start) end ancestor.hash [] >>= λ ids.
              if is_empty_ids (difference (committed_ids b) ids) then ok tt else err invalid
        ])
