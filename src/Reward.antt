-- ===== src/Reward.antt =====
-- util/reward-calculator/src/lib.rs: what the miner of a block is paid when a later block finalizes it.
-- A panic is a failed `expect` or an index out of range. The `while` loop has as many turns as the
-- parent's number, since each turn goes one block back and the loop stops above 0.
use ckb_miner_opt.Base.{
  ℕ, zero, suc, ◌+◌, ◌-◌, max, Option, none, some, List, [], ◌∷◌, map, ltb, if◌then◌else◌,
}
use ckb_miner_opt.Base.Maps.{contains, extend, set_remove, nat_key}
use ckb_miner_opt.Base.Outcome.{Outcome, ok, err, panic, ◌>>=◌, expect, map_err, add_u64}
use ckb_miner_opt.Core.Capacity.{Capacity, safe_add, safe_sub, safe_mul_ratio}
use ckb_miner_opt.Core.Capacity
use ckb_miner_opt.Core.Transaction.{H256, Bytes, Script, ProposalShortId, from_tx_hash}
use ckb_miner_opt.Core.Block.{Header, extend_with_uncles}
use ckb_miner_opt.Epoch.{U256Arithmetic, EpochExt, reward_at}
use ckb_miner_opt.Proposal.{Ids}
use ckb_miner_opt.Verify.Commit.{skip_one}
use ckb_miner_opt.Chain.Store.{ChainStore, Consensus, finalize_target}
use ckb_miner_opt.Chain.Provider.{get_ancestor, get_block_epoch, next_epoch_ext}

pub data RewardError : Type 0 where
  target : ℕ → RewardError
  script : H256 → RewardError
  capacity : Capacity.Error → RewardError

abbrev pub Result : Type 0 → Type 0
Result A = Outcome RewardError A

abbrev pub from_capacity : {A : Type 0} → Capacity.Result A → Outcome RewardError A
from_capacity r = map_err capacity r

-- `Script::from_witness` of core/src/script.rs, with the reading of the hash as a parameter.
unfoldable pub from_witness : (Bytes → Option H256) → List Bytes → Option Script
from_witness from_slice [] = none
from_witness from_slice (code_hash ∷ args) = elim (from_slice code_hash) [
  | none ↦ none
  | some hash ↦ some (record { args = args; code_hash = hash })
]

-- `witnesses()[0]`
abbrev pub first_witness : List (List Bytes) → Result (List Bytes)
first_witness [] = panic
first_witness (w ∷ _) = ok w

-- The ids that a block commits, each with the fee at the same place.
abbrev pub zip_fees : List ProposalShortId → List Capacity → List (ProposalShortId × Capacity)
zip_fees [] fees = []
zip_fees (id ∷ ids) [] = []
zip_fees (id ∷ ids) (fee ∷ fees) = (id, fee) ∷ zip_fees ids fees

abbrev pub or_err : {A : Type 0} → Option A → RewardError → Outcome RewardError A
or_err none e = err e
or_err (some a) e = ok a

unfoldable pub or_epoch : EpochExt → Option EpochExt → EpochExt
or_epoch last none = last
or_epoch last (some next) = next

module _ (u : U256Arithmetic) (from_slice : Bytes → Option H256) (s : ChainStore)
    (c : Consensus) where
  unfoldable pub miner_part : Capacity → Capacity → Capacity.Result Capacity
  unfolding safe_mul_ratio safe_sub safe_add
  miner_part acc tx_fee = do
    proposer ← safe_mul_ratio tx_fee c.proposer_reward_ratio
    miner ← safe_sub tx_fee proposer
    safe_add acc miner

  unfoldable pub miner_parts : Capacity → List Capacity → Capacity.Result Capacity
  unfolding miner_part
  miner_parts acc [] = ok acc
  miner_parts acc (tx_fee ∷ fees) = do acc' ← miner_part acc tx_fee; miner_parts acc' fees

  unfoldable pub txs_fees : Header → Result Capacity
  unfolding miner_parts
  txs_fees target_header = do
    ext ← expect (s.get_block_ext target_header.hash)
    from_capacity (miner_parts 0 ext.txs_fees)

  unfoldable pub get_proposal_ids_by_hash : H256 → Ids
  get_proposal_ids_by_hash hash =
      let own : Ids = elim (s.get_block_proposal_txs_ids hash) [
        | none ↦ []
        | some ids ↦ extend [] ids
      ] in
      elim (s.get_block_uncles hash) [ none ↦ own | some us ↦ extend_with_uncles own us ]

  unfoldable pub committed : H256 → Result (List (ProposalShortId × Capacity))
  committed hash = do
    hashes ← expect (s.get_block_txs_hashes hash)
    ext ← expect (s.get_block_ext hash)
    ok (zip_fees (map from_tx_hash (skip_one hashes)) ext.txs_fees)

  -- One of the two `for` loops: an id of the target is paid for and crossed out; those in `proposed`
  -- are crossed out without pay.
  unfoldable pub pay :
      Ids → List (ProposalShortId × Capacity) → Ids → Capacity → Capacity.Result (Ids × Capacity)
  pay proposed [] targets reward = ok (targets, reward)
  pay proposed ((id, tx_fee) ∷ txs) targets reward =
      let rest = pay proposed txs targets reward in
      let cross = pay proposed txs (set_remove id targets) reward in
      let paid : Capacity.Result (Ids × Capacity) = (do
        share ← safe_mul_ratio tx_fee c.proposer_reward_ratio
        reward' ← safe_add reward share
        pay proposed txs (set_remove id targets) reward') in
      if contains targets id then if contains proposed id then cross else paid else rest

  -- `while index.number() > competing_commit_start`
  unfoldable pub pay_back : ℕ → ℕ → Header → Ids → Ids → Capacity → Result Capacity
  pay_back start zero index proposed targets reward =
      if ltb start index.number then panic else ok reward
  pay_back start (suc turns) index proposed targets reward =
      let turn : Result Capacity = (do
        header ← expect (s.get_block_header index.parent_hash)
        hash ← expect (s.get_block_hash (max (header.number - c.tx_proposal_window.farthest) 1))
        let proposed' = extend proposed (get_proposal_ids_by_hash hash)
        txs ← committed header.hash
        (targets', reward') ← from_capacity (pay proposed' txs targets reward)
        pay_back start turns header proposed' targets' reward') in
      if ltb start index.number then turn else ok reward

  unfoldable pub proposal_reward : Header → Header → Result Capacity
  proposal_reward parent target_header = do
    block_number ← add_u64 parent.number 1
    let window = c.tx_proposal_window
    let start = max (block_number - (window.farthest - window.closest + 1)) (1 + window.closest)
    txs ← committed parent.hash
    (targets, reward) ← from_capacity (pay [] txs (get_proposal_ids_by_hash target_header.hash) 0)
    pay_back start parent.number parent [] targets reward

  unfoldable pub base_block_reward : Header → Result Capacity
  base_block_reward target_header = do
    epoch ← expect (get_block_epoch s target_header.parent_hash)
    parent ← expect (s.get_block_header target_header.parent_hash)
    next ← map_err (λ (e : ⊥). absurd e) (next_epoch_ext u s c epoch parent)
    from_capacity (reward_at (or_epoch epoch next) target_header.number)

  -- The lock of the target's miner and the reward.
  unfoldable pub block_reward : Header → Result (Script × Capacity)
  block_reward parent = do
    block_number ← add_u64 parent.number 1
    target_number ← or_err (finalize_target c block_number) (target block_number)
    target_header ← or_err (get_ancestor s parent.hash target_number) (target block_number)
    cellbase ← expect (s.get_cellbase target_header.hash)
    witness ← first_witness cellbase.witnesses
    target_lock ← or_err (from_witness from_slice witness) (script target_header.hash)
    fees ← txs_fees target_header
    proposals ← proposal_reward parent target_header
    base ← base_block_reward target_header
    subtotal ← from_capacity (safe_add fees proposals)
    reward ← from_capacity (safe_add subtotal base)
    ok (target_lock, reward)
