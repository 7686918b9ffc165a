-- ===== src/Verify/Uncles.antt =====
-- verification/src/uncles_verifier.rs, with the `UncleVerifierContext` of
-- verification/src/contextual_block_verifier.rs.
pub mod Accepted
use ckb_miner_opt.Base.{
  ℕ, ◌+◌, ◌%◌, ◌≤◌, ◌<◌, ◌≡◌, refl, ◌↔◌, ◌⊎◌, inl, inr, Bool, true, false, not, Option, none, some,
  List, [], ◌∷◌, map, arith, ltb, leb, ◌==◌, if◌then◌else◌, length, All,
}
use ckb_miner_opt.Base.Maps.{contains, extend, Distinct, nat_key}
use ckb_miner_opt.Base.Outcome.{Outcome, ok, err, ◌>>=◌, ◌>>◌, refuse_if}
use ckb_miner_opt.Base.Seen.{all_new, all_new_from, all_new_iff}
use ckb_miner_opt.Core.Transaction.{H256, ProposalShortId, u32_modulus}
use ckb_miner_opt.Core.Block.{Header, UncleBlock, Block, is_genesis}
use ckb_miner_opt.Epoch.{EpochExt}

pub data UnclesError : Type 0 where
  over_count miss_match_count : ℕ → ℕ → UnclesError
  invalid_hash : H256 → H256 → UnclesError
  invalid_number invalid_difficulty invalid_difficulty_epoch invalid_proof : UnclesError
  proposals_hash proposal_duplicate exceeded_maximum_proposals_limit : UnclesError
  duplicate double_inclusion : H256 → UnclesError

abbrev pub Check : Type 0
Check = Outcome UnclesError (Unit {0})

-- `UncleVerifierContext`, with the two questions that it asks the store.
pub record UncleContext : Type 0 where
  pub excluded : List H256
  pub detached : List H256
  pub detached_uncles : List H256
  pub get_block_number : H256 → Option ℕ
  pub is_uncle : H256 → Bool

abbrev pub uncle_hashes : List UncleBlock → List H256
uncle_hashes us = map (λ u. u.header.hash) us

-- `UncleVerifierContext::new`, from the attached and the detached blocks of the fork.
abbrev pub excluded_from : List H256 → List Block → List H256
excluded_from s [] = s
excluded_from s (b ∷ bs) = excluded_from (extend s (b.header.hash ∷ uncle_hashes b.uncles)) bs

abbrev pub detached_uncles_from : List H256 → List Block → List H256
detached_uncles_from s [] = s
detached_uncles_from s (b ∷ bs) = detached_uncles_from (extend s (uncle_hashes b.uncles)) bs

abbrev pub new_context :
    List Block → List Block → Block → (H256 → Option ℕ) → (H256 → Bool) → UncleContext
new_context attached detached b get_block_number is_uncle = record {
  excluded = excluded_from (b.header.hash ∷ []) attached;
  detached = extend [] (map (λ d. d.header.hash) detached);
  detached_uncles = detached_uncles_from [] detached;
  get_block_number = get_block_number;
  is_uncle = is_uncle;
}

unfoldable pub is_double_inclusion : UncleContext → H256 → Bool
is_double_inclusion ctx hash =
    if contains ctx.excluded hash then true else elim (ctx.get_block_number hash) [
      | some _ ↦ not (contains ctx.detached hash)
      | none ↦ if ctx.is_uncle hash then not (contains ctx.detached_uncles hash) else false
    ]

-- What the verifier reads of the consensus and the epoch, the two hash computations and the proof
-- of work.
pub record UncleRules : Type 0 where
  pub epoch : EpochExt
  pub max_uncles_num : ℕ
  pub max_block_proposals_limit : ℕ
  pub cal_uncles_hash : List UncleBlock → H256
  pub cal_proposals_hash : List ProposalShortId → H256
  pub verify_header : Header → Bool

module _ (rules : UncleRules) (ctx : UncleContext) (b : Block) where
  -- The loop's body for one uncle.
  unfoldable pub verify_uncle : List H256 → UncleBlock → Check
  unfolding is_double_inclusion all_new
  verify_uncle included u = do
    refuse_if (not (u.header.difficulty == rules.epoch.difficulty)) invalid_difficulty
    refuse_if (not (rules.epoch.number == u.header.epoch)) invalid_difficulty_epoch
    refuse_if (leb b.header.number u.header.number) invalid_number
    refuse_if (contains included u.header.hash) (duplicate u.header.hash)
    refuse_if (is_double_inclusion ctx u.header.hash) (double_inclusion u.header.hash)
    refuse_if (ltb rules.max_block_proposals_limit (length u.proposals))
        exceeded_maximum_proposals_limit
    refuse_if (not (u.header.proposals_hash == rules.cal_proposals_hash u.proposals)) proposals_hash
    refuse_if (not (all_new u.proposals)) proposal_duplicate
    refuse_if (not (rules.verify_header u.header)) invalid_proof

  unfoldable pub verify_each : List H256 → List UncleBlock → Check
  unfolding verify_uncle
  verify_each included [] = ok tt
  verify_each included (u ∷ us) =
      verify_uncle included u >> verify_each (u.header.hash ∷ included) us

  unfoldable pub verify : Check
  unfolding verify_each
  verify =
      let uncles_count = length b.uncles % u32_modulus in
      let max_uncles_num = rules.max_uncles_num % u32_modulus in
      refuse_if (not (uncles_count == b.header.uncles_count))
        (miss_match_count b.header.uncles_count uncles_count)
      >> refuse_if (not (rules.cal_uncles_hash b.uncles == b.header.uncles_hash))
          (invalid_hash b.header.uncles_hash (rules.cal_uncles_hash b.uncles))
      >> (if uncles_count == 0
          then ok tt
          else (refuse_if (is_genesis b) (over_count 0 uncles_count)
              >> refuse_if (ltb max_uncles_num uncles_count)
                  (over_count max_uncles_num uncles_count)
              >> verify_each [] b.uncles))
