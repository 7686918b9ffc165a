-- ===== src/Verify/Header.antt =====
-- verification/src/header_verifier.rs. The clock and the proof of work are parameters.
pub mod Valid
use ckb_miner_opt.Base.{ℕ, ◌+◌, ◌-◌, Bool, not, Option, none, some, ltb, leb, ◌==◌, if◌then◌else◌}
use ckb_miner_opt.Base.Outcome.{Outcome, ok, err, ◌>>=◌, ◌>>◌, refuse_if, expect, add_u64}
use ckb_miner_opt.Core.Transaction.{H256}
use ckb_miner_opt.Core.Block.{Header, header_is_genesis}
use ckb_miner_opt.Epoch.{EpochExt, U256}
use ckb_miner_opt.Verify.MedianTime.{MedianTimeContext, block_median_time}

pub data HeaderError : Type 0 where
  version invalid_proof ancestor_not_found : HeaderError
  unknown_parent : H256 → HeaderError
  number : ℕ → ℕ → HeaderError
  block_time_too_old block_time_too_new : ℕ → ℕ → HeaderError
  number_mismatch : ℕ → ℕ → HeaderError
  difficulty_mismatch : U256 → U256 → HeaderError

abbrev pub Check : Type 0
Check = Outcome HeaderError (Unit {0})

abbrev pub header_version : ℕ
header_version = 0

-- `ALLOWED_FUTURE_BLOCKTIME`
abbrev pub allowed_future_blocktime : ℕ
allowed_future_blocktime = 15_000

-- `HeaderResolver`
pub record Resolver : Type 0 where
  pub header : Header
  pub parent : Option Header
  pub epoch : Option EpochExt

abbrev pub verify_version : Header → Check
verify_version h = refuse_if (not (h.version == header_version)) version

abbrev pub verify_number : Header → Header → Check
verify_number parent h = do
  expected ← add_u64 parent.number 1
  refuse_if (not (h.number == expected)) (number expected h.number)

unfoldable pub verify_timestamp : MedianTimeContext → ℕ → Header → Check
verify_timestamp ctx now h =
    if header_is_genesis h
    then ok tt
    else (expect (block_median_time ctx (h.number - 1) h.parent_hash) >>= λ min.
        refuse_if (leb h.timestamp min) (block_time_too_old min h.timestamp)
        >> (add_u64 now allowed_future_blocktime >>= λ max.
            refuse_if (ltb max h.timestamp) (block_time_too_new max h.timestamp)))

unfoldable pub verify_epoch : Resolver → Check
verify_epoch r = elim r.epoch [
  | none ↦ err ancestor_not_found
  | some epoch ↦
      refuse_if (not (r.header.epoch == epoch.number)) (number_mismatch epoch.number r.header.epoch)
      >> refuse_if (not (epoch.difficulty == r.header.difficulty))
          (difficulty_mismatch epoch.difficulty r.header.difficulty)
]

-- The clock is read in `TimestampVerifier::new`.
unfoldable pub verify : MedianTimeContext → ℕ → (Header → Bool) → Resolver → Check
unfolding verify_timestamp verify_epoch
verify ctx now pow r = do
  verify_version r.header
  refuse_if (not (pow r.header)) invalid_proof
  elim r.parent [
    | none ↦ err (unknown_parent r.header.parent_hash)
    | some parent ↦ do
      verify_number parent r.header
      verify_timestamp ctx now r.header
      verify_epoch r
  ]
