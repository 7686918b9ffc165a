-- ===== src/Verify/Since.antt =====
-- `SinceVerifier` of verification/src/transaction_verifier.rs: the lock that the `since` field of an
-- input sets (RFC 0017). A mask of adjacent bits is read as a quotient and a remainder:
-- LOCK_TYPE_FLAG is bit 63, METRIC_TYPE_FLAG_MASK bits 61 and 62, REMAIN_FLAGS_BITS bits 56 to 60,
-- and VALUE_MASK the 56 bits below. The cache of median times is not modelled: it returns what it
-- was given by the same calls.
pub mod Format
pub mod Later
pub mod Mono
use ckb_miner_opt.Base.{
  ℕ, ◌+◌, ◌-◌, ◌*◌, ◌/◌, ◌%◌, ◌^◌, Bool, true, false, ◌&&◌, not, Option, none, some, List, [], ◌∷◌,
  ltb, ◌==◌, if◌then◌else◌,
}
use ckb_miner_opt.Base.Outcome.{
  Outcome, ok, err, panic, ◌>>=◌, ◌>>◌, refuse_if, expect, add_u64, mul_u64,
}
use ckb_miner_opt.Core.Transaction.{CellInput}
use ckb_miner_opt.Core.Cell.{CellMeta, BlockInfo, ResolvedOutPoint, ResolvedTransaction, cell_meta}
use ckb_miner_opt.Verify.Error.{TransactionError, immature, invalid_since}
use ckb_miner_opt.Verify.MedianTime.{MedianTimeContext, block_median_time}

pub data SinceMetric : Type 0 where
  block_number epoch_number timestamp : ℕ → SinceMetric

-- `self.0 & LOCK_TYPE_FLAG == 0`
unfoldable pub is_absolute : ℕ → Bool
is_absolute since = since / 2 ^ 63 % 2 == 0

abbrev pub is_relative : ℕ → Bool
is_relative since = not (is_absolute since)

abbrev pub metric_flag : ℕ → ℕ
metric_flag since = since / 2 ^ 61 % 4

abbrev pub value_of : ℕ → ℕ
value_of since = since % 2 ^ 56

unfoldable pub flags_is_valid : ℕ → Bool
flags_is_valid since = (since / 2 ^ 56 % 32 == 0) && not (metric_flag since == 3)

-- The multiplication by 1000 is checked.
unfoldable pub extract_metric : ℕ → Outcome TransactionError (Option SinceMetric)
extract_metric since =
    if metric_flag since == 0
    then ok (some (block_number (value_of since)))
    else if metric_flag since == 1
    then ok (some (epoch_number (value_of since)))
    else if metric_flag since == 2
    then (do t ← mul_u64 (value_of since) 1000; ok (some (timestamp t)))
    else ok none

-- The fields of `SinceVerifier` that its methods read.
pub record SinceContext : Type 0 where
  pub median : MedianTimeContext
  pub block_number : ℕ
  pub epoch_number : ℕ

module _ (ctx : SinceContext) where
  -- `block_median_time` of the verifier: 0 where the block is not known.
  unfoldable pub median_time : ℕ → Outcome TransactionError ℕ
  median_time n = elim (ctx.median.get_block_hash n) [
    | none ↦ ok 0
    | some hash ↦ expect (block_median_time ctx.median n hash)
  ]

  unfoldable pub check_absolute : Option SinceMetric → Outcome TransactionError (Unit {0})
  check_absolute none = err invalid_since
  check_absolute (some (block_number n)) = refuse_if (ltb ctx.block_number n) immature
  check_absolute (some (epoch_number n)) = refuse_if (ltb ctx.epoch_number n) immature
  check_absolute (some (timestamp t)) = do
    tip_timestamp ← median_time (ctx.block_number - 1)
    refuse_if (ltb tip_timestamp t) immature

  unfoldable pub verify_absolute_lock : ℕ → Outcome TransactionError (Unit {0})
  unfolding check_absolute
  verify_absolute_lock since =
      if is_absolute since then (do m ← extract_metric since; check_absolute m) else ok tt

  unfoldable pub check_relative :
      BlockInfo → Option SinceMetric → Outcome TransactionError (Unit {0})
  check_relative info none = err invalid_since
  check_relative info (some (block_number n)) = do
    unlocked ← add_u64 info.number n
    refuse_if (ltb ctx.block_number unlocked) immature
  check_relative info (some (epoch_number n)) = do
    unlocked ← add_u64 info.epoch n
    refuse_if (ltb ctx.epoch_number unlocked) immature
  check_relative info (some (timestamp t)) = do
    cell_median_timestamp ← median_time (info.number - 1)
    current_median_time ← median_time (ctx.block_number - 1)
    unlocked ← add_u64 cell_median_timestamp t
    refuse_if (ltb current_median_time unlocked) immature

  -- A cell without block info is still in the pool.
  unfoldable pub verify_relative_lock : ℕ → CellMeta → Outcome TransactionError (Unit {0})
  unfolding check_relative
  verify_relative_lock since meta =
      if is_relative since
      then elim meta.block_info [
        | none ↦ err immature
        | some info ↦ do m ← extract_metric since; check_relative info m
      ]
      else ok tt

  -- One input whose cell is resolved.
  unfoldable pub verify_since : ℕ → CellMeta → Outcome TransactionError (Unit {0})
  unfolding verify_absolute_lock verify_relative_lock
  verify_since since meta = if since == 0 then ok tt else (do
    refuse_if (not (flags_is_valid since)) invalid_since
    verify_absolute_lock since
    verify_relative_lock since meta)

  -- The loop over `resolved_inputs.iter().zip(inputs)`.
  unfoldable pub verify_inputs :
      List ResolvedOutPoint → List CellInput → Outcome TransactionError (Unit {0})
  unfolding verify_since
  verify_inputs [] is = ok tt
  verify_inputs (r ∷ rs) [] = ok tt
  verify_inputs (r ∷ rs) (i ∷ is) =
      let rest = verify_inputs rs is in
      elim (cell_meta r.cell) [ none ↦ rest | some meta ↦ verify_since i.since meta >> rest ]

  -- `SinceVerifier::verify`
  unfoldable pub verify : ResolvedTransaction → Outcome TransactionError (Unit {0})
  unfolding verify_inputs
  verify rtx = verify_inputs rtx.resolved_inputs rtx.transaction.inputs
