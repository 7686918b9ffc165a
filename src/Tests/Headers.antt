-- ===== src/Tests/Headers.antt =====
-- The verifier of headers.
use ckb_miner_opt.Base.{ℕ, ◌≡◌, refl, Bool, true, some}
use ckb_miner_opt.Base.Outcome.{ok}
use ckb_miner_opt.Core.Block.{Header}
use ckb_miner_opt.Epoch.{EpochExt}
use ckb_miner_opt.Verify.MedianTime.{block_median_time}
use ckb_miner_opt.Verify.Header.{Resolver, verify}
use ckb_miner_opt.Verify.Header.Valid.{ValidHeader, verify-ValidHeader}
use ckb_miner_opt.Tests.Values.{median_context}
use ckb_miner_opt.Tests.Consensus.{header_at, genesis_epoch}

abbrev resolver : Resolver
resolver = record {
  header = header_at 12;
  parent = some (header_at 11);
  epoch = some genesis_epoch;
}

abbrev pow : Header → Bool
pow h = true

header_passes : verify median_context 110_000 pow resolver ≡ ok tt
unfolding verify block_median_time
header_passes = refl

verify-ValidHeader_example :
    (parent : Header) × (epoch : EpochExt) × (median : ℕ) × ValidHeader median_context 110_000 pow
      resolver parent epoch median
verify-ValidHeader_example = verify-ValidHeader median_context 110_000 pow resolver header_passes
