-- ===== src/Verify/Since/Format.antt =====
-- The 64 bits of a `since` value: what the flags and the value stand for.
use ckb_miner_opt.Base.{
  ℕ, ◌+◌, ◌*◌, ◌/◌, ◌%◌, ◌^◌, ◌<◌, ◌≡◌, Bool, true, false, not, Option, some, arith, if◌then◌else◌,
  ◌==◌, ltb,
}
use ckb_miner_opt.Base.Outcome.{Outcome, ok, panic, u64_modulus}
use ckb_miner_opt.Verify.Error.{TransactionError}
use ckb_miner_opt.Verify.Since.{
  SinceMetric, block_number, epoch_number, timestamp, is_absolute, flags_is_valid, extract_metric,
}

-- RFC 0017: a relative or an absolute lock, one of three metrics, and a value of 56 bits.
pub data Metric : Type 0 where
  by_block by_epoch by_time : Metric

abbrev pub flag_of : Metric → ℕ
flag_of by_block = 0
flag_of by_epoch = 1
flag_of by_time = 2

abbrev pub encode : Bool → Metric → ℕ → ℕ
encode relative m v = (if relative then 2 ^ 63 else 0) + flag_of m * 2 ^ 61 + v

-- The metric that the code should see; time is given in seconds and compared in milliseconds.
abbrev pub meaning : Metric → ℕ → Outcome TransactionError (Option SinceMetric)
meaning by_block v = ok (some (block_number v))
meaning by_epoch v = ok (some (epoch_number v))
meaning by_time v = if ltb (v * 1000) u64_modulus then ok (some (timestamp (v * 1000))) else panic

-- Reading back what the RFC encodes: the flags are valid, and the lock type, the metric and the
-- value are the encoded ones. A time whose milliseconds do not fit into 64 bits panics.
pub extract_metric-encode :
    (relative : Bool) (m : Metric) (v : ℕ)
    → v < 2 ^ 56
    → (flags_is_valid (encode relative m v) ≡ true)
      × (is_absolute (encode relative m v) ≡ not relative)
      × (extract_metric (encode relative m v) ≡ meaning m v)
unfolding flags_is_valid is_absolute extract_metric
extract_metric-encode false by_block v h = ground arith
extract_metric-encode false by_epoch v h = ground arith
extract_metric-encode false by_time v h = ground arith
extract_metric-encode true by_block v h = ground arith
extract_metric-encode true by_epoch v h = ground arith
extract_metric-encode true by_time v h = ground arith

metric_of : ℕ → Metric
metric_of flag = if flag == 0 then by_block else if flag == 1 then by_epoch else by_time

-- The code accepts no other flags: a 64-bit value with valid flags is the encoding of one of the
-- three metrics.
pub flags_is_valid-encode :
    (since : ℕ)
    → since < u64_modulus
    → flags_is_valid since ≡ true
    → (relative : Bool) × (m : Metric) × (v : ℕ) × (v < 2 ^ 56) × (since ≡ encode relative m v)
unfolding flags_is_valid is_absolute metric_of
flags_is_valid-encode since h e = (
  not (is_absolute since),
  metric_of (since / 2 ^ 61 % 4),
  since % 2 ^ 56,
  omega arith,
  ground arith,
)
