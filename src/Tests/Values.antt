-- ===== src/Tests/Values.antt =====
-- Capacities, spent outputs, `since` values and the median time.
use ckb_miner_opt.Base.{
  ℕ, ◌*◌, ◌+◌, ◌-◌, ◌<◌, ◌≤◌, ◌≡◌, refl, true, false, not, some, List, [], ◌∷◌, arith, length, min,
}
use ckb_miner_opt.Base.Outcome.{ok, ◌>>=◌}
use ckb_miner_opt.Core.Capacity.{Ratio, safe_add, safe_mul_ratio, bytes}
use ckb_miner_opt.Core.Capacity.Sums.{sum, sum_from, checked, sum_from-eq_checked, bytes-safe_add}
use ckb_miner_opt.Core.TransactionMeta.{TransactionMeta, is_dead}
use ckb_miner_opt.Verify.Since.{flags_is_valid, is_absolute, extract_metric}
use ckb_miner_opt.Verify.Since.Format.{by_time, encode, meaning, extract_metric-encode}
use ckb_miner_opt.Verify.MedianTime.{
  MedianTimeContext, timestamps, block_median_time, count_le, count_ge, block_median_time-is_median,
}

sum_from-eq_checked_example : sum_from 5 (6 ∷ 7 ∷ []) ≡ checked (5 + sum (6 ∷ 7 ∷ []))
sum_from-eq_checked_example = sum_from-eq_checked (6 ∷ 7 ∷ []) 5 (omega arith)

abbrev ratio : Ratio
ratio = record { numer = 4; denom = 10 }

ratio_of_fee : safe_mul_ratio 99 ratio ≡ ok 39
unfolding safe_mul_ratio
ratio_of_fee = refl

bytes-safe_add_example : (bytes 3 >>= λ x. bytes 4 >>= λ y. safe_add x y) ≡ bytes (3 + 4)
bytes-safe_add_example = bytes-safe_add 3 4

abbrev meta : TransactionMeta
meta = record {
  block_number = 1;
  epoch_number = 0;
  cellbase = false;
  dead_cell = false ∷ false ∷ [];
}

one_is_live : is_dead meta 1 ≡ some false
unfolding is_dead
one_is_live = refl

extract_metric-encode_example :
    (flags_is_valid (encode true by_time 600) ≡ true)
    × (is_absolute (encode true by_time 600) ≡ not true)
    × (extract_metric (encode true by_time 600) ≡ meaning by_time 600)
extract_metric-encode_example = extract_metric-encode true by_time 600 (omega arith)

thousand_valid : flags_is_valid 1000 ≡ true
unfolding flags_is_valid
thousand_valid = refl

-- Each block's hash is its number, and its timestamp ten times that.
abbrev pub median_context : MedianTimeContext
median_context = record {
  median_block_count = 3;
  timestamp_and_parent = λ hash. some (hash * 10, hash - 1);
  get_block_hash = λ n. some n;
}

abbrev latest : List ℕ
latest = 70 ∷ 60 ∷ 50 ∷ []

last_three : timestamps median_context (min (7 + 1) 3) 7 ≡ some latest
unfolding timestamps
last_three = refl

block_median_time-is_median_example :
    (m : ℕ) × (block_median_time median_context 7 7 ≡ some m)
    × (length latest < 2 * count_le m latest)
    × (length latest ≤ 2 * count_ge m latest)
block_median_time-is_median_example =
    block_median_time-is_median median_context 7 7 latest (omega arith) (omega arith) last_three
