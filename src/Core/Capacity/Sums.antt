-- ===== src/Core/Capacity/Sums.antt =====
-- Sums of capacities: the `try_fold(Capacity::zero(), Capacity::safe_add)` of several callers.
use ckb_miner_opt.Base.{
  ℕ, ◌+◌, ◌-◌, ◌*◌, ◌/◌, ◌≤◌, ◌<◌, ◌≡◌, List, [], ◌∷◌, arith, ltb, if◌then◌else◌,
}
use ckb_miner_opt.Base.Outcome.{ok, err, ◌>>=◌, u64_modulus}
use ckb_miner_opt.Core.Capacity.{
  Capacity, Result, Ratio, overflow, safe_add, safe_sub, safe_mul_ratio, bytes,
}

unfoldable pub sum_from : Capacity → List Capacity → Result Capacity
sum_from acc [] = ok acc
sum_from acc (c ∷ cs) = do acc' ← safe_add acc c; sum_from acc' cs

abbrev pub sum : List ℕ → ℕ
sum [] = 0
sum (c ∷ cs) = c + sum cs

abbrev pub checked : ℕ → Result Capacity
checked n = if ltb n u64_modulus then ok n else err overflow

-- From a start that fits 64 bits, the checked fold gives the true sum if that fits 64 bits, and
-- fails otherwise.
pub sum_from-eq_checked :
    (cs : List ℕ) (acc : ℕ) → acc < u64_modulus → sum_from acc cs ≡ checked (acc + sum cs)
unfolding sum_from safe_add
sum_from-eq_checked [] acc h = ground arith
sum_from-eq_checked (c ∷ cs) acc h = ground (arith, sum_from-eq_checked cs (acc + c))

-- Two amounts of bytes are added in bytes or in shannons.
pub bytes-safe_add : (a b : ℕ) → (bytes a >>= λ x. bytes b >>= λ y. safe_add x y) ≡ bytes (a + b)
unfolding bytes safe_add
bytes-safe_add a b = ground arith

share_le : (a n d : ℕ) → n ≤ d → a * n / d ≤ a
share_le a n d h = grind arith

-- What the proposer takes by a ratio of at most one can be taken off the fee.
pub safe_mul_ratio-safe_sub :
    (fee : Capacity) (r : Ratio) {share : Capacity}
    → r.numer ≤ r.denom
    → safe_mul_ratio fee r ≡ ok share
    → (miner : Capacity) × (safe_sub fee share ≡ ok miner) × (miner + share ≡ fee)
unfolding safe_mul_ratio safe_sub
safe_mul_ratio-safe_sub fee r {share} h e = (
  fee - share,
  ground (arith, share_le fee r.numer r.denom h),
  ground (arith, share_le fee r.numer r.denom h),
)
