-- ===== src/Epoch/Reward.antt =====
-- The block rewards of one epoch: `EpochExt::block_reward` of core/src/extras.rs.
use ckb_miner_opt.Base.{ℕ, zero, suc, ◌+◌, ◌*◌, ◌≤◌, ◌<◌, ◌≡◌, min, arith}
use ckb_miner_opt.Base.Outcome.{ok, ◌>>=◌, u64_modulus}
use ckb_miner_opt.Core.Capacity.{Capacity, Result, safe_add}
use ckb_miner_opt.Epoch.{EpochExt, reward_at}

-- What the first `n` blocks of an epoch issue, added as capacities are.
unfoldable pub issued : EpochExt → ℕ → Result Capacity
issued e zero = ok 0
issued e (suc n) = do
  before ← issued e n
  reward ← reward_at e (e.start_number + n)
  safe_add before reward

-- The rewards of an epoch share out this amount.
abbrev pub Shares : Capacity → EpochExt → Type 0
Shares total e =
    (e.block_reward * e.length + e.remainder_reward ≡ total) × (e.remainder_reward < e.length)

issued-eq_min :
    (e : EpochExt) (total : Capacity) (n : ℕ)
    → Shares total e
    → total < u64_modulus
    → e.start_number + e.length < u64_modulus
    → n ≤ e.length
    → issued e n ≡ ok (n * e.block_reward + min n e.remainder_reward)
unfolding issued reward_at safe_add
issued-eq_min e total zero shares small room le = ground arith
issued-eq_min e total (suc n) (sum, rest) small room le =
    let before = issued-eq_min e total n (sum, rest) small room (omega arith) in
    let fits : suc n * e.block_reward + min (suc n) e.remainder_reward ≤ total = grind arith in
    grind (arith, before)

-- The blocks of an epoch whose reward and remainder share out an amount together issue the whole
-- amount, by checked additions, if the amount and the end of the epoch fit 64 bits.
pub issued-length :
    (e : EpochExt) (total : Capacity)
    → Shares total e
    → total < u64_modulus
    → e.start_number + e.length < u64_modulus
    → issued e e.length ≡ ok total
issued-length e total (sum, rest) small room =
    let all = issued-eq_min e total e.length (sum, rest) small room (omega arith) in
    grind (arith, all)
