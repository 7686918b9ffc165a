-- ===== src/Dao.antt =====
-- util/dao/src/lib.rs: the statistics of the DAO along the chain, and what a deposit may withdraw.
-- Products of two `u64` fit the `u128` in which they are computed; the casts back keep the low 64 bits.
pub mod Interest
pub mod Fee
use ckb_miner_opt.Base.{ℕ, ◌+◌, ◌*◌, ◌/◌, ◌%◌, max, ◌==◌, if◌then◌else◌}
use ckb_miner_opt.Base.Outcome.{ok, panic, ◌>>=◌, ◌>>◌, div_u64, u64_modulus}
use ckb_miner_opt.Core.Capacity.{Capacity, Result, safe_add, safe_sub}
use ckb_miner_opt.Core.Extras.{DaoStats}
use ckb_miner_opt.Core.Transaction.{CellOutput}
use ckb_miner_opt.Core.Transaction.Occupied.{occupied_capacity}
use ckb_miner_opt.Epoch.{EpochExt, reward_at}

-- The secondary reward of a block; the first of its epoch gets the remainder too.
unfoldable pub calculate_g2 : ℕ → EpochExt → Capacity → Result Capacity
unfolding safe_add
calculate_g2 block_number epoch secondary_epoch_reward = do
  g2 ← div_u64 secondary_epoch_reward epoch.length
  (if epoch.start_number == block_number
      then safe_add g2 (secondary_epoch_reward % epoch.length)
      else ok g2)

unfoldable pub grown_rate : ℕ → Capacity → Capacity → ℕ
grown_rate rate capacity grown = rate * grown / max capacity 1

-- The next accumulated rate and capacity.
unfoldable pub calculate_dao_data : ℕ → EpochExt → DaoStats → Capacity → Result (ℕ × Capacity)
calculate_dao_data parent_number parent_epoch parent_stats secondary_epoch_reward = do
  parent_g2 ← calculate_g2 parent_number parent_epoch secondary_epoch_reward
  primary ← reward_at parent_epoch parent_number
  parent_g ← safe_add primary parent_g2
  current_c ← safe_add parent_stats.accumulated_capacity parent_g
  grown ← safe_add parent_stats.accumulated_capacity parent_g2
  ok (
    grown_rate parent_stats.accumulated_rate parent_stats.accumulated_capacity grown % u64_modulus,
    current_c,
  )

unfoldable pub calculate_maximum_withdraw : CellOutput → DaoStats → DaoStats → Result Capacity
calculate_maximum_withdraw output deposit withdraw = do
  occupied ← occupied_capacity output
  counted ← safe_sub output.capacity occupied
  (if deposit.accumulated_rate == 0
      then panic
      else safe_add (counted * withdraw.accumulated_rate / deposit.accumulated_rate % u64_modulus)
          occupied)
