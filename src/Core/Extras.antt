-- ===== src/Core/Extras.antt =====
-- core/src/extras.rs: what the store keeps of a block beside its body. `EpochExt` is in Epoch.
use ckb_miner_opt.Base.{ℕ, Bool, Option, List}
use ckb_miner_opt.Core.Capacity.{Capacity}

pub record DaoStats : Type 0 where
  pub accumulated_rate : ℕ
  pub accumulated_capacity : ℕ

pub record BlockExt : Type 0 where
  pub received_at : ℕ
  pub total_difficulty : ℕ
  pub total_uncles_count : ℕ
  pub verified : Option Bool
  pub dao_stats : DaoStats
  pub txs_fees : List Capacity
