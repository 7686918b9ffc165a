-- ===== src/Dao/Interest.antt =====
-- A deposit in the DAO does not shrink (util/dao/src/lib.rs).
use ckb_miner_opt.Base.{ℕ, ◌+◌, ◌%◌, ◌<◌, ◌≡◌}
use ckb_miner_opt.Base.Outcome.{ok, u64_modulus}
use ckb_miner_opt.Core.Capacity.{Capacity}
use ckb_miner_opt.Core.Extras.{DaoStats}
use ckb_miner_opt.Epoch.{EpochExt, reward_at}
use ckb_miner_opt.Dao.{calculate_g2, grown_rate, calculate_dao_data}

-- What one block does to the statistics.
abbrev Parts : ℕ → EpochExt → Capacity → DaoStats → ℕ × Capacity → Type 0
Parts number epoch secondary s next =
    (g2 primary : ℕ) × (calculate_g2 number epoch secondary ≡ ok g2)
    × (reward_at epoch number ≡ ok primary)
    × (next.1 ≡ s.accumulated_capacity + (primary + g2))
    × (next.0
        ≡ grown_rate s.accumulated_rate s.accumulated_capacity (s.accumulated_capacity + g2)
          % u64_modulus)

-- The statistics after some blocks, where the accumulated rate kept within 64 bits.
pub data Accrues (secondary : Capacity) (s : DaoStats) : DaoStats → Type 0 where
  here : Accrues secondary s s
  block :
      {t : DaoStats} {u : DaoStats}
      → Accrues secondary s t
      → (number : ℕ) (epoch : EpochExt) (g2 : Capacity)
      → calculate_dao_data number epoch t secondary
        ≡ ok (u.accumulated_rate, u.accumulated_capacity)
      → calculate_g2 number epoch secondary ≡ ok g2
      → grown_rate t.accumulated_rate t.accumulated_capacity (t.accumulated_capacity + g2)
        < u64_modulus
      → Accrues secondary s u
