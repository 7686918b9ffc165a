-- ===== src/Core/Capacity.antt =====
-- util/occupied-capacity/core/src/units.rs: amounts of shannons as `u64`, with checked arithmetic.
pub mod Sums
use ckb_miner_opt.Base.{ℕ, ◌+◌, ◌-◌, ◌*◌, ◌/◌, ltb, leb, ◌==◌, if◌then◌else◌}
use ckb_miner_opt.Base.Outcome.{Outcome, ok, err, u64_modulus}

abbrev pub Capacity : Type 0
Capacity = ℕ

pub record Ratio : Type 0 where
  pub numer : ℕ
  pub denom : ℕ

-- `BYTE_SHANNONS`
abbrev pub byte_shannons : ℕ
byte_shannons = 100_000_000

pub data Error : Type 0 where
  overflow : Error

abbrev pub Result : Type 0 → Type 0
Result A = Outcome Error A

-- `u64::checked_add`, `checked_sub` and `checked_mul`, with `ok_or(Error::Overflow)`.
unfoldable pub safe_add : Capacity → Capacity → Result Capacity
safe_add a b = if ltb (a + b) u64_modulus then ok (a + b) else err overflow

unfoldable pub safe_sub : Capacity → Capacity → Result Capacity
safe_sub a b = if leb b a then ok (a - b) else err overflow

unfoldable pub safe_mul : Capacity → Capacity → Result Capacity
safe_mul a b = if ltb (a * b) u64_modulus then ok (a * b) else err overflow

unfoldable pub safe_mul_ratio : Capacity → Ratio → Result Capacity
safe_mul_ratio a r =
    if ltb (a * r.numer) u64_modulus
    then if r.denom == 0 then err overflow else ok (a * r.numer / r.denom)
    else err overflow

-- `Capacity::bytes`
unfoldable pub bytes : ℕ → Result Capacity
bytes val = if ltb (val * byte_shannons) u64_modulus then ok (val * byte_shannons) else err overflow
