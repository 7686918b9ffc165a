-- ===== src/Epoch.antt =====
-- core/src/extras.rs (`EpochExt`) and the epoch adjustment of spec/src/consensus.rs.
pub mod Next
pub mod Returns
pub mod Reward
use ckb_miner_opt.Base.{
  ℕ, zero, suc, ◌+◌, ◌-◌, ◌*◌, ◌/◌, ◌%◌, ◌^◌, ◌<◌, ◌≡◌, ◌≢◌, min, max, Bool, Option, none, some,
  ltb, leb, ◌==◌, if◌then◌else◌,
}
use ckb_miner_opt.Base.Outcome.{
  Outcome, ok, panic, ◌>>=◌, expect, add_u64, sub_u64, mul_u64, div_u64,
}
use ckb_miner_opt.Core.Capacity.{Capacity, Result, safe_add}
use ckb_miner_opt.Core.Transaction.{H256}
use ckb_miner_opt.Core.Block.{Header}

-- `U256` of the crate numext-fixed-uint, by its value.
abbrev pub U256 : Type 0
U256 = ℕ

-- Its multiplication and division; `none` is a panic. Within the range they are exact.
pub record U256Arithmetic : Type 0 where
  pub times : U256 → U256 → Option U256
  pub over : U256 → U256 → Option U256
  pub times-exact : (a b : ℕ) → a * b < 2 ^ 256 → times a b ≡ some (a * b)
  pub over-exact : (a b : ℕ) → b ≢ 0 → over a b ≡ some (a / b)

pub record EpochExt : Type 0 where
  pub number : ℕ
  pub block_reward : Capacity
  pub remainder_reward : Capacity
  pub last_block_hash_in_previous_epoch : H256
  pub start_number : ℕ
  pub length : ℕ
  pub difficulty : U256

abbrev pub epoch_is_genesis : EpochExt → Bool
epoch_is_genesis e = e.number == 0

-- `EpochExt::block_reward`: the first blocks get one shannon more each. `&&` does not add when the
-- first test fails.
unfoldable pub reward_at : EpochExt → ℕ → Result Capacity
unfolding safe_add
reward_at e number =
    if leb e.start_number number
    then (add_u64 e.start_number e.remainder_reward >>= λ end.
        if ltb number end then safe_add e.block_reward 1 else ok e.block_reward)
    else ok e.block_reward

-- The part of `Consensus` that the epoch adjustment reads.
pub record Consensus : Type 0 where
  pub genesis_header : Header
  pub epoch_reward : Capacity
  pub orphan_rate_target_recip : ℕ
  pub epoch_duration_target : ℕ

-- `MAX_EPOCH_LENGTH` and `MIN_EPOCH_LENGTH`
abbrev pub max_epoch_length : ℕ
max_epoch_length = 14_400_000 / 8_000

abbrev pub min_epoch_length : ℕ
min_epoch_length = 14_400_000 / 60_000

abbrev pub min_difficulty : Consensus → U256
min_difficulty c = c.genesis_header.difficulty

abbrev pub revision_epoch_length : ℕ → ℕ
revision_epoch_length raw = max (min max_epoch_length raw) min_epoch_length

abbrev pub Adjusted : Type 0 → Type 0
Adjusted A = Outcome ⊥ A

-- The header of the last block of the epoch before.
abbrev pub previous_header : Consensus → EpochExt → (H256 → Option Header) → Option Header
previous_header c last get_block_header =
    if epoch_is_genesis last
    then some c.genesis_header
    else get_block_header last.last_block_hash_in_previous_epoch

-- `EpochExt::new`, with the rewards of both branches.
abbrev pub new_epoch : Consensus → EpochExt → Header → ℕ → U256 → Adjusted EpochExt
new_epoch c last header next_length difficulty = do
  block_reward ← div_u64 c.epoch_reward next_length
  number ← add_u64 last.number 1
  start ← add_u64 header.number 1
  ok (record {
    number = number;
    block_reward = block_reward;
    remainder_reward = c.epoch_reward % next_length;
    last_block_hash_in_previous_epoch = header.hash;
    start_number = start;
    length = next_length;
    difficulty = difficulty;
  })

module _ (u : U256Arithmetic) where
  unfoldable pub revision_epoch_difficulty : Consensus → U256 → U256 → Adjusted U256
  revision_epoch_difficulty c last raw = do
    half ← expect (u.over last 2)
    max_difficulty ← expect (u.times last 2)
    let lowest = max (min_difficulty c) half
    if ltb max_difficulty raw
        then ok max_difficulty
        else if ltb raw lowest
        then ok lowest
        else ok raw

  -- The length before it is clamped.
  unfoldable pub raw_epoch_length : Consensus → EpochExt → ℕ → ℕ → Adjusted ℕ
  raw_epoch_length c last uncles duration = do
    blocks ← add_u64 uncles last.length
    scaled ← mul_u64 blocks c.epoch_duration_target
    numerator ← mul_u64 scaled last.length
    recip ← add_u64 c.orphan_rate_target_recip 1
    expected ← mul_u64 recip uncles
    denominator ← mul_u64 expected duration
    div_u64 numerator denominator

  unfoldable pub raw_difficulty : Consensus → EpochExt → U256 → ℕ → Adjusted U256
  raw_difficulty c last difficulty uncles = do
    weighted ← expect (u.times difficulty uncles)
    product ← expect (u.times weighted c.orphan_rate_target_recip)
    expect (u.over product last.length)

  -- The branch of an epoch that had uncles.
  unfoldable pub adjust : Consensus → EpochExt → Header → Header → ℕ → Adjusted (Option EpochExt)
  unfolding revision_epoch_difficulty raw_epoch_length raw_difficulty
  adjust c last header previous uncles =
      let duration = header.timestamp - previous.timestamp in
      if duration == 0 then ok none else do
        raw_length ← raw_epoch_length c last uncles duration
        raw ← raw_difficulty c last header.difficulty uncles
        difficulty ← revision_epoch_difficulty c header.difficulty raw
        next ← new_epoch c last header (revision_epoch_length raw_length) difficulty
        ok (some next)

  -- The branch of an epoch without uncles.
  unfoldable pub relax : Consensus → EpochExt → Header → Adjusted (Option EpochExt)
  relax c last header = do
    half ← expect (u.over header.difficulty 2)
    next ← new_epoch c last header max_epoch_length (max (min_difficulty c) half)
    ok (some next)

  -- From the header of the last block of the epoch before on; `expect` and the subtraction panic.
  unfoldable pub adjust_since :
      Consensus → EpochExt → Header → (H256 → Option ℕ) → Header → Adjusted (Option EpochExt)
  unfolding adjust relax
  adjust_since c last header total_uncles_count previous = do
    start_uncles ← expect (total_uncles_count previous.hash)
    last_uncles ← expect (total_uncles_count header.hash)
    uncles ← sub_u64 last_uncles start_uncles
    if ltb 0 uncles then adjust c last header previous uncles else relax c last header

  unfoldable pub next_epoch_ext :
      Consensus
      → EpochExt
      → Header
      → (H256 → Option Header)
      → (H256 → Option ℕ)
      → Adjusted (Option EpochExt)
  unfolding adjust_since
  next_epoch_ext c last header get_block_header total_uncles_count = do
    end ← add_u64 last.start_number last.length
    last_number ← sub_u64 end 1
    if header.number == last_number
        then elim (previous_header c last get_block_header) [
          | none ↦ ok none
          | some previous ↦ adjust_since c last header total_uncles_count previous
        ]
        else ok none
