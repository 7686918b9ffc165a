-- ===== src/Epoch/Returns.antt =====
-- When the epoch adjustment of spec/src/consensus.rs returns an epoch and does not panic.
use ckb_miner_opt.Base.{
  ℕ, ◌+◌, ◌-◌, ◌*◌, ◌/◌, ◌%◌, ◌^◌, ◌≤◌, ◌<◌, ◌≡◌, max, arith, true, false, Option, some, ltb, ◌==◌,
  if◌then◌else◌, inl, inr, Bool-cases,
}
use ckb_miner_opt.Base.Outcome.{ok, add_u64, sub_u64, mul_u64, div_u64, u64_modulus}
use ckb_miner_opt.Core.Transaction.{H256}
use ckb_miner_opt.Core.Block.{Header}
use ckb_miner_opt.Epoch.{
  U256, U256Arithmetic, EpochExt, Consensus, min_difficulty, revision_epoch_length, previous_header,
  new_epoch, revision_epoch_difficulty, adjust, relax, adjust_since, next_epoch_ext,
  max_epoch_length, raw_epoch_length, raw_difficulty,
}
use ckb_miner_opt.Epoch.Next.{Next, next_epoch_ext-Next}

le-mul : (a b : ℕ) → 0 < b → a ≤ a * b
le-mul a b h = grind arith

mul-pos : (a b : ℕ) → 0 < a → 0 < b → 0 < a * b
mul-pos a b h k = grind arith

add_u64-fits : (a b : ℕ) → a + b < u64_modulus → add_u64 {E = ⊥} a b ≡ ok (a + b)
add_u64-fits a b h = ground arith

mul_u64-fits : (a b : ℕ) → a * b < u64_modulus → mul_u64 {E = ⊥} a b ≡ ok (a * b)
mul_u64-fits a b h = ground arith

div_u64-nonzero : (a b : ℕ) → 0 < b → div_u64 {E = ⊥} a b ≡ ok (a / b)
div_u64-nonzero a b h = ground arith

-- The epoch has blocks, the two constants are not 0, and the products of the adjustment fit their
-- integers: those of the length 64 bits, those of the difficulty 256 bits.
pub record Fits (c : Consensus) (last : EpochExt) (header : Header) (uncles duration : ℕ)
    : Type 0 where
  pub some_blocks : 0 < last.length
  pub some_target : 0 < c.epoch_duration_target
  pub some_recip : 0 < c.orphan_rate_target_recip
  pub scaled : (uncles + last.length) * c.epoch_duration_target * last.length < u64_modulus
  pub expected : (c.orphan_rate_target_recip + 1) * uncles * duration < u64_modulus
  pub weighted : header.difficulty * uncles * c.orphan_rate_target_recip < 2 ^ 256
  pub doubled : header.difficulty * 2 < 2 ^ 256

module _ (u : U256Arithmetic) (c : Consensus) (last : EpochExt) (header : Header) where
  new_epoch-returns :
      (next_length : ℕ) (difficulty : U256)
      → 0 < next_length
      → header.number + 1 < u64_modulus
      → last.number + 1 < u64_modulus
      → (e : EpochExt) × (new_epoch c last header next_length difficulty ≡ ok e)
  new_epoch-returns next_length difficulty pos room small = (
    record {
      number = last.number + 1;
      block_reward = c.epoch_reward / next_length;
      remainder_reward = c.epoch_reward % next_length;
      last_block_hash_in_previous_epoch = header.hash;
      start_number = header.number + 1;
      length = next_length;
      difficulty = difficulty;
    },
    rw (
      div_u64-nonzero c.epoch_reward next_length pos,
      add_u64-fits last.number 1 small,
      add_u64-fits header.number 1 room,
    ),
  )

  raw_epoch_length-returns :
      (uncles duration : ℕ)
      → 0 < uncles
      → 0 < duration
      → Fits c last header uncles duration
      → (n : ℕ) × (raw_epoch_length u c last uncles duration ≡ ok n)
  unfolding raw_epoch_length
  raw_epoch_length-returns uncles duration some_uncles some_time fits =
      let blocks = uncles + last.length in
      let scaled = blocks * c.epoch_duration_target in
      let recip = c.orphan_rate_target_recip + 1 in
      let expected = recip * uncles in
      let scaled_le = le-mul scaled last.length fits.some_blocks in
      let blocks_le = le-mul blocks c.epoch_duration_target fits.some_target in
      let expected_le = le-mul expected duration some_time in
      let recip_le = le-mul recip uncles some_uncles in
      let nonzero =
        mul-pos expected duration (mul-pos recip uncles (omega arith) some_uncles) some_time in
      (
        scaled * last.length / (expected * duration),
        rw (
          raw_epoch_length,
          add_u64-fits uncles last.length (omega (arith, fits.scaled)),
          mul_u64-fits blocks c.epoch_duration_target (omega (arith, fits.scaled)),
          mul_u64-fits scaled last.length fits.scaled,
          add_u64-fits c.orphan_rate_target_recip 1 (omega (arith, fits.expected)),
          mul_u64-fits recip uncles (omega (arith, fits.expected)),
          mul_u64-fits expected duration fits.expected,
          div_u64-nonzero (scaled * last.length) (expected * duration) nonzero,
        ),
      )

  raw_difficulty-returns :
      (uncles duration : ℕ)
      → Fits c last header uncles duration
      → (d : U256) × (raw_difficulty u c last header.difficulty uncles ≡ ok d)
  unfolding raw_difficulty
  raw_difficulty-returns uncles duration fits =
      let weighted = header.difficulty * uncles in
      let product = weighted * c.orphan_rate_target_recip in
      let weighted_le = le-mul weighted c.orphan_rate_target_recip fits.some_recip in
      (
        product / last.length,
        rw (
          raw_difficulty,
          u.times-exact header.difficulty uncles (omega (arith, fits.weighted)),
          u.times-exact weighted c.orphan_rate_target_recip fits.weighted,
          u.over-exact product last.length (λ e. omega (arith, fits.some_blocks, e)),
        ),
      )

  revision_epoch_difficulty-returns :
      (raw : U256)
      → header.difficulty * 2 < 2 ^ 256
      → (d : U256) × (revision_epoch_difficulty u c header.difficulty raw ≡ ok d)
  unfolding revision_epoch_difficulty
  revision_epoch_difficulty-returns raw fits =
      let half = header.difficulty / 2 in
      let twice = header.difficulty * 2 in
      let lowest = max (min_difficulty c) half in
      (
        (if ltb twice raw then twice else if ltb raw lowest then lowest else raw),
        rw
            (
              revision_epoch_difficulty,
              u.over-exact header.difficulty 2 (λ e. omega (arith, e)),
              u.times-exact header.difficulty 2 fits,
            )
            (ground arith),
      )

  adjust-returns :
      (previous : Header) (uncles : ℕ)
      → 0 < uncles
      → previous.timestamp < header.timestamp
      → Fits c last header uncles (header.timestamp - previous.timestamp)
      → header.number + 1 < u64_modulus
      → last.number + 1 < u64_modulus
      → (e : EpochExt) × (adjust u c last header previous uncles ≡ ok (some e))
  unfolding adjust
  adjust-returns previous uncles some_uncles later fits room small =
      let duration = header.timestamp - previous.timestamp in
      let took : (duration == 0) ≡ false = ground arith in
      let (raw_length, length_read) =
        raw_epoch_length-returns uncles duration some_uncles (omega arith) fits in
      let (raw, difficulty_read) = raw_difficulty-returns uncles duration fits in
      let (difficulty, revised) = revision_epoch_difficulty-returns raw fits.doubled in
      let (e, made) =
        new_epoch-returns (revision_epoch_length raw_length) difficulty (omega arith) room small in
      (e, rw (adjust, took, length_read, difficulty_read, revised, made))

  relax-returns :
      header.number + 1 < u64_modulus
      → last.number + 1 < u64_modulus
      → (e : EpochExt) × (relax u c last header ≡ ok (some e))
  unfolding relax
  relax-returns room small =
      let half = header.difficulty / 2 in
      let (e, made) =
        new_epoch-returns max_epoch_length (max (min_difficulty c) half) (omega arith) room small in
      (e, rw (relax, u.over-exact header.difficulty 2 (λ e. omega (arith, e)), made))

  adjust_since-returns :
      (previous : Header) (total_uncles_count : H256 → Option ℕ) (before after : ℕ)
      → total_uncles_count previous.hash ≡ some before
      → total_uncles_count header.hash ≡ some after
      → before ≤ after
      → previous.timestamp < header.timestamp
      → Fits c last header (after - before) (header.timestamp - previous.timestamp)
      → header.number + 1 < u64_modulus
      → last.number + 1 < u64_modulus
      → (e : EpochExt) × (adjust_since u c last header total_uncles_count previous ≡ ok (some e))
  unfolding adjust_since
  adjust_since-returns previous total before after start end grown later fits room small =
      let uncles = after - before in
      let counted : sub_u64 {E = ⊥} after before ≡ ok uncles = ground arith in
      elim (Bool-cases (ltb 0 uncles)) [
        | inl some_uncles ↦
            let (e, made) = adjust-returns previous uncles (ground arith) later fits room small in
            (e, rw (adjust_since, start, end, counted, some_uncles, made))
        | inr none_new ↦
            let (e, made) = relax-returns room small in
            (e, rw (adjust_since, start, end, counted, none_new, made))
      ]

  -- At the last block of an epoch, with uncles or without, `next_epoch_ext` does not panic and returns
  -- a next epoch, which has the next number, begins at the next block, has a length between the two
  -- bounds, shares out the epoch's reward, and has a difficulty between half and twice the one before
  -- and not below the genesis block's. It is assumed that the header before the epoch and both uncle
  -- totals are known, the total did not fall, time went on, the next block's and epoch's numbers fit 64
  -- bits, the difficulty before was not below the genesis block's, the epoch has blocks, the orphan rate
  -- and the target of the duration are not 0, and the products of the adjustment fit their integers.
  pub next_epoch_ext-returns :
      (previous : Header) (get_block_header : H256 → Option Header)
      (total_uncles_count : H256 → Option ℕ) (before after : ℕ)
      → header.number + 1 ≡ last.start_number + last.length
      → header.number + 1 < u64_modulus
      → last.number + 1 < u64_modulus
      → previous_header c last get_block_header ≡ some previous
      → total_uncles_count previous.hash ≡ some before
      → total_uncles_count header.hash ≡ some after
      → before ≤ after
      → previous.timestamp < header.timestamp
      → min_difficulty c ≤ header.difficulty
      → Fits c last header (after - before) (header.timestamp - previous.timestamp)
      → (e : EpochExt) × (next_epoch_ext u c last header get_block_header total_uncles_count
          ≡ ok (some e))
        × Next c last header e
  unfolding next_epoch_ext
  next_epoch_ext-returns previous get_block_header total before after last_one room small found
        start end grown later low fits =
      let (e, made) =
        adjust_since-returns previous total before after start end grown later fits room small in
      let ends : add_u64 {E = ⊥} last.start_number last.length ≡ ok (header.number + 1) =
        ground arith in
      let is_last : sub_u64 {E = ⊥} (header.number + 1) 1 ≡ ok header.number = ground arith in
      let same : (header.number == header.number) ≡ true = ground arith in
      let returned : next_epoch_ext u c last header get_block_header total ≡ ok (some e) =
        rw (next_epoch_ext, ends, is_last, same, found, made) in
      (
        e,
        returned,
        next_epoch_ext-Next u c last header get_block_header total e low fits.doubled returned,
      )
