-- ===== src/Verify/MedianTime/Grows.antt =====
-- The median time of traits/src/block_median_time_context.rs does not fall where a block is later than
-- the median time of its parent, which the header verifier asks of each block.
use ckb_miner_opt.Base.{
  ℕ, zero, suc, ◌+◌, ◌-◌, ◌*◌, ◌≤◌, ◌<◌, ◌≡◌, refl, inl, inr, some, List, [], ◌∷◌, arith, min,
  subst, ltb, length, Bool-cases, Option-cases,
}
use ckb_miner_opt.Base.Outcome.{u64_modulus}
use ckb_miner_opt.Core.Transaction.{H256}
use ckb_miner_opt.Verify.MedianTime.{
  MedianTimeContext, timestamps, block_median_time, count_le, count_ge, length-timestamps,
  block_median_time-is_median,
}

-- What is at most the smaller number is not at least the greater one.
count_le-add-count_ge : (a b : ℕ) (ts : List ℕ) → a < b → count_le a ts + count_ge b ts ≤ length ts
count_le-add-count_ge a b [] lt = omega arith
count_le-add-count_ge a b (t ∷ ts) lt = ground (arith, count_le-add-count_ge a b ts lt)

-- Two numbers that are medians of a list from the two sides are in order.
median_order :
    (a b : ℕ) (ts : List ℕ) → length ts < 2 * count_le a ts → length ts ≤ 2 * count_ge b ts → b ≤ a
median_order a b ts below above = elim (Bool-cases (ltb a b)) [
  | inl lt ↦ absurd (omega (arith, count_le-add-count_ge a b ts (ground arith)))
  | inr not_lt ↦ ground arith
]

module _ (ctx : MedianTimeContext) where
  -- One block less: all timestamps but the oldest.
  timestamps-shorter :
      (span : ℕ) (hash : H256) (m : ℕ) {ts : List ℕ}
      → timestamps ctx (suc span) hash ≡ some ts
      → (newer : List ℕ) × (timestamps ctx span hash ≡ some newer)
        × (count_ge m ts ≤ count_ge m newer + 1)
  unfolding timestamps
  timestamps-shorter zero hash m h = elim (Option-cases (ctx.timestamp_and_parent hash)) [
    | inl missing ↦ ground arith
    | inr ((t, parent), found) ↦ ([], refl, ground (arith, found))
  ]
  timestamps-shorter (suc span) hash m h = elim (Option-cases (ctx.timestamp_and_parent hash)) [
    | inl missing ↦ ground arith
    | inr ((t, parent), found) ↦ elim (Option-cases (timestamps ctx (suc span) parent)) [
      | inl missing ↦ ground arith
      | inr (older, more) ↦
          let (newer, shorter, le) = timestamps-shorter span parent m more in
          (t ∷ newer, ground (arith, found, shorter), ground (arith, found, more, le))
    ]
  ]

  block_median_time-timestamps :
      (n : ℕ) (hash : H256) {m : ℕ}
      → block_median_time ctx n hash ≡ some m
      → (ts : List ℕ) × (timestamps ctx (min (n + 1) ctx.median_block_count) hash ≡ some ts)
  unfolding block_median_time
  block_median_time-timestamps n hash h =
      elim (Option-cases (timestamps ctx (min (n + 1) ctx.median_block_count) hash)) [
        | inl missing ↦ ground arith
        | inr (ts, found) ↦ (ts, found)
      ]

  -- The timestamps that count for a block, from those that count for its parent: the block's own is
  -- added, and the oldest may leave.
  timestamps-child :
      (n : ℕ) (hash parent : H256) (t m : ℕ) {ts : List ℕ}
      → 0 < ctx.median_block_count
      → ctx.timestamp_and_parent hash ≡ some (t, parent)
      → timestamps ctx (min (n + 1) ctx.median_block_count) parent ≡ some ts
      → length ts ≤ 2 * count_ge m ts
      → m < t
      → (new : List ℕ) × (timestamps ctx (min (n + 2) ctx.median_block_count) hash ≡ some new)
        × (length new ≤ 2 * count_ge m new)
  timestamps-child n hash parent t m {ts} some_count found old half later =
      let count = ctx.median_block_count in
      elim (Bool-cases (ltb (n + 1) count)) [
        | inl growing ↦
            let span : min (n + 1) count ≡ n + 1 = ground arith in
            let longer : min (n + 2) count ≡ suc (n + 1) = ground arith in
            let all : timestamps ctx (n + 1) parent ≡ some ts = rw span at old in
            (t ∷ ts, rw longer (unfold timestamps in rw (timestamps, found, all)), ground arith)
        | inr full ↦
            let span : min (n + 1) count ≡ suc (count - 1) = ground arith in
            let same : min (n + 2) count ≡ suc (count - 1) = ground arith in
            let all : timestamps ctx (suc (count - 1)) parent ≡ some ts = rw span at old in
            let (newer, shorter, le) = timestamps-shorter (count - 1) parent m all in
            let size = length-timestamps ctx (count - 1) parent shorter in
            let old_size = length-timestamps ctx (suc (count - 1)) parent all in
            (
              t ∷ newer,
              rw same (unfold timestamps in rw (timestamps, found, shorter)),
              ground (arith, size, old_size, le),
            )
      ]

  -- If a block's timestamp is above the median time of its parent, the block's median time is there
  -- and is not below its parent's.
  pub block_median_time-grows :
      (n : ℕ) (hash parent : H256) (t m : ℕ)
      → n + 2 < u64_modulus
      → 0 < ctx.median_block_count
      → ctx.timestamp_and_parent hash ≡ some (t, parent)
      → block_median_time ctx n parent ≡ some m
      → m < t
      → (m' : ℕ) × (block_median_time ctx (n + 1) hash ≡ some m') × (m ≤ m')
  block_median_time-grows n hash parent t m small some_count found read later =
      let (ts, old) = block_median_time-timestamps n parent read in
      let (m₀, read₀, _, above) =
        block_median_time-is_median ctx n parent ts (omega arith) some_count old in
      let same : m₀ ≡ m = ground (arith, read, read₀) in
      let half : length ts ≤ 2 * count_ge m ts =
        subst (λ x. length ts ≤ 2 * count_ge x ts) same above in
      let (new, counted, new_half) =
        timestamps-child n hash parent t m some_count found old half later in
      let next : n + 2 ≡ n + 1 + 1 = omega arith in
      let (m', read', below, _) =
        block_median_time-is_median ctx (n + 1) hash new (omega arith) some_count
          (rw next at counted) in
      (m', read', median_order m' m new below new_half)
