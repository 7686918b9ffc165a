-- ===== src/Verify/Since/Later.antt =====
-- What the verifier of `since` fields (verification/src/transaction_verifier.rs) reads at two points of
-- one chain.
use ckb_miner_opt.Base.{
  ℕ, zero, suc, ◌+◌, ◌-◌, ◌≤◌, ◌<◌, ◌≡◌, inl, inr, Option, none, some, List, arith, min, subst, sym,
  Option-cases,
}
use ckb_miner_opt.Base.Outcome.{ok, u64_modulus}
use ckb_miner_opt.Core.Transaction.{H256}
use ckb_miner_opt.Core.Cell.{CellMeta, BlockInfo, ResolvedOutPoint, cell_meta}
use ckb_miner_opt.Verify.MedianTime.{MedianTimeContext, timestamps, block_median_time}
use ckb_miner_opt.Verify.MedianTime.Grows.{block_median_time-grows}
use ckb_miner_opt.Verify.Since.{SinceContext, median_time}

-- The block at this height is the child of the one below, and later than its parent's median time, as
-- the header verifier asks.
abbrev pub Grown : MedianTimeContext → ℕ → Type 0
Grown ctx k =
    (hash parent : H256) × (t : ℕ) × (ctx.get_block_hash k ≡ some hash)
    × (ctx.get_block_hash (k - 1) ≡ some parent)
    × (ctx.timestamp_and_parent hash ≡ some (t, parent))
    × ((m : ℕ) → block_median_time ctx (k - 1) parent ≡ some m → m < t)

-- A later point of the same chain. The earlier point knows the parent of its block, and the blocks and
-- headers that it knows are still those of the chain; each block from there on up to the parent of the
-- later point's block has grown from the one below. Of heights that the earlier point does not know
-- nothing else is said.
pub record Later (early late : SinceContext) : Type 0 where
  pub above_genesis : 0 < early.block_number
  pub number : early.block_number ≤ late.block_number
  pub small : late.block_number < u64_modulus
  pub epoch : early.epoch_number ≤ late.epoch_number
  pub some_count : 0 < late.median.median_block_count
  pub same_count : early.median.median_block_count ≡ late.median.median_block_count
  pub known_tip : (hash : H256) × (early.median.get_block_hash (early.block_number - 1) ≡ some hash)
  pub same_hash :
      (n : ℕ) (hash : H256)
      → early.median.get_block_hash n ≡ some hash
      → late.median.get_block_hash n ≡ some hash
  pub same_header :
      (hash : H256) (header : ℕ × H256)
      → early.median.timestamp_and_parent hash ≡ some header
      → late.median.timestamp_and_parent hash ≡ some header
  pub grown : (k : ℕ) → early.block_number ≤ k → k < late.block_number → Grown late.median k

-- If the block is given, the point knows the block's parent.
abbrev pub KnowsParent : SinceContext → Option BlockInfo → Type 0
KnowsParent ctx none = Unit
KnowsParent ctx (some info) =
    (hash : H256) × (ctx.median.get_block_hash (info.number - 1) ≡ some hash)

abbrev pub KnowsCell : SinceContext → Option CellMeta → Type 0
KnowsCell ctx none = Unit
KnowsCell ctx (some meta) = KnowsParent ctx meta.block_info

-- If the input's cell is in a block, the point knows the parent of that block.
abbrev pub KnowsInput : SinceContext → ResolvedOutPoint → Type 0
KnowsInput ctx r = KnowsCell ctx (cell_meta r.cell)

median_time-eq_ok :
    (ctx : SinceContext) (n : ℕ) (hash : H256) (t : ℕ)
    → ctx.median.get_block_hash n ≡ some hash
    → median_time ctx n ≡ ok t
    → block_median_time ctx.median n hash ≡ some t
unfolding median_time
median_time-eq_ok ctx n hash t known h = elim (Option-cases (block_median_time ctx.median n hash)) [
  | inl missing ↦ ground arith
  | inr (m, found) ↦ ground (arith, found)
]

median_time-known :
    (ctx : SinceContext) (n : ℕ) (hash : H256) (t : ℕ)
    → ctx.median.get_block_hash n ≡ some hash
    → block_median_time ctx.median n hash ≡ some t
    → median_time ctx n ≡ ok t
unfolding median_time
median_time-known ctx n hash t known h = ground arith

module _ (early late : SinceContext) (later : Later early late) where
  timestamps_mono :
      (span : ℕ) (hash : H256) {ts : List ℕ}
      → timestamps early.median span hash ≡ some ts
      → timestamps late.median span hash ≡ some ts
  unfolding timestamps
  timestamps_mono zero hash h = h
  timestamps_mono (suc span) hash h = elim (Option-cases (early.median.timestamp_and_parent hash)) [
    | inl missing ↦ ground arith
    | inr ((t, parent), found) ↦
        let kept = later.same_header hash (t, parent) found in
        elim (Option-cases (timestamps early.median span parent)) [
          | inl missing ↦ ground arith
          | inr (rest, more) ↦ ground (arith, kept, timestamps_mono span parent more)
        ]
  ]

  block_median_time_mono :
      (n : ℕ) (hash : H256) {t : ℕ}
      → block_median_time early.median n hash ≡ some t
      → block_median_time late.median n hash ≡ some t
  unfolding block_median_time
  block_median_time_mono n hash h =
      let span = min (n + 1) early.median.median_block_count in
      elim (Option-cases (timestamps early.median span hash)) [
        | inl missing ↦ ground arith
        | inr (ts, found) ↦
            rw (← later.same_count) (ground (arith, timestamps_mono span hash found))
      ]

  -- At a height that the earlier point knows, both read the same median time.
  pub median_time_mono :
      (n : ℕ) (hash : H256) (t : ℕ)
      → early.median.get_block_hash n ≡ some hash
      → median_time early n ≡ ok t
      → median_time late n ≡ ok t
  median_time_mono n hash t known h =
      median_time-known late n hash t (later.same_hash n hash known)
        (block_median_time_mono n hash (median_time-eq_ok early n hash t known h))

  -- The median times of the blocks from the earlier point on are there, and not below the one there.
  median_time_climbs :
      (d t : ℕ)
      → early.block_number - 1 + d < late.block_number
      → median_time early (early.block_number - 1) ≡ ok t
      → (t' : ℕ) × (median_time late (early.block_number - 1 + d) ≡ ok t') × (t ≤ t')
  median_time_climbs zero t lt read =
      let (hash, known) = later.known_tip in
      let here : early.block_number - 1 + 0 ≡ early.block_number - 1 = omega arith in
      (t, rw here (median_time_mono (early.block_number - 1) hash t known read), omega arith)
  median_time_climbs (suc d) t lt read =
      let k : ℕ = early.block_number - 1 + d in
      let (t₁, read₁, le₁) = median_time_climbs d t (omega arith) read in
      let below : k + 1 - 1 ≡ k = omega arith in
      let here : early.block_number - 1 + suc d ≡ k + 1 = omega arith in
      let (hash, parent, time, at, under, header, rule) =
        later.grown (k + 1) (omega (arith, later.above_genesis)) (omega arith) in
      let parent_known : late.median.get_block_hash k ≡ some parent =
        subst (λ j. late.median.get_block_hash j ≡ some parent) below under in
      let parent_read = median_time-eq_ok late k parent t₁ parent_known read₁ in
      let above : t₁ < time =
        rule t₁
          (subst (λ j. block_median_time late.median j parent ≡ some t₁) (sym below) parent_read) in
      let (t₂, read₂, le₂) =
        block_median_time-grows late.median k hash parent time t₁ (omega (arith, later.small))
          later.some_count header parent_read above in
      (t₂, rw here (median_time-known late (k + 1) hash t₂ at read₂), omega arith)

  -- What the later point reads at its tip is not below what the earlier point reads there.
  pub tip_mono :
      (t : ℕ)
      → median_time early (early.block_number - 1) ≡ ok t
      → (t' : ℕ) × (median_time late (late.block_number - 1) ≡ ok t') × (t ≤ t')
  tip_mono t read =
      let d : ℕ = late.block_number - early.block_number in
      let there : early.block_number - 1 + d ≡ late.block_number - 1 =
        omega (arith, later.number, later.above_genesis) in
      rw there at (median_time_climbs d t (omega (arith, later.number, later.above_genesis)) read)
