-- ===== src/Verify/MedianTime.antt =====
-- traits/src/block_median_time_context.rs: the median of the timestamps of the last blocks.
pub mod Grows
use ckb_miner_opt.Base.{
  ℕ, zero, suc, ◌+◌, ◌*◌, ◌/◌, ◌≤◌, ◌<◌, ◌≡◌, refl, inl, inr, Option, none, some, List, [], ◌∷◌,
  arith, min, leb, if◌then◌else◌, length, get_elem?, All, ltb, Option-cases,
}
use ckb_miner_opt.Base.Outcome.{u64_modulus}
use ckb_miner_opt.Core.Transaction.{H256}

-- The trait `BlockMedianTimeContext`; the implementations read headers that must exist, and `none`
-- is their `expect`.
pub record MedianTimeContext : Type 0 where
  pub median_block_count : ℕ
  pub timestamp_and_parent : H256 → Option (ℕ × H256)
  pub get_block_hash : ℕ → Option H256

-- The standard library's `sort`.
insert_sorted : ℕ → List ℕ → List ℕ
insert_sorted a [] = a ∷ []
insert_sorted a (b ∷ bs) = if leb a b then a ∷ b ∷ bs else b ∷ insert_sorted a bs

unfoldable pub sort : List ℕ → List ℕ
unfolding insert_sorted
sort [] = []
sort (a ∷ rest) = insert_sorted a (sort rest)

module _ (ctx : MedianTimeContext) where
  -- The timestamps of `span` blocks, from `hash` back.
  unfoldable pub timestamps : ℕ → H256 → Option (List ℕ)
  timestamps zero hash = some []
  timestamps (suc span) hash = elim (ctx.timestamp_and_parent hash) [
    | none ↦ none
    | some (timestamp, parent) ↦ elim (timestamps span parent) [
      | none ↦ none
      | some ts ↦ some (timestamp ∷ ts)
    ]
  ]

  -- The index is out of range if there is no timestamp.
  unfoldable pub block_median_time : ℕ → H256 → Option ℕ
  unfolding timestamps sort
  block_median_time block_number hash =
      if ltb (block_number + 1) u64_modulus
      then elim (timestamps (min (block_number + 1) ctx.median_block_count) hash) [
        | none ↦ none
        | some ts ↦ get_elem? (sort ts) (length ts / 2)
      ]
      else none

-- How many timestamps are at most `m`, and at least `m`.
abbrev pub count_le : ℕ → List ℕ → ℕ
count_le m [] = 0
count_le m (t ∷ ts) = (if leb t m then 1 else 0) + count_le m ts

abbrev pub count_ge : ℕ → List ℕ → ℕ
count_ge m [] = 0
count_ge m (t ∷ ts) = (if leb m t then 1 else 0) + count_ge m ts

abbrev pub Sorted : List ℕ → Type 0
Sorted [] = Unit
Sorted (t ∷ ts) = All (λ u. t ≤ u) ts × Sorted ts

count_le-insert : (m a : ℕ) (ts : List ℕ) → count_le m (insert_sorted a ts) ≡ count_le m (a ∷ ts)
unfolding insert_sorted
count_le-insert m a [] = refl
count_le-insert m a (t ∷ ts) = ground (arith, count_le-insert m a ts)

count_ge-insert : (m a : ℕ) (ts : List ℕ) → count_ge m (insert_sorted a ts) ≡ count_ge m (a ∷ ts)
unfolding insert_sorted
count_ge-insert m a [] = refl
count_ge-insert m a (t ∷ ts) = ground (arith, count_ge-insert m a ts)

count_le-sort : (m : ℕ) (ts : List ℕ) → count_le m (sort ts) ≡ count_le m ts
unfolding sort
count_le-sort m [] = refl
count_le-sort m (t ∷ ts) = omega (arith, count_le-insert m t (sort ts), count_le-sort m ts)

count_ge-sort : (m : ℕ) (ts : List ℕ) → count_ge m (sort ts) ≡ count_ge m ts
unfolding sort
count_ge-sort m [] = refl
count_ge-sort m (t ∷ ts) = omega (arith, count_ge-insert m t (sort ts), count_ge-sort m ts)

All-le_trans : (a b : ℕ) (ts : List ℕ) → a ≤ b → All (λ u. b ≤ u) ts → All (λ u. a ≤ u) ts
All-le_trans a b [] h k = tt
All-le_trans a b (t ∷ ts) h k = (omega arith, All-le_trans a b ts h k.1)

All-insert :
    (b a : ℕ) (ts : List ℕ) → b ≤ a → All (λ u. b ≤ u) ts → All (λ u. b ≤ u) (insert_sorted a ts)
unfolding insert_sorted
All-insert b a [] h k = (h, tt)
All-insert b a (t ∷ ts) h k = ground (arith, All-insert b a ts h k.1)

insert-Sorted : (a : ℕ) (ts : List ℕ) → Sorted ts → Sorted (insert_sorted a ts)
unfolding insert_sorted
insert-Sorted a [] h = (tt, tt)
insert-Sorted a (t ∷ ts) h =
    ground (arith, All-le_trans a t ts, insert-Sorted a ts h.1, All-insert t a ts)

sort-Sorted : (ts : List ℕ) → Sorted (sort ts)
unfolding sort
sort-Sorted [] = tt
sort-Sorted (t ∷ ts) = insert-Sorted t (sort ts) (sort-Sorted ts)

count_ge-All : (m : ℕ) (ts : List ℕ) → All (λ u. m ≤ u) ts → count_ge m ts ≡ length ts
count_ge-All m [] h = refl
count_ge-All m (t ∷ ts) h = ground (arith, count_ge-All m ts h.1)

All-get_elem :
    (a : ℕ) (ts : List ℕ) (i : ℕ) {m : ℕ} → All (λ u. a ≤ u) ts → get_elem? ts i ≡ some m → a ≤ m
All-get_elem a [] i h e = cc
All-get_elem a (t ∷ ts) zero h e = ground arith
All-get_elem a (t ∷ ts) (suc i) h e = All-get_elem a ts i h.1 e

-- In a sorted list, what stands at index `i` has `i + 1` entries up to it and the rest from it on.
Sorted-counts :
    (ts : List ℕ) (i : ℕ) {m : ℕ}
    → Sorted ts
    → get_elem? ts i ≡ some m
    → (suc i ≤ count_le m ts) × (length ts ≤ i + count_ge m ts)
Sorted-counts [] i h e = cc
Sorted-counts (t ∷ ts) zero h e = ground (arith, count_ge-All t ts h.0)
Sorted-counts (t ∷ ts) (suc i) h e =
    ground (arith, Sorted-counts ts i h.1 e, All-get_elem t ts i h.0 e)

length-insert : (a : ℕ) (ts : List ℕ) → length (insert_sorted a ts) ≡ suc (length ts)
unfolding insert_sorted
length-insert a [] = refl
length-insert a (t ∷ ts) = ground (arith, length-insert a ts)

length-sort : (ts : List ℕ) → length (sort ts) ≡ length ts
unfolding sort
length-sort [] = refl
length-sort (t ∷ ts) = omega (arith, length-insert t (sort ts), length-sort ts)

get_elem?-below : (ts : List ℕ) (i : ℕ) → i < length ts → (m : ℕ) × (get_elem? ts i ≡ some m)
get_elem?-below [] i h = elim h [ ]
get_elem?-below (t ∷ ts) zero h = (t, refl)
get_elem?-below (t ∷ ts) (suc i) h = get_elem?-below ts i (omega arith)

module _ (ctx : MedianTimeContext) where
  length-timestamps :
      (span : ℕ) (hash : H256) {ts : List ℕ} → timestamps ctx span hash ≡ some ts → length ts ≡ span
  unfolding timestamps
  length-timestamps zero hash e = ground arith
  length-timestamps (suc span) hash e = elim (Option-cases (ctx.timestamp_and_parent hash)) [
    | inl missing ↦ ground arith
    | inr ((t, parent), found) ↦ elim (Option-cases (timestamps ctx span parent)) [
      | inl missing ↦ ground arith
      | inr (ts, more) ↦ ground (arith, length-timestamps span parent more)
    ]
  ]

  -- If the block's number plus one fits 64 bits, at least one block counts and the headers of
  -- the counted blocks (the last `median_block_count`, or all if there are fewer) are there,
  -- there is a median: more than half of their timestamps are at most the median, and at least
  -- half are at least the median.
  pub block_median_time-is_median :
      (n : ℕ) (hash : H256) (ts : List ℕ)
      → n + 1 < u64_modulus
      → 0 < ctx.median_block_count
      → timestamps ctx (min (n + 1) ctx.median_block_count) hash ≡ some ts
      → (m : ℕ) × (block_median_time ctx n hash ≡ some m)
        × (length ts < 2 * count_le m ts)
        × (length ts ≤ 2 * count_ge m ts)
  unfolding block_median_time
  block_median_time-is_median n hash ts small some_count e =
      let full = length-timestamps (min (n + 1) ctx.median_block_count) hash e in
      let (m, found) =
        get_elem?-below (sort ts) (length ts / 2) (omega (arith, length-sort ts, full)) in
      let (low, high) = Sorted-counts (sort ts) (length ts / 2) (sort-Sorted ts) found in
      (
        m,
        ground (arith, e, found),
        omega (arith, low, count_le-sort m ts),
        omega (arith, high, count_ge-sort m ts, length-sort ts),
      )
