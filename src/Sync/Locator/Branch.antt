-- ===== src/Sync/Locator/Branch.antt =====
-- A chain that forks off the main chain, and where the search of `locate_latest_common_block`
-- (sync/src/types.rs) along it ends.
use ckb_miner_opt.Base.{
  ℕ, zero, suc, ◌+◌, ◌-◌, ◌≤◌, ◌<◌, ◌≡◌, refl, ap, ◌∙◌, Bool, false, ◌&&◌, ◌||◌, none, some, List,
  [], ◌∷◌, map, arith, ltb, leb, get_elem?, Bool-cases, inl, inr, ℕ_discrete,
}
use ckb_miner_opt.Core.Transaction.{H256}
use ckb_miner_opt.Core.Block.{Header}
use ckb_miner_opt.Sync.Locator.{MainIndex, last, find_from, refine, refine_before}
use ckb_miner_opt.Sync.Locator.Falling.{Falling, bottom, below}

-- A height of the list is above the genesis block and not above the fork.
abbrev pub meets : ℕ → List ℕ → Bool
meets fork [] = false
meets fork (k ∷ ks) = (ltb 0 k && leb k fork) || meets fork ks

-- A chain whose headers the store has up to a height, and whose blocks are on the main chain exactly
-- up to the height where the chain forks off.
pub record Branch (s : MainIndex) (top fork : ℕ) : Type 0 where
  pub header_at : ℕ → Header
  pub numbered : (k : ℕ) → k ≤ top → (header_at k).number ≡ k
  pub linked : (k : ℕ) → k < top → (header_at (suc k)).parent_hash ≡ (header_at k).hash
  pub stored : (k : ℕ) → k ≤ top → s.get_block_header (header_at k).hash ≡ some (header_at k)
  pub on_main : (k : ℕ) → k ≤ fork → s.get_block_number (header_at k).hash ≡ some k
  pub off_main : (k : ℕ) → fork < k → k ≤ top → s.get_block_number (header_at k).hash ≡ none
  pub genesis : s.genesis_hash ≡ (header_at 0).hash

module _ (s : MainIndex) (top fork : ℕ) (branch : Branch s top fork) where
  abbrev pub hash_at : ℕ → H256
  hash_at k = (branch.header_at k).hash

  refine_here : (turns lc k : ℕ) → k ≤ fork → k ≤ top → refine s (suc turns) lc (hash_at k) ≡ some k
  unfolding refine
  refine_here turns lc k on known = rw (refine, branch.stored k known, branch.on_main k on)

  refine_down :
      (turns lc k : ℕ)
      → fork < suc k
      → suc k ≤ top
      → refine s (suc turns) lc (hash_at (suc k)) ≡ refine s turns lc (hash_at k)
  unfolding refine
  refine_down turns lc k off known = rw (
    refine,
    branch.stored (suc k) known,
    branch.off_main (suc k) off known,
    branch.linked k known,
  )

  refine-fork :
      (turns lc k : ℕ)
      → fork ≤ k
      → k ≤ top
      → k - fork < turns
      → refine s turns lc (hash_at k) ≡ some fork
  refine-fork zero lc k low high enough = absurd (omega arith)
  refine-fork (suc turns) lc zero low high enough =
      refine_here turns lc 0 (omega arith) high ∙ ap some (omega arith)
  refine-fork (suc turns) lc (suc k) low high enough = elim (ℕ_discrete (suc k) fork) [
    | yes here ↦ refine_here turns lc (suc k) (omega arith) high ∙ ap some here
    | no other ↦
        refine_down turns lc k (omega (arith, other)) high
        ∙ refine-fork turns lc k (omega (arith, other)) (omega arith) (omega (arith, other))
  ]

  pub last-Falling :
      {high : ℕ} {heights : List ℕ}
      → Falling high heights
      → last (map hash_at heights) ≡ some (hash_at 0)
  last-Falling bottom = refl
  last-Falling (below lt bottom) = refl
  last-Falling (below lt (below lt' falling)) = last-Falling (below lt' falling)

  -- Behind an entry off the main chain: the first entry on it, with the entry before.
  pub find_from-Falling :
      (index high : ℕ) (low : ℕ) (rest : List ℕ)
      → fork < high
      → high ≤ top
      → low < high
      → Falling low rest
      → (p number before : ℕ) × (find_from s index (map hash_at rest) ≡ some (index + p, number))
        × (number ≤ fork)
        × (meets fork rest ≡ ltb 0 number)
        × (fork < before)
        × (before ≤ top)
        × (get_elem? (hash_at high ∷ map hash_at rest) p ≡ some (hash_at before))
  unfolding find_from
  find_from-Falling index high zero rest off high_le lt bottom = (
    0,
    0,
    high,
    rw (branch.on_main 0 (omega arith)) (ap (λ n. some (n, 0)) (omega arith)),
    omega arith,
    refl,
    off,
    high_le,
    refl,
  )
  find_from-Falling index high low rest off high_le lt (below {rest = rest'} lt' falling) =
      elim (Bool-cases (leb low fork)) [
        | inl on ↦ (
          0,
          low,
          high,
          rw (branch.on_main low (ground arith)) (ap (λ n. some (n, low)) (omega arith)),
          ground arith,
          ground arith,
          off,
          high_le,
          refl,
        )
        | inr not_on ↦
            let gone : fork < low = ground arith in
            let (p, number, before, found, small, met, apart, known, entry) =
              find_from-Falling (index + 1) low _ rest' gone (omega arith) lt' falling in
            (
              suc p,
              number,
              before,
              rw (branch.off_main low gone (omega arith))
                  (found ∙ ap (λ n. some (n, number)) (omega arith)),
              small,
              ground (arith, met),
              apart,
              known,
              entry,
            )
      ]

  pub refine_before-fork :
      (locator : List H256) (p number before : ℕ)
      → fork < before
      → before ≤ top
      → get_elem? locator p ≡ some (hash_at before)
      → refine_before s locator (1 + p) number ≡ some fork
  unfolding refine_before
  refine_before-fork locator p number zero off known entry = absurd (omega arith)
  refine_before-fork locator p number (suc before) off known entry =
      let back : 1 + p - 1 ≡ p = omega arith in
      rw
        (
          refine_before,
          back,
          entry,
          branch.stored (suc before) known,
          branch.linked before known,
          branch.numbered (suc before) known,
        )
        (refine-fork (suc before) number before (omega arith) (omega arith) (omega arith))
