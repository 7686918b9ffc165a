-- ===== src/Chain/Provider/Ancestor.antt =====
-- `get_ancestor` of shared/src/shared.rs finds the ancestor, on the main chain and off it.
use ckb_miner_opt.Base.{
  ℕ, zero, suc, ◌+◌, ◌-◌, ◌≤◌, ◌<◌, ◌≡◌, ap, ◌∙◌, subst, true, false, none, some, arith, leb, ltb,
  if◌then◌else◌, Bool-cases, inl, inr,
}
use ckb_miner_opt.Core.Block.{Header}
use ckb_miner_opt.Chain.Store.{ChainStore}
use ckb_miner_opt.Chain.Provider.{walk, ancestor_on_main, ancestor_on_fork, get_ancestor}

-- A chain whose headers the store has up to a height, and whose blocks are the main chain's exactly up to
-- a height.
pub record Lineage (s : ChainStore) (top fork : ℕ) : Type 0 where
  pub header_at : ℕ → Header
  pub numbered : (k : ℕ) → k ≤ top → (header_at k).number ≡ k
  pub linked : (k : ℕ) → k < top → (header_at (suc k)).parent_hash ≡ (header_at k).hash
  pub stored : (k : ℕ) → k ≤ top → s.get_block_header (header_at k).hash ≡ some (header_at k)
  pub on_main : (k : ℕ) → k ≤ fork → s.get_block_number (header_at k).hash ≡ some k
  pub indexed : (k : ℕ) → k ≤ fork → s.get_block_hash k ≡ some (header_at k).hash
  pub off_main : (k : ℕ) → fork < k → k ≤ top → s.get_block_number (header_at k).hash ≡ none

module _ (s : ChainStore) (top fork : ℕ) (l : Lineage s top fork) where
  abbrev at : ℕ → Header
  at = l.header_at

  walk-at : (turns n : ℕ) → turns + n ≤ top → walk s turns (at (turns + n)) ≡ some (at n)
  unfolding walk
  walk-at zero n le = ap (λ k. some (at k)) (omega arith)
  walk-at (suc turns) n le =
      let up : suc turns + n ≡ suc (turns + n) = omega arith in
      let parent : (at (suc turns + n)).parent_hash ≡ (at (turns + n)).hash =
        ap (λ k. (at k).parent_hash) up ∙ l.linked (turns + n) (omega arith) in
      simp (walk, parent, l.stored (turns + n) (omega arith)) (walk-at turns n (omega arith))

  on_main-at :
      (k n : ℕ)
      → k ≤ fork
      → k ≤ top
      → ancestor_on_main s k n ≡ (if leb n k then some (at n) else none)
  unfolding ancestor_on_main
  on_main-at k n main known = elim (Bool-cases (leb n k)) [
    | inl low ↦
        let within : ltb k n ≡ false = ground arith in
        let le : n ≤ k = ground arith in
        simp (ancestor_on_main, within, low, l.indexed n (omega arith), l.stored n (omega arith))
    | inr high ↦ let above : ltb k n ≡ true = ground arith in simp (ancestor_on_main, above, high)
  ]

  on_fork-at :
      (k n : ℕ)
      → k ≤ top
      → ancestor_on_fork s (at k).hash n ≡ (if leb n k then some (at n) else none)
  unfolding ancestor_on_fork
  on_fork-at k n known = elim (Bool-cases (leb n k)) [
    | inl low ↦
        let within : ltb k n ≡ false = ground arith in
        let le : n ≤ k = ground arith in
        let split : k - n + n ≡ k = omega arith in
        simp (ancestor_on_fork, l.stored k known, l.numbered k known, within, low)
          (subst (λ j. walk s (k - n) (at j) ≡ some (at n)) split (walk-at (k - n) n (omega arith)))
    | inr high ↦
        let above : ltb k n ≡ true = ground arith in
        simp (ancestor_on_fork, l.stored k known, l.numbered k known, above, high)
  ]

  -- Whether a block is on the main chain or on a branch, its ancestor at a height is the header of its
  -- chain there, and there is none above it.
  pub get_ancestor-header_at :
      (k n : ℕ) → k ≤ top → get_ancestor s (at k).hash n ≡ (if leb n k then some (at n) else none)
  unfolding get_ancestor
  get_ancestor-header_at k n known = elim (Bool-cases (leb k fork)) [
    | inl main ↦
        let le : k ≤ fork = ground arith in
        simp (get_ancestor, l.on_main k le) (on_main-at k n le known)
    | inr off ↦
        let lt : fork < k = ground arith in
        simp (get_ancestor, l.off_main k lt known) (on_fork-at k n known)
  ]
