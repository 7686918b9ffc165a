-- ===== src/Chain/Fork/Attaching.antt =====
-- How the loops of `find_fork` in chain/src/chain.rs attach the blocks of a branch.
use ckb_miner_opt.Base.{
  ℕ, zero, suc, ◌+◌, ◌-◌, ◌≤◌, ◌<◌, ◌≡◌, ◌≢◌, refl, ap, ◌∙◌, sym, ◌⊎◌, inl, inr, Bool, true, false,
  none, some, List, [], ◌∷◌, arith, ◌==◌, ℕ_discrete, Option-cases,
}
use ckb_miner_opt.Core.Transaction.{H256}
use ckb_miner_opt.Core.Block.{Block}
use ckb_miner_opt.Core.Extras.{BlockExt}
use ckb_miner_opt.Chain.Fork.{ForkChanges, GlobalIndex, BlockStore, note_ext, attach_block, attach}

-- `count` heights from one on, upwards and downwards.
abbrev pub up {ℓ} : {A : Type ℓ} → (ℕ → A) → ℕ → ℕ → List A
up f from zero = []
up f from (suc count) = f from ∷ up f (suc from) count

abbrev pub down {ℓ} : {A : Type ℓ} → (ℕ → A) → ℕ → ℕ → List A
down f from zero = []
down f from (suc count) = f (from + count) ∷ down f from count

abbrev pub block_hash : Block → H256
block_hash b = b.header.hash

-- A main chain up to its tip, and a branch that leaves it above the height `fork` and has a new tip.
pub record Branches (s : BlockStore) (main side : ℕ → Block) (ext : ℕ → BlockExt) (tip new fork : ℕ)
    : Type 0 where
  pub fork_below_new : fork < new
  pub fork_within : fork ≤ tip
  pub indexed : (k : ℕ) → k ≤ tip → s.get_block_hash k ≡ some (block_hash (main k))
  pub main_stored : (k : ℕ) → k ≤ tip → s.get_block (block_hash (main k)) ≡ some (main k)
  pub side_stored : (k : ℕ) → k < new → s.get_block (block_hash (side k)) ≡ some (side k)
  pub ext_stored : (k : ℕ) → k < new → s.get_block_ext (block_hash (side k)) ≡ some (ext k)
  pub linked : (k : ℕ) → k < new → (side (suc k)).header.parent_hash ≡ block_hash (side k)
  pub new_number : (side new).header.number ≡ new
  pub agree : block_hash (main fork) ≡ block_hash (side fork)
  pub apart : (k : ℕ) → fork < k → k ≤ tip → k < new → block_hash (main k) ≢ block_hash (side k)

module _ (s : BlockStore) (main side : ℕ → Block) (ext : ℕ → BlockExt) (tip new fork : ℕ)
    (b : Branches s main side ext tip new fork) where
  -- The exts that are noted when the blocks above `n` are attached: those above a height where either
  -- the search goes on, or an ext is verified already.
  pub record Dirty (n : ℕ) (unseen : Bool) (exts : List BlockExt) : Type 0 where
    pub from : ℕ
    pub count : ℕ
    pub total : count + from ≡ new
    pub above : n ≤ from
    pub noted : exts ≡ up ext (suc from) count
    pub unverified : (k : ℕ) → from < k → k < new → (ext k).verified ≡ none
    pub stops :
        ((unseen ≡ true) × (from ≡ n))
        ⊎ ((unseen ≡ false) × (n < from) × (from < new) × ((ext from).verified ≢ none))

  abbrev pub index_at : ℕ → Bool → GlobalIndex
  index_at n unseen = record { number = n; hash = block_hash (side n); unseen = unseen }

  abbrev pub changes_at : ℕ → ℕ → List Block → List BlockExt → ForkChanges
  changes_at n count detached exts = record {
    attached_blocks = up side (suc n) count;
    detached_blocks = detached;
    detached_proposal_id = [];
    dirty_exts = exts;
  }

  Dirty-noted :
      (n : ℕ) (exts : List BlockExt)
      → suc n < new
      → (ext (suc n)).verified ≡ none
      → (d : Dirty (suc n) true exts) → d.from ≡ suc n
      → Dirty n true (ext (suc n) ∷ exts)
  Dirty-noted n exts lt fresh d here = record {
    from = n;
    count = suc d.count;
    total = omega (arith, d.total, here);
    above = omega arith;
    noted = ap (λ rest. ext (suc n) ∷ rest) (d.noted ∙ ap (λ k. up ext (suc k) d.count) here);
    unverified = λ k low high. elim (ℕ_discrete k (suc n)) [
      | yes same ↦ ap (λ j. (ext j).verified) same ∙ fresh
      | no other ↦ d.unverified k (omega (arith, other, here)) high
    ];
    stops = inl (refl, refl);
  }

  Dirty-seen :
      (n : ℕ) (exts : List BlockExt)
      → suc n < new
      → (ext (suc n)).verified ≢ none
      → (d : Dirty (suc n) true exts) → d.from ≡ suc n
      → Dirty n false exts
  Dirty-seen n exts lt seen d here = record {
    from = d.from;
    count = d.count;
    total = d.total;
    above = omega (arith, here);
    noted = d.noted;
    unverified = d.unverified;
    stops = inr (
      refl,
      omega (arith, here),
      omega (arith, here),
      λ e. seen (ap (λ j. (ext j).verified) (sym here) ∙ e),
    );
  }

  Dirty-kept :
      (n : ℕ) (exts : List BlockExt) (d : Dirty (suc n) false exts)
      → suc n < d.from
      → d.from < new
      → (ext d.from).verified ≢ none
      → Dirty n false exts
  Dirty-kept n exts d low high seen = record {
    from = d.from;
    count = d.count;
    total = d.total;
    above = omega arith;
    noted = d.noted;
    unverified = d.unverified;
    stops = inr (refl, omega arith, high, seen);
  }

  note_ext-Dirty :
      (n count : ℕ) (detached : List Block) (unseen : Bool) (exts : List BlockExt)
      → suc n < new
      → Dirty (suc n) unseen exts
      → (unseen' : Bool) × (exts' : List BlockExt) × (note_ext s
            (index_at (suc n) unseen)
            (changes_at (suc n) count detached exts)
          ≡ some (index_at (suc n) unseen', changes_at (suc n) count detached exts'))
        × Dirty n unseen' exts'
  unfolding note_ext
  note_ext-Dirty n count detached false exts lt d = elim d.stops [
    | inl (free, _) ↦ absurd (cc)
    | inr (_, low, high, seen) ↦ (false, exts, refl, Dirty-kept n exts d low high seen)
  ]
  note_ext-Dirty n count detached true exts lt d = elim d.stops [
    | inr (closed, _, _, _) ↦ absurd (cc)
    | inl (_, here) ↦ elim (Option-cases (ext (suc n)).verified) [
      | inl fresh ↦ (
        true,
        ext (suc n) ∷ exts,
        simp (note_ext, b.ext_stored (suc n) lt, fresh),
        Dirty-noted n exts lt fresh d here,
      )
      | inr (value, seen) ↦ (
        false,
        exts,
        simp (note_ext, b.ext_stored (suc n) lt, seen),
        Dirty-seen n exts lt (λ e. cc) d here,
      )
    ]
  ]

  attach_block-index_at :
      (n count : ℕ) (detached : List Block) (unseen : Bool) (exts : List BlockExt)
      → suc n < new
      → attach_block s (index_at (suc n) unseen) (changes_at (suc n) count detached exts)
        ≡ some (index_at n unseen, changes_at n (suc count) detached exts)
  unfolding attach_block
  attach_block-index_at n count detached unseen exts lt =
      let positive : (suc n == 0) ≡ false = ground arith in
      let back : suc n - 1 ≡ n = omega arith in
      simp (attach_block, b.side_stored (suc n) lt, positive, b.linked n (omega arith), back)

  -- One turn of either loop on the new branch.
  pub attach-Dirty :
      (n count : ℕ) (detached : List Block) (unseen : Bool) (exts : List BlockExt)
      → suc n < new
      → Dirty (suc n) unseen exts
      → (unseen' : Bool) × (exts' : List BlockExt) × (attach s
            (index_at (suc n) unseen)
            (changes_at (suc n) count detached exts)
          ≡ some (index_at n unseen', changes_at n (suc count) detached exts'))
        × Dirty n unseen' exts'
  unfolding attach
  attach-Dirty n count detached unseen exts lt d =
      let (unseen', exts', noted, d') = note_ext-Dirty n count detached unseen exts lt d in
      (
        unseen',
        exts',
        rw (attach, noted) (attach_block-index_at n count detached unseen' exts' lt),
        d',
      )
