-- ===== src/Chain/Fork/Found.antt =====
-- What `find_fork` of chain/src/chain.rs returns: the blocks that leave and join.
use mathlib.Core.List.{append-nil}
use ckb_miner_opt.Base.{
  ℕ, suc, ◌+◌, ◌-◌, ◌≤◌, ◌<◌, ◌≡◌, refl, ap, ◌∙◌, sym, subst, inl, inr, Bool, true, false, Option,
  some, List, [], ◌∷◌, ◌++◌, arith, leb, ◌==◌, if◌then◌else◌, Bool-cases,
}
use ckb_miner_opt.Core.Block.{Block}
use ckb_miner_opt.Core.Extras.{BlockExt}
use ckb_miner_opt.Chain.Fork.{
  ForkChanges, no_changes, GlobalIndex, BlockStore, alignment_fork, find_fork_until_latest_common,
  find_fork,
}
use ckb_miner_opt.Chain.Fork.Ranges
use ckb_miner_opt.Chain.Fork.Attaching.{up, down, block_hash, Branches}

module _ (s : BlockStore) (main side : ℕ → Block) (ext : ℕ → BlockExt) (tip new fork : ℕ)
    (b : Branches s main side ext tip new fork) where
  abbrev at : ℕ → Bool → GlobalIndex
  at = Ranges.at s main side ext tip new fork b

  abbrev changed : ℕ → ℕ → List Block → List BlockExt → ForkChanges
  changed = Ranges.changed s main side ext tip new fork b

  abbrev Noted : ℕ → Bool → List BlockExt → Type 0
  Noted = Ranges.Noted s main side ext tip new fork b

  abbrev Reaches : ℕ → Option (GlobalIndex × ForkChanges) → List Block → Type 0
  Reaches = Ranges.Reaches s main side ext tip new fork b

  first : ForkChanges
  first = record {
    attached_blocks = side new ∷ [];
    detached_blocks = [];
    detached_proposal_id = [];
    dirty_exts = ext new ∷ [];
  }

  first-changed : (m : ℕ) → suc m ≡ new → first ≡ changed m 1 [] (ext new ∷ [])
  unfolding first
  first-changed m e =
      ap
        (λ k. record {
          attached_blocks = side k ∷ [];
          detached_blocks = [];
          detached_proposal_id = [];
          dirty_exts = ext new ∷ [];
        })
        (sym e)

  first-Noted : (m : ℕ) → suc m ≡ new → Noted m true (ext new ∷ [])
  first-Noted m e = record {
    from = m;
    count = 1;
    total = omega (arith, e);
    above = omega arith;
    noted = ap (λ k. ext k ∷ []) (sym e);
    unverified = λ k low high. absurd (omega (arith, e));
    stops = inl (refl, refl);
  }

  find_fork-aligned :
      (m : ℕ) (index : GlobalIndex) (changes : ForkChanges)
      → suc m ≡ new
      → alignment_fork s new tip (at m true) (changed m 1 [] (ext new ∷ [])) ≡ some (index, changes)
      → find_fork s tip (side new) (ext new) no_changes
        ≡ find_fork_until_latest_common s index.number index changes
  unfolding find_fork first
  find_fork-aligned m index changes e aligned =
      let positive : (new == 0) ≡ false = ground arith in
      let back : new - 1 ≡ m = omega (arith, e) in
      let parent : (side new).header.parent_hash ≡ block_hash (side m) =
        subst (λ k. (side k).header.parent_hash ≡ block_hash (side m)) e
          (b.linked m (omega (arith, e))) in
      let aligned' : alignment_fork s new tip (at m true) first ≡ some (index, changes) =
        ap (alignment_fork s new tip (at m true)) (first-changed m e) ∙ aligned in
      simp (find_fork, b.new_number, positive, back, parent, aligned')

  aligned_below :
      (m : ℕ)
      → new ≤ tip
      → alignment_fork s new tip (at m true) (changed m 1 [] (ext new ∷ []))
        ≡ some (at m true, changed m 1 (down main new (tip + 1 - new)) (ext new ∷ []))
  unfolding alignment_fork
  aligned_below m le =
      let below : leb new tip ≡ true = ground arith in
      simp (
        alignment_fork,
        below,
        Ranges.detach_range-down s main side ext tip new fork b (tip + 1 - new) new m 1 []
            (ext new ∷ []) (omega arith),
        append-nil,
      )

  aligned_above :
      (m : ℕ)
      → suc m ≡ new
      → tip < new
      → Reaches tip (alignment_fork s new tip (at m true) (changed m 1 [] (ext new ∷ []))) []
  unfolding alignment_fork
  aligned_above m e lt =
      let above : leb new tip ≡ false = ground arith in
      simp (above) (
        Ranges.attach_above-Reaches s main side ext tip new fork b (m - tip) m tip 1 [] true
          (ext new ∷ []) (omega (arith, e)) (omega (arith, e)) (omega (arith, e)) (first-Noted m e))

  -- The blocks of the main chain above the fork, in the order in which they are put down: those below the
  -- new tip's height upwards, then those from it on downwards.
  abbrev leaving : List Block
  leaving =
      if leb new tip
      then up main (suc fork) (new - 1 - fork) ++ down main new (tip + 1 - new)
      else up main (suc fork) (tip - fork)

  find_fork-Reaches :
      (m : ℕ) → suc m ≡ new → Reaches fork (find_fork s tip (side new) (ext new) no_changes) leaving
  find_fork-Reaches m e = elim (Bool-cases (leb new tip)) [
    | inl below ↦
        let le : new ≤ tip = ground arith in
        let height : new - 1 ≡ m = omega (arith, e) in
        let fork_below = b.fork_below_new in
        rw
          (
            find_fork-aligned m (at m true)
                (changed m 1 (down main new (tip + 1 - new)) (ext new ∷ [])) e (aligned_below m le),
            below,
            height,
          )
          (Ranges.until-Reaches s main side ext tip new fork b m 1 (down main new (tip + 1 - new))
            true (ext new ∷ []) (omega (arith, e)) (omega (arith, e)) (omega (arith, e))
            (omega (arith, e)) (first-Noted m e))
    | inr above ↦
        let lt : tip < new = ground arith in
        let (count, unseen, exts, aligned, total, noted) = aligned_above m e lt in
        rw (find_fork-aligned m (at tip unseen) (changed tip count [] exts) e aligned, above)
          (subst
            (λ blocks.
              Reaches fork
                (find_fork_until_latest_common s tip (at tip unseen) (changed tip count [] exts))
                blocks)
            (append-nil (up main (suc fork) (tip - fork)))
            (Ranges.until-Reaches s main side ext tip new fork b tip count [] unseen exts
              b.fork_within (omega arith) lt total noted))
  ]

  -- Where a main chain and a branch with a new tip part above a height, `find_fork` does not panic: it
  -- attaches the branch's blocks above that height, upwards, and detaches the main chain's (from the
  -- new tip's height on they come downwards, after the others). The exts that it marks for an update
  -- are those of the last attached blocks, none of them verified before but perhaps the new tip's, down to
  -- the fork or to a block that is verified already.
  pub find_fork-leaving :
      (unseen : Bool) × (changes : ForkChanges) × (find_fork s tip (side new) (ext new) no_changes
        ≡ some (at fork unseen, changes))
      × (changes.attached_blocks ≡ up side (suc fork) (new - fork))
      × (changes.detached_blocks ≡ leaving)
      × (changes.detached_proposal_id ≡ [])
      × Noted fork unseen changes.dirty_exts
  find_fork-leaving =
      let low = b.fork_below_new in
      let (count, unseen, exts, result, total, noted) = find_fork-Reaches (new - 1) (omega arith) in
      (
        unseen,
        changed fork count leaving exts,
        result,
        ap (up side (suc fork)) (omega arith),
        refl,
        refl,
        noted,
      )
