-- ===== src/Verify/Commit/Walk.antt =====
-- What the loop of the commit verifier in verification/src/contextual_block_verifier.rs collects.
use ckb_miner_opt.Base.{
  ℕ, zero, suc, ◌+◌, ◌-◌, ◌≤◌, ◌<◌, ◌≡◌, refl, ◌↔◌, ◌⊎◌, inl, inr, Bool, true, Option, none, some,
  List, [], ◌∷◌, arith, if◌then◌else◌, subst, ◌∙◌, ℕ_discrete, Bool-cases,
}
use ckb_miner_opt.Base.Maps.{contains, extend, contains-extend, nat_key}
use ckb_miner_opt.Base.Outcome.{ok}
use ckb_miner_opt.Core.Transaction.{H256, ProposalShortId}
use ckb_miner_opt.Core.Block.{Header, UncleBlock, extend_with_uncles}
use ckb_miner_opt.Proposal.{Ids}
use ckb_miner_opt.Verify.Commit.{Provider, add_block_ids, walk}

-- Up to this height the provider knows the ancestors of a block, each the parent of the next.
pub record Ancestry (p : Provider) (base : H256) (height : ℕ) : Type 0 where
  pub header_at : ℕ → Header
  pub ancestor : (k : ℕ) → k < height → p.get_ancestor base k ≡ some (header_at k)
  pub stored : (k : ℕ) → k < height → p.get_block_header (header_at k).hash ≡ some (header_at k)
  pub numbered : (k : ℕ) → k < height → (header_at k).number ≡ k
  pub linked : (k : ℕ) → suc k < height → (header_at (suc k)).parent_hash ≡ (header_at k).hash

-- The block of this hash, or an uncle in it, proposes the id.
abbrev pub proposes : Provider → H256 → ProposalShortId → Bool
proposes p hash id = contains (add_block_ids p hash []) id

extend_with_uncles-contains :
    (us : List UncleBlock) (s : Ids) (id : ProposalShortId)
    → contains (extend_with_uncles s us) id
      ≡ (if contains s id then true else contains (extend_with_uncles [] us) id)
unfolding extend_with_uncles contains
extend_with_uncles-contains [] s id = ground arith
extend_with_uncles-contains (u ∷ us) s id = ground (
  arith,
  extend_with_uncles-contains us (extend s u.proposals) id,
  extend_with_uncles-contains us (extend [] u.proposals) id,
  contains-extend u.proposals s id,
  contains-extend u.proposals [] id,
)

add_block_ids-contains :
    (p : Provider) (hash : H256) (s : Ids) (id : ProposalShortId)
    → contains (add_block_ids p hash s) id ≡ (if contains s id then true else proposes p hash id)
unfolding add_block_ids contains
add_block_ids-contains p hash s id =
    go (p.get_block_proposal_txs_ids hash) (p.get_block_uncles hash)
  where
    own : Option Ids → Ids → Ids
    own ids s = elim ids [ none ↦ s | some js ↦ extend s js ]

    all : Option (List UncleBlock) → Ids → Ids
    all uncles s = elim uncles [ none ↦ s | some us ↦ extend_with_uncles s us ]

    go :
        (ids : Option Ids) (uncles : Option (List UncleBlock))
        → contains (all uncles (own ids s)) id
          ≡ (if contains s id then true else contains (all uncles (own ids [])) id)
    go none none = ground arith
    go (some js) none = ground (arith, contains-extend js s id, contains-extend js [] id)
    go none (some us) = extend_with_uncles-contains us s id
    go (some js) (some us) = ground (
      arith,
      extend_with_uncles-contains us (extend s js) id,
      extend_with_uncles-contains us (extend [] js) id,
      contains-extend js s id,
      contains-extend js [] id,
    )

module _ {p : Provider} {base : H256} {height : ℕ} (chain : Ancestry p base height) where
  -- A block between the two heights proposes the id; the genesis block does not count.
  abbrev pub Between : ℕ → ℕ → ProposalShortId → ℕ → Type 0
  Between start end id k =
      (1 ≤ k) × (start ≤ k) × (k ≤ end) × (proposes p (chain.header_at k).hash id ≡ true)

  abbrev pub Collects : ℕ → ℕ → Ids → Ids → Type 0
  Collects start end s ids =
      (id : ProposalShortId)
      → (contains ids id ≡ true) ↔ ((contains s id ≡ true) ⊎ ((k : ℕ) × Between start end id k))

  walk_genesis :
      (turns : ℕ) (s : Ids) → 0 < height → walk p (suc turns) 0 (chain.header_at 0).hash s ≡ ok s
  unfolding walk
  walk_genesis turns s known =
      let stored = chain.stored 0 known in let numbered = chain.numbered 0 known in ground arith

  walk_down :
      (turns end : ℕ) (s : Ids)
      → suc end < height
      → walk p (suc turns) (suc end) (chain.header_at (suc end)).hash s
        ≡ walk p turns end
            (chain.header_at end).hash
            (add_block_ids p (chain.header_at (suc end)).hash s)
  unfolding walk
  walk_down turns end s known =
      let stored = chain.stored (suc end) known in
      let numbered = chain.numbered (suc end) known in
      let linked = chain.linked end known in
      let back : suc end - 1 ≡ end = omega arith in ground arith

  walk_done : (end : ℕ) (hash : H256) (s : Ids) → walk p 0 end hash s ≡ ok s
  unfolding walk
  walk_done end hash s = refl

  -- Between these heights there is no block but genesis.
  none-Collects : (start end : ℕ) (s : Ids) → (end < start) ⊎ (end ≡ 0) → Collects start end s s
  none-Collects start end s empty id = (
    inl,
    λ h. elim h [
      | inl member ↦ member
      | inr (k, (pos, low, high, _)) ↦
          absurd (elim empty [ inl lt ↦ omega arith | inr e ↦ omega arith ])
    ],
  )

  one_more-Collects :
      (start end : ℕ) (s ids : Ids)
      → start ≤ suc end
      → Collects start end (add_block_ids p (chain.header_at (suc end)).hash s) ids
      → Collects start (suc end) s ids
  one_more-Collects start end s ids low all id = (forth, back)
    where
      added :
          contains (add_block_ids p (chain.header_at (suc end)).hash s) id
          ≡ (if contains s id then true else proposes p (chain.header_at (suc end)).hash id)
      added = add_block_ids-contains p (chain.header_at (suc end)).hash s id

      forth :
          contains ids id ≡ true → (contains s id ≡ true) ⊎ ((k : ℕ) × Between start (suc end) id k)
      forth h = elim ((all id).0 h) [
        | inl member ↦ elim (Bool-cases (contains s id)) [
          | inl old ↦ inl old
          | inr fresh ↦ inr (suc end, (omega arith, low, omega arith, ground (arith, added)))
        ]
        | inr (k, (pos, above, below, found)) ↦ inr (k, (pos, above, omega arith, found))
      ]

      back :
          (contains s id ≡ true) ⊎ ((k : ℕ) × Between start (suc end) id k) → contains ids id ≡ true
      back (inl old) = (all id).1 (inl (ground (arith, added)))
      back (inr (k, (pos, above, below, found))) = elim (ℕ_discrete k (suc end)) [
        | yes top ↦
            let here = subst (λ j. proposes p (chain.header_at j).hash id ≡ true) top found in
            (all id).1 (inl (ground (arith, added)))
        | no other ↦ (all id).1 (inr (k, (pos, above, omega (arith, other), found)))
      ]

  pub walk-Collects :
      (turns start end : ℕ) (s : Ids)
      → turns ≡ end + 1 - start
      → end < height
      → (ids : Ids) × (walk p turns end (chain.header_at end).hash s ≡ ok ids)
        × Collects start end s ids
  walk-Collects zero start end s count known =
      (s, walk_done end (chain.header_at end).hash s, none-Collects start end s (inl (omega arith)))
  walk-Collects (suc turns) start zero s count known =
      (s, walk_genesis turns s known, none-Collects start 0 s (inr refl))
  walk-Collects (suc turns) start (suc end) s count known =
      let (ids, walked, all) =
        walk-Collects turns start end (add_block_ids p (chain.header_at (suc end)).hash s)
          (omega arith) (omega arith) in
      (
        ids,
        walk_down turns end s known ∙ walked,
        one_more-Collects start end s ids (omega arith) all,
      )
