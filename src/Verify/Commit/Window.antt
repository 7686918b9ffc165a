-- ===== src/Verify/Commit/Window.antt =====
-- The commit verifier of verification/src/contextual_block_verifier.rs against the proposal window.
use ckb_miner_opt.Base.{
  ℕ, ◌+◌, ◌-◌, ◌≤◌, ◌<◌, ◌≡◌, refl, ◌↔◌, inl, inr, true, [], ◌∷◌, arith, if◌then◌else◌, subst,
}
use ckb_miner_opt.Base.Maps.{contains, In, nat_key}
use ckb_miner_opt.Base.Outcome.{ok, err}
use ckb_miner_opt.Core.Transaction.{ProposalShortId}
use ckb_miner_opt.Core.Block.{Block}
use ckb_miner_opt.Proposal.{ProposalWindow, Ids, difference}
use ckb_miner_opt.Proposal.Window.{Committable}
use ckb_miner_opt.Verify.Commit.{invalid, Provider, committed_ids, is_empty_ids, verify}
use ckb_miner_opt.Verify.Commit.Walk.{Ancestry, proposes, walk-Collects}

not_in_nothing : (id : ProposalShortId) → contains [] id ≡ true → ⊥
unfolding contains
not_in_nothing id h = cc

-- Each of the ids is in the set.
difference-nothing :
    (ids set : Ids)
    → (is_empty_ids (difference ids set) ≡ true)
      ↔ ((id : ProposalShortId) → In id ids → contains set id ≡ true)
unfolding difference
difference-nothing [] set = (λ _ id h. absurd h, λ _. refl)
difference-nothing (j ∷ ids) set =
    let (forth, back) = difference-nothing ids set in
    (
      λ h id m. elim m [
        | inl e ↦ subst (λ i. contains set i ≡ true) e (ground arith)
        | inr later ↦ forth (ground arith) id later
      ],
      λ f. let first = f j (inl refl) in let rest = back (λ id m. f id (inr m)) in ground arith,
    )

-- What the verifier asks: each id was proposed by a block, or an uncle in a block, on the chain of
-- this block and within the window.
abbrev pub AllProposed :
    (p : Provider) (w : ProposalWindow) (b : Block)
    → Ancestry p b.header.parent_hash b.header.number
    → Type 0
AllProposed p w b chain =
    (id : ProposalShortId)
    → In id (committed_ids b)
    → (k : ℕ) × Committable b.header.number w k × (proposes p (chain.header_at k).hash id ≡ true)

-- On a chain whose blocks the provider knows, and with a closest distance of at least one, the
-- commit verifier accepts a block (other than genesis) exactly when each transaction after the
-- first was proposed on that chain at a distance between `closest` and `farthest`, by a block or
-- by an uncle in one; the genesis block does not count.
pub verify-AllProposed :
    (p : Provider) (w : ProposalWindow) (b : Block)
    (chain : Ancestry p b.header.parent_hash b.header.number)
    → 1 ≤ w.closest
    → 0 < b.header.number
    → (verify p w b ≡ ok tt) ↔ AllProposed p w b chain
unfolding verify
verify-AllProposed p w b chain close later =
    let start = b.header.number - w.farthest in
    let end = b.header.number - w.closest in
    let (ids, walked, all) =
      walk-Collects chain (end + 1 - start) start end [] refl (omega arith) in
    let found = chain.ancestor end (omega arith) in
    let reached : verify p w b
        ≡ (if is_empty_ids (difference (committed_ids b) ids) then ok tt else err invalid) =
      ground arith in
    let (forth, back) = difference-nothing (committed_ids b) ids in
    (
      λ h id m. elim ((all id).0 (forth (ground arith) id m)) [
        | inl old ↦ absurd (not_in_nothing id old)
        | inr (k, (pos, low, high, found)) ↦ (k, (pos, omega arith, omega arith), found)
      ],
      λ f.
          let nothing = back (λ id m.
            let (k, (pos, near, far), found) = f id m in
            (all id).1 (inr (k, (pos, omega arith, omega arith, found)))) in
          ground arith,
    )
