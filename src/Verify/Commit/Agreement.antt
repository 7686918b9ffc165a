-- ===== src/Verify/Commit/Agreement.antt =====
-- The proposal table of shared/src/tx_proposal_table.rs and the commit verifier of
-- verification/src/contextual_block_verifier.rs against each other.
use ckb_miner_opt.Base.{
  ℕ, ◌+◌, ◌≤◌, ◌<◌, ◌≡◌, refl, ◌↔◌, inl, inr, true, some, List, [], ◌∷◌, arith, subst, sym,
}
use ckb_miner_opt.Base.Maps.{contains, In, nat_key}
use ckb_miner_opt.Base.Outcome.{ok, u64_modulus}
use ckb_miner_opt.Core.Transaction.{ProposalShortId}
use ckb_miner_opt.Core.Block.{Block}
use ckb_miner_opt.Proposal.{Ids, TxProposalTable, finalize}
use ckb_miner_opt.Proposal.Window.{ProposedAt, Committable, finalize-Committable}
use ckb_miner_opt.Verify.Commit.{Provider, committed_ids, verify}
use ckb_miner_opt.Verify.Commit.Walk.{Ancestry, proposes}
use ckb_miner_opt.Verify.Commit.Window.{verify-AllProposed}

-- At one height.
abbrev pub At : ℕ → List (ℕ × Ids) → ProposalShortId → Type 0
At k t id = ProposedAt (λ j. j ≡ k) t id

ProposedAt-At :
    (P : ℕ → Type 0) (t : List (ℕ × Ids)) (id : ProposalShortId)
    → ProposedAt P t id ↔ ((k : ℕ) × P k × At k t id)
ProposedAt-At P [] id = (λ h. absurd h, λ (k, held, h). absurd h)
ProposedAt-At P ((j, ids) ∷ t) id =
    let (forth, back) = ProposedAt-At P t id in
    (
      λ h. elim h [
        | inl (held, member) ↦ (j, held, inl (refl, member))
        | inr later ↦ let (k, held, found) = forth later in (k, held, inr found)
      ],
      λ (k, held, h). elim h [
        | inl (same, member) ↦ inl (subst P (sym same) held, member)
        | inr later ↦ inr (back (k, held, later))
      ],
    )

-- The table has for each height of the chain what its block and its uncles proposed.
abbrev pub Records :
    (p : Provider) (t : TxProposalTable) (b : Block)
    → Ancestry p b.header.parent_hash b.header.number
    → Type 0
Records p t b chain =
    (k : ℕ) (id : ProposalShortId)
    → 1 ≤ k
    → k < b.header.number
    → At k t.table id ↔ (proposes p (chain.header_at k).hash id ≡ true)

-- If the table records the chain up to the tip `n`, and the chain is at least `closest` blocks long
-- (`closest` at least one, the numbers within 64 bits), then the commit verifier accepts a block on
-- the tip exactly when all that it commits is in the set that `finalize` computed at the tip.
pub verify-finalize :
    (p : Provider) (t : TxProposalTable) (n : ℕ) (b : Block)
    (chain : Ancestry p b.header.parent_hash b.header.number)
    → b.header.number ≡ n + 1
    → n + 1 < u64_modulus
    → 1 ≤ t.proposal_window.closest
    → t.proposal_window.closest ≤ n
    → Records p t b chain
    → (t' : TxProposalTable) × (removed : Ids) × (finalize n t ≡ some (t', removed))
      × ((verify p t.proposal_window b ≡ ok tt)
          ↔ ((id : ProposalShortId) → In id (committed_ids b) → contains t'.set id ≡ true))
verify-finalize p t n b chain next small close long records =
    let (t', removed, ran, allowed) = finalize-Committable n t small long in
    let (accepted, accepts) = verify-AllProposed p t.proposal_window b chain close (omega arith) in
    let window = Committable b.header.number t.proposal_window in
    (
      t',
      removed,
      ran,
      (
        λ h id member.
            let (k, zone, found) = accepted h id member in
            (allowed id).1 (
              subst (λ m. ProposedAt (Committable m t.proposal_window) t.table id) next
                ((ProposedAt-At window t.table id).1
                  (k, zone, (records k id zone.0 (omega (arith, zone.1))).1 found))),
        λ h. accepts (λ id member.
            let there =
              subst (λ m. ProposedAt (Committable m t.proposal_window) t.table id) (sym next)
                ((allowed id).0 (h id member)) in
            let (k, zone, found) = (ProposedAt-At window t.table id).0 there in
            (k, zone, (records k id zone.0 (omega (arith, zone.1))).0 found)),
      ),
    )
