-- ===== src/Proposal/Window.antt =====
-- What `finalize` of shared/src/tx_proposal_table.rs lets the next block commit.
use ckb_miner_opt.Base.{
  ℕ, ◌+◌, ◌≤◌, ◌<◌, ◌≡◌, refl, ◌↔◌, ap, ◌∙◌, ◌⊎◌, inl, inr, Bool, true, false, some, List, [], ◌∷◌,
  arith, ltb, leb, if◌then◌else◌, Any,
}
use ckb_miner_opt.Base.Maps.{
  contains, contains-In, In-contains, In, extend, contains-extend, nat_key,
}
use ckb_miner_opt.Base.Outcome.{u64_modulus}
use ckb_miner_opt.Core.Transaction.{ProposalShortId}
use ckb_miner_opt.Proposal.{
  ProposalWindow, Ids, TxProposalTable, range, collect_ids, difference, proposal_start,
  proposal_end, slide, finalize,
}

-- A block of the table proposes the id, at a height that passes the test.
abbrev pub ProposedAt : (ℕ → Type 0) → List (ℕ × Ids) → ProposalShortId → Type 0
ProposedAt P t id = Any (λ (k, ids). P k × In id ids) t

-- A block that may be committed at this height proposes the id; the genesis block does not count.
abbrev pub Committable : ℕ → ProposalWindow → ℕ → Type 0
Committable height w k = (1 ≤ k) × (k + w.closest ≤ height) × (height ≤ k + w.farthest)

-- Both tests at a key.
abbrev pub Both : (ℕ → Bool) → (ℕ → Bool) → ℕ → Type 0
Both p q k = (p k ≡ true) × (q k ≡ true)

collect_ids-ProposedAt :
    (p q : ℕ → Bool) (s : Ids) (t : List (ℕ × Ids)) (id : ProposalShortId)
    → contains (collect_ids s (range q (range p t))) id ≡ true
    → (contains s id ≡ true) ⊎ ProposedAt (Both p q) t id
unfolding range collect_ids
collect_ids-ProposedAt p q s [] id h = inl h
collect_ids-ProposedAt p q s ((k, ids) ∷ t) id h = ground (
  arith,
  collect_ids-ProposedAt p q s t id,
  collect_ids-ProposedAt p q (extend s ids) t id,
  contains-extend ids s id,
  contains-In ids id,
)

ProposedAt-collect_ids :
    (p q : ℕ → Bool) (s : Ids) (t : List (ℕ × Ids)) (id : ProposalShortId)
    → (contains s id ≡ true) ⊎ ProposedAt (Both p q) t id
    → contains (collect_ids s (range q (range p t))) id ≡ true
unfolding range collect_ids
ProposedAt-collect_ids p q s [] id h = ground arith
ProposedAt-collect_ids p q s ((k, ids) ∷ t) id h = ground (
  arith,
  ProposedAt-collect_ids p q s t id,
  ProposedAt-collect_ids p q (extend s ids) t id,
  contains-extend ids s id,
  In-contains ids id,
)

ProposedAt-map :
    {P Q : ℕ → Type 0} (t : List (ℕ × Ids)) (id : ProposalShortId)
    → ((k : ℕ) → P k → Q k)
    → ProposedAt P t id
    → ProposedAt Q t id
ProposedAt-map [] id f h = absurd h
ProposedAt-map ((k, ids) ∷ t) id f (inl (held, member)) = inl (f k held, member)
ProposedAt-map (_ ∷ t) id f (inr h) = inr (ProposedAt-map t id f h)

finalize-eq_slide :
    (n : ℕ) (t : TxProposalTable) → n + 1 < u64_modulus → finalize n t ≡ some (slide n t)
unfolding finalize
finalize-eq_slide n t h = ground arith

-- The set after sliding, by any description of its two tests.
slide-set :
    (n : ℕ) (t : TxProposalTable) (id : ProposalShortId) (P : ℕ → Type 0)
    → ((k : ℕ)
        → Both
            (λ k. leb (proposal_start t.proposal_window n) k)
            (λ k. leb k (proposal_end t.proposal_window n))
            k
          ↔ P k)
    → (contains (slide n t).0.set id ≡ true) ↔ ProposedAt P t.table id
unfolding slide contains
slide-set n t id P iff = (forth, back)
  where
    p : ℕ → Bool
    p k = leb (proposal_start t.proposal_window n) k

    q : ℕ → Bool
    q k = leb k (proposal_end t.proposal_window n)

    forth : contains (slide n t).0.set id ≡ true → ProposedAt P t.table id
    forth h = elim (collect_ids-ProposedAt p q [] t.table id h) [
      | inl e ↦ ground arith
      | inr h ↦ ProposedAt-map t.table id (λ k. (iff k).0) h
    ]

    back : ProposedAt P t.table id → contains (slide n t).0.set id ≡ true
    back h =
        ProposedAt-collect_ids p q [] t.table id
          (inr (ProposedAt-map t.table id (λ k. (iff k).1) h))

-- If the tip's number plus one fits 64 bits and is above `closest`, `finalize` at the tip does
-- not panic, and lets the next block commit exactly the ids that a block of the table (other
-- than genesis) proposed at a distance between `closest` and `farthest` from the next block.
pub finalize-Committable :
    (n : ℕ) (t : TxProposalTable)
    → n + 1 < u64_modulus
    → t.proposal_window.closest ≤ n
    → (t' : TxProposalTable) × (removed : Ids) × (finalize n t ≡ some (t', removed))
      × ((id : ProposalShortId)
          → (contains t'.set id ≡ true)
            ↔ ProposedAt (Committable (n + 1) t.proposal_window) t.table id)
finalize-Committable n t small long = (
  (slide n t).0,
  (slide n t).1,
  finalize-eq_slide n t small,
  λ id.
      slide-set n t id (Committable (n + 1) t.proposal_window)
        (λ k. (λ h. ground arith, λ h. ground arith)),
)

-- On a chain shorter than `closest` (which is at most `farthest`), `finalize` at the tip does
-- not panic, and lets the next block commit exactly the ids that block 1 proposed. The tip's
-- number plus one fits 64 bits.
pub finalize-early :
    (n : ℕ) (t : TxProposalTable)
    → n < t.proposal_window.closest
    → t.proposal_window.closest ≤ t.proposal_window.farthest
    → n + 1 < u64_modulus
    → (t' : TxProposalTable) × (removed : Ids) × (finalize n t ≡ some (t', removed))
      × ((id : ProposalShortId) → (contains t'.set id ≡ true) ↔ ProposedAt (λ k. k ≡ 1) t.table id)
finalize-early n t short wide small = (
  (slide n t).0,
  (slide n t).1,
  finalize-eq_slide n t small,
  λ id. slide-set n t id (λ k. k ≡ 1) (λ k. (λ h. ground arith, λ h. ground arith)),
)

pub difference-contains :
    (s t : Ids) (id : ProposalShortId)
    → contains (difference s t) id ≡ (if contains t id then false else contains s id)
unfolding difference contains
difference-contains [] t id = ground arith
difference-contains (k ∷ s) t id = ground (arith, difference-contains s t id)

range-range :
    (p q : ℕ → Bool) (t : List (ℕ × Ids))
    → ((k : ℕ) → q k ≡ true → p k ≡ true)
    → range q (range p t) ≡ range q t
unfolding range
range-range p q [] h = refl
range-range p q ((k, ids) ∷ t) h = ground (arith, range-range p q t h, h k)

-- If the number plus one fits 64 bits, `finalize` does not panic, and what it reports as removed
-- are the ids that could be committed before and cannot now.
pub finalize-removed :
    (n : ℕ) (t : TxProposalTable)
    → n + 1 < u64_modulus
    → (t' : TxProposalTable) × (removed : Ids) × (finalize n t ≡ some (t', removed))
      × ((id : ProposalShortId)
          → contains removed id ≡ (if contains t'.set id then false else contains t.set id))
unfolding slide
finalize-removed n t small = (
  (slide n t).0,
  (slide n t).1,
  finalize-eq_slide n t small,
  difference-contains t.set (slide n t).0.set,
)

slide-slide : (n m : ℕ) (t : TxProposalTable) → n ≤ m → (slide m (slide n t).0).0 ≡ (slide m t).0
unfolding slide
slide-slide n m t le =
    let w = t.proposal_window in
    let again =
      range-range (λ k. leb (proposal_start w n) k) (λ k. leb (proposal_start w m) k) t.table
        (λ k h. ground arith) in
    ap
      (λ kept. record {
        table = kept;
        gap = collect_ids [] (range (λ k. ltb (proposal_end w m) k) kept);
        set = collect_ids [] (range (λ k. leb k (proposal_end w m)) kept);
        proposal_window = w;
      })
      again

-- What `finalize` drops from the table no later `finalize` misses: finalizing at `n` and then at
-- a later `m` (with `m + 1` within 64 bits) leaves the same table, gap and set as finalizing at
-- `m` alone.
pub finalize-finalize :
    (n m : ℕ) (t : TxProposalTable)
    → n ≤ m
    → m + 1 < u64_modulus
    → (t₁ t₂ : TxProposalTable) × (r₁ r₂ r₃ : Ids) × (finalize n t ≡ some (t₁, r₁))
      × (finalize m t₁ ≡ some (t₂, r₂))
      × (finalize m t ≡ some (t₂, r₃))
finalize-finalize n m t le small =
    let t₁ = (slide n t).0 in
    let same = slide-slide n m t le in
    (
      t₁,
      (slide m t).0,
      (slide n t).1,
      (slide m t₁).1,
      (slide m t).1,
      finalize-eq_slide n t (omega arith),
      finalize-eq_slide m t₁ small ∙ ap (λ t₂. some (t₂, (slide m t₁).1)) same,
      finalize-eq_slide m t small,
    )
