-- ===== src/Chain/Reconcile/Verified.antt =====
-- What `reconcile_main_chain` of chain/src/chain.rs has verified when it succeeds.
use ckb_miner_opt.Base.{
  ℕ, zero, suc, ◌-◌, ◌≡◌, refl, ap, sym, ◌∙◌, subst, Bool, true, Option, none, some, List, [], ◌∷◌,
  map, arith, length, All, Option-cases, inl, inr,
}
use ckb_miner_opt.Base.Outcome.{Outcome, ok, err, panic}
use ckb_miner_opt.Core.Capacity.{Capacity}
use ckb_miner_opt.Core.Transaction.{H256, Bytes}
use ckb_miner_opt.Core.Block.{Block}
use ckb_miner_opt.Core.Extras.{BlockExt}
use ckb_miner_opt.Core.Cell.{ResolvedTransaction}
use ckb_miner_opt.Core.Cell.Providers.{push_attached}
use ckb_miner_opt.CellSet.{CellSet, CellSetDiff}
use ckb_miner_opt.Epoch.{U256Arithmetic}
use ckb_miner_opt.Verify.Error.{TransactionError}
use ckb_miner_opt.Verify.Uncles.{UncleRules}
use ckb_miner_opt.Verify.Contextual.{Cache}
use ckb_miner_opt.Chain.Store.{ChainStore, Consensus}
use ckb_miner_opt.Chain.Fork.{ForkChanges, verified_len}
use ckb_miner_opt.Chain.Reconcile.{
  ReconcileError, unordered, unresolvable, invalid, Progress, Verdict, drop, build_verify_context,
  check, attach, apply, judge, reconcile_block, reconcile_blocks, update_exts, reconcile_main_chain,
}

length-drop {ℓ} : {A : Type ℓ} (n : ℕ) (xs : List A) → length (drop n xs) ≡ length xs - n
length-drop zero xs = omega arith
length-drop (suc n) [] = omega arith
length-drop (suc n) (x ∷ xs) = omega (arith, length-drop n xs)

verified_len-drop :
    (fork : ForkChanges) (count : ℕ)
    → verified_len fork ≡ some count
    → length fork.dirty_exts ≡ length (drop count fork.attached_blocks)
unfolding verified_len
verified_len-drop fork count h = ground (arith, length-drop count fork.attached_blocks)

module _ (u : U256Arithmetic) (from_slice : Bytes → Option H256) (rules : UncleRules)
    (scripts : ResolvedTransaction → ℕ → Outcome TransactionError ℕ)
    (remember : H256 → ℕ → Cache → Cache) (s : ChainStore) (c : Consensus) (cells : CellSet)
    (detached : List Block) where
  abbrev verdict_on : Progress → Block → Outcome ReconcileError (ℕ × List Capacity × Cache)
  verdict_on = check u from_slice rules scripts remember s c cells detached

  -- The variables after a block that passed.
  abbrev after : Block → Cache → Progress → Progress
  after b cache p = attach u from_slice rules scripts remember s c cells detached b (
      apply u from_slice rules scripts remember s c cells detached b cache
        (record p { headers = push_attached b p.headers }))

  -- Each block passes all checks on top of those before it.
  pub data Passes : Progress → List Block → Progress → Type 0 where
    done : {p : Progress} → Passes p [] p
    next :
        {p q : Progress} {b : Block} {bs : List Block} (cycles : ℕ) (txs_fees : List Capacity)
        (cache : Cache)
        → verdict_on p b ≡ ok (cycles, txs_fees, cache)
        → Passes (after b cache p) bs q
        → Passes p (b ∷ bs) q

  abbrev Passed : Block → Progress → Progress → Verdict → Type 0
  Passed b p p' v =
      (cycles : ℕ) × (txs_fees : List Capacity) × (cache : Cache) × (verdict_on p b
        ≡ ok (cycles, txs_fees, cache))
      × (p' ≡ after b cache p)
      × (v ≡ (some true, txs_fees))

  judge-Passed :
      (b : Block) (old : Option Bool) (p p' : Progress) (v : Verdict)
      (r : Outcome ReconcileError (ℕ × List Capacity × Cache))
      → verdict_on p b ≡ r
      → judge u from_slice rules scripts remember s c cells detached b old p r ≡ some (p', v)
      → p'.found_error ≡ none
      → Passed b p p' v
  unfolding judge
  judge-Passed b old p p' v (ok (cycles, txs_fees, cache)) has h clean =
      (cycles, txs_fees, cache, has, cc, cc)
  judge-Passed b old p p' v (err (unordered e)) has h clean = cc
  judge-Passed b old p p' v (err (unresolvable e)) has h clean = cc
  judge-Passed b old p p' v (err (invalid e)) has h clean = cc
  judge-Passed b old p p' v panic has h clean = cc

  abbrev step : Block → Option Bool → Progress → Option (Progress × Verdict)
  step = reconcile_block u from_slice rules scripts remember s c cells detached true

  reconcile_block-Passed :
      (b : Block) (old : Option Bool) (p p' : Progress) (v : Verdict)
      → step b old p ≡ some (p', v)
      → p'.found_error ≡ none
      → (p.found_error ≡ none) × Passed b p p' v
  unfolding reconcile_block
  reconcile_block-Passed b old p p' v h clean = elim (Option-cases p.found_error) [
    | inl is_none ↦ (is_none, judge-Passed b old p p' v (verdict_on p b) refl (cc) clean)
    | inr (e, is_some) ↦ absurd (cc)
  ]

  abbrev loop : List BlockExt → List Block → Progress → Option (Progress × List Verdict)
  loop = reconcile_blocks u from_slice rules scripts remember s c cells detached true

  loop-step :
      (ext : BlockExt) (exts : List BlockExt) (b : Block) (bs : List Block) (p q : Progress)
      (vs : List Verdict)
      → loop (ext ∷ exts) (b ∷ bs) p ≡ some (q, vs)
      → (p' : Progress) × (v : Verdict) × (rest : List Verdict) × (step b ext.verified p
          ≡ some (p', v))
        × (loop exts bs p' ≡ some (q, rest))
        × (vs ≡ v ∷ rest)
  unfolding reconcile_blocks
  loop-step ext exts b bs p q vs h = elim (Option-cases (step b ext.verified p)) [
    | inl is_none ↦ absurd (cc)
    | inr ((p', v), is_some) ↦ elim (Option-cases (loop exts bs p')) [
      | inl is_none ↦ absurd (cc)
      | inr ((q', rest), rest_is_some) ↦ (p', v, rest, is_some, cc, cc)
    ]
  ]

  abbrev written : List BlockExt → List Block → List Verdict → List (H256 × BlockExt)
  written = update_exts u from_slice rules scripts remember s c cells detached

  abbrev pub IsVerified : H256 × BlockExt → Type 0
  IsVerified (h, ext) = ext.verified ≡ some true

  loop-Passes :
      (exts : List BlockExt) (bs : List Block) (p q : Progress) (vs : List Verdict)
      → length exts ≡ length bs
      → loop exts bs p ≡ some (q, vs)
      → q.found_error ≡ none
      → (p.found_error ≡ none)
        × Passes p bs q
        × (map (λ x. x.0) (written exts bs vs) ≡ map (λ b. b.header.hash) bs)
        × All IsVerified (written exts bs vs)
  unfolding reconcile_blocks update_exts
  loop-Passes [] [] p q vs same h clean = (cc, subst (Passes p []) (cc) done, refl, tt)
  loop-Passes [] (b ∷ bs) p q vs same h clean = absurd (omega (arith, same))
  loop-Passes (ext ∷ exts) [] p q vs same h clean = absurd (omega (arith, same))
  loop-Passes (ext ∷ exts) (b ∷ bs) p q vs same h clean =
      let (p', v, rest, first, later, shape) = loop-step ext exts b bs p q vs h in
      let (clean', passes, hashes, verified) =
        loop-Passes exts bs p' q rest (omega (arith, same)) later clean in
      let (clean0, (cycles, txs_fees, cache, passed, state, verdict)) =
        reconcile_block-Passed b ext.verified p p' v first clean' in
      (
        clean0,
        next cycles txs_fees cache passed (subst (λ x. Passes x bs q) state passes),
        subst
            (λ x.
              map (λ y. y.0) (written (ext ∷ exts) (b ∷ bs) x)
              ≡ b.header.hash ∷ map (λ y. y.header.hash) bs)
            (sym shape) (ap (λ y. b.header.hash ∷ y) hashes),
        subst (λ x. All IsVerified (written (ext ∷ exts) (b ∷ bs) x)) (sym shape)
            (ap (λ x. x.0) verdict, verified),
      )

  abbrev reconcile :
      ForkChanges → Cache → Outcome ReconcileError (CellSetDiff × List (H256 × BlockExt) × Cache)
  reconcile = reconcile_main_chain u from_slice rules scripts remember s c cells detached true

  -- When `reconcile_main_chain` with verification succeeds, every block that joins the main chain and was not
  -- verified before has passed all checks on top of the blocks before it, the returned diff and
  -- cache are those after the last of them, and the exts to write are one for each of those blocks, in their
  -- order, all marked as verified.
  pub reconcile_main_chain-Passes :
      (fork : ForkChanges) (cache cache' : Cache) (diff : CellSetDiff)
      (exts : List (H256 × BlockExt))
      → reconcile fork cache ≡ ok (diff, exts, cache')
      → (count : ℕ) × (q : Progress) × (verified_len fork ≡ some count)
        × Passes (build_verify_context count fork cache) (drop count fork.attached_blocks) q
        × (q.diff ≡ diff)
        × (q.cache ≡ cache')
        × (map (λ x. x.0) exts ≡ map (λ b. b.header.hash) (drop count fork.attached_blocks))
        × All IsVerified exts
  unfolding reconcile_main_chain
  reconcile_main_chain-Passes fork cache cache' diff exts h =
      elim (Option-cases (verified_len fork)) [
        | inl is_none ↦ absurd (cc)
        | inr (count, is_some) ↦
            elim (Option-cases (
              loop fork.dirty_exts (drop count fork.attached_blocks)
                (build_verify_context count fork cache))) [
                  | inl is_none ↦ absurd (cc)
                  | inr ((q, vs), loop_is) ↦ elim (Option-cases q.found_error) [
                    | inr (e, is_error) ↦ absurd (cc)
                    | inl clean ↦
                        let (first, passes, hashes, verified) =
                          loop-Passes fork.dirty_exts (drop count fork.attached_blocks)
                            (build_verify_context count fork cache) q vs
                            (verified_len-drop fork count is_some) loop_is clean in
                        let same : written fork.dirty_exts (drop count fork.attached_blocks) vs
                            ≡ exts =
                          cc in
                        (
                          count,
                          q,
                          is_some,
                          passes,
                          cc,
                          cc,
                          ap (map (λ x. x.0)) (sym same) ∙ hashes,
                          subst (All IsVerified) same verified,
                        )
                  ]
                ]
      ]
