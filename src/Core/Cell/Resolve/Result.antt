-- ===== src/Core/Cell/Resolve/Result.antt =====
-- `resolve_transaction` as a whole: what it returns on success, and what it reports as unknown.
use ckb_miner_opt.Base.{
  ◌≡◌, ◌≢◌, sym, ap, subst, ◌∙◌, inl, inr, List, [], ◌∷◌, ◌++◌, arith, All, All-append,
}
use ckb_miner_opt.Base.Outcome.{ok, err, >>=-eq-ok, >>=-eq-err}
use ckb_miner_opt.Core.Transaction.{OutPoint, Transaction}
use ckb_miner_opt.Core.Cell.{
  CellProvider, HeaderProvider, ResolvedOutPoint, ResolvedTransaction, UnresolvableError,
}
use ckb_miner_opt.Core.Cell.Resolve.{
  Progress, settle_input, settle_dep, resolve_input, resolve_inputs, resolve_dep, resolve_deps,
  spending_inputs, finish, resolve_transaction,
}
use ckb_miner_opt.Core.Cell.Resolve.Spending.{resolve_deps-seen}
use ckb_miner_opt.Core.Cell.Resolve.Matching.{
  MatchesInput, MatchesDep, Pairwise, IsUnknown, Met-Pairwise, Met-IsUnknown,
}
use ckb_miner_opt.Core.Cell.Resolve.Rounds.{resolve_inputs-Gains, resolve_deps-Gains}

module _ (cells : CellProvider) (headers : HeaderProvider) where
  finish_cases :
      (tx : Transaction) (us seen : List OutPoint) (is ds : List ResolvedOutPoint)
      {rtx : ResolvedTransaction} {seen' : List OutPoint}
      → finish cells headers tx us is ds seen ≡ ok (rtx, seen')
      → (us ≡ [])
        × (rtx.transaction ≡ tx)
        × (rtx.resolved_inputs ≡ is)
        × (rtx.resolved_deps ≡ ds)
        × (seen' ≡ seen)
  finish_cases tx us seen is ds e = ground arith

  abbrev pub Resolved : Transaction → List OutPoint → ResolvedTransaction → Type 0
  Resolved tx seen rtx =
      (rtx.transaction ≡ tx)
      × Pairwise cells headers (MatchesInput cells headers) (spending_inputs cells headers tx)
          rtx.resolved_inputs
      × Pairwise cells headers (MatchesDep cells headers seen) tx.deps rtx.resolved_deps

  -- On success the resolved inputs and deps stand one by one for the transaction's inputs (none for
  -- a cellbase) and deps: each is the DAO marker, or the live cell that the provider gave with the
  -- live header if one was asked for; a dep may be a live header alone, and no dep that is a cell
  -- is among the inputs seen.
  pub resolve_transaction_sound :
      (tx : Transaction) (seen : List OutPoint) {rtx : ResolvedTransaction} {seen' : List OutPoint}
      → resolve_transaction cells headers tx seen ≡ ok (rtx, seen')
      → Resolved tx seen' rtx
  unfolding resolve_transaction
  resolve_transaction_sound tx seen {rtx} {seen'} e =
      let (p, inputs, rest) =
        >>=-eq-ok (resolve_inputs cells headers (spending_inputs cells headers tx) _) _ e in
      let (q, deps, done) = >>=-eq-ok (resolve_deps cells headers tx.deps _) _ rest in
      let (all_known, same, is, ds, kept) = finish_cases tx q.unknown q.seen _ _ done in
      let (rs, us, met, got, missed) = resolve_inputs-Gains cells headers _ _ inputs in
      let (rs', us', met', got', missed') = resolve_deps-Gains cells headers tx.deps _ deps in
      let none_missed : us ≡ [] = ground arith in
      let none_missed' : us' ≡ [] = ground arith in
      (
        same,
        subst (Pairwise cells headers (MatchesInput cells headers) _) (sym got ∙ sym is)
            (Met-Pairwise cells headers _ met none_missed),
        subst (λ s. Pairwise cells headers (MatchesDep cells headers s) tx.deps rtx.resolved_deps)
            (sym (kept ∙ resolve_deps-seen cells headers tx.deps _ deps))
            (subst (Pairwise cells headers (MatchesDep cells headers p.seen) tx.deps)
              (sym got' ∙ sym ds) (Met-Pairwise cells headers _ met' none_missed')),
      )

  resolve_inputs-ne-unknown :
      (os : List OutPoint) (p : Progress) {us : List OutPoint}
      → resolve_inputs cells headers os p ≢ err (UnresolvableError.unknown us)
  unfolding resolve_inputs resolve_input settle_input
  resolve_inputs-ne-unknown [] p e = cc
  resolve_inputs-ne-unknown (o ∷ os) p e = elim (>>=-eq-err (resolve_input cells headers o p) _ e) [
    | inl now ↦ ground arith
    | inr (r, _, later) ↦ resolve_inputs-ne-unknown os r later
  ]

  resolve_deps-ne-unknown :
      (os : List OutPoint) (p : Progress) {us : List OutPoint}
      → resolve_deps cells headers os p ≢ err (UnresolvableError.unknown us)
  unfolding resolve_deps resolve_dep settle_dep
  resolve_deps-ne-unknown [] p e = cc
  resolve_deps-ne-unknown (o ∷ os) p e = elim (>>=-eq-err (resolve_dep cells headers o p) _ e) [
    | inl now ↦ ground arith
    | inr (r, _, later) ↦ resolve_deps-ne-unknown os r later
  ]

  finish_unknown :
      (tx : Transaction) (us seen us' : List OutPoint) (is ds : List ResolvedOutPoint)
      → finish cells headers tx us is ds seen ≡ err (UnresolvableError.unknown us')
      → (us' ≡ us) × (us ≢ [])
  finish_unknown tx us seen us' is ds e = ground arith

  -- A transaction is reported with unknown out points only if there is at least one, and the
  -- provider knows none of those that are reported.
  pub resolve_transaction-unknown :
      (tx : Transaction) (seen us : List OutPoint)
      → resolve_transaction cells headers tx seen ≡ err (UnresolvableError.unknown us)
      → (us ≢ []) × All (IsUnknown cells headers) us
  unfolding resolve_transaction
  resolve_transaction-unknown tx seen us e =
      elim (>>=-eq-err (resolve_inputs cells headers _ _) _ e) [
        | inl early ↦ absurd (resolve_inputs-ne-unknown _ _ early)
        | inr (p, inputs, rest) ↦ elim (>>=-eq-err (resolve_deps cells headers tx.deps _) _ rest) [
          | inl early ↦ absurd (resolve_deps-ne-unknown _ _ early)
          | inr (q, deps, done) ↦
              reported p q inputs deps (finish_unknown tx q.unknown q.seen us _ _ done)
        ]
      ]
    where
      reported :
          (p q : Progress)
          → resolve_inputs cells headers
              (spending_inputs cells headers tx)
              (record { unknown = []; resolved = []; seen = seen })
            ≡ ok p
          → resolve_deps cells headers tx.deps (record p { resolved = [] }) ≡ ok q
          → (us ≡ q.unknown) × (q.unknown ≢ [])
          → (us ≢ []) × All (IsUnknown cells headers) us
      reported p q inputs deps (same, some_left) =
          let (rs, ns, met, got, missed) = resolve_inputs-Gains cells headers _ _ inputs in
          let (rs', ns', met', got', missed') = resolve_deps-Gains cells headers tx.deps _ deps in
          (
            λ none_left. some_left (sym same ∙ none_left),
            subst (All (IsUnknown cells headers))
                (sym (same ∙ (missed' ∙ ap (λ l. l ++ ns') missed)))
                (All-append (IsUnknown cells headers) ns ns' (Met-IsUnknown cells headers _ met)
                  (Met-IsUnknown cells headers _ met')),
          )
