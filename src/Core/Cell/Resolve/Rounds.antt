-- ===== src/Core/Cell/Resolve/Rounds.antt =====
-- Each round of the two loops of `resolve_transaction`, and the loops.
use ckb_miner_opt.Base.{◌≡◌, refl, subst, true, ◌⊎◌, inl, inr, some, List, [], ◌∷◌, arith}
use ckb_miner_opt.Base.Outcome.{ok, ◌>>=◌, expect, >>=-eq-ok}
use ckb_miner_opt.Core.Transaction.{OutPoint, is_issuing_dao, out_point_key}
use ckb_miner_opt.Core.Cell.{
  CellMeta, CellStatus, HeaderStatus, CellProvider, HeaderProvider, UnresolvableError, issuing_dao,
  cell_only, header_only, cell_and_header,
}
use ckb_miner_opt.Core.Cell.Resolve.Spending.{resolve_dep-seen}
use ckb_miner_opt.Core.Cell.Resolve.{
  push, Progress, settle_input, settle_dep, resolve_input, resolve_inputs, resolve_dep,
  resolve_deps,
}
use ckb_miner_opt.Core.Cell.Resolve.Matching.{
  MatchesInput, MatchesDep, Moves, Gains, Gains-nil, Moves-Gains,
}

module _ (cells : CellProvider) (headers : HeaderProvider) where
  settle_live :
      (o : OutPoint) (m : CellMeta) (hs : HeaderStatus) (p : Progress) {q : Progress}
      → cells o ≡ some (CellStatus.live m)
      → headers o ≡ hs
      → settle_input o (CellStatus.live m) hs p ≡ ok q
      → Moves cells headers (MatchesInput cells headers) o p q
  unfolding settle_input
  settle_live o m (HeaderStatus.live h) p c k e =
      inl (cell_and_header m h, inr (inl (m, h, c, k, refl)), ground arith, ground arith)
  settle_live o m HeaderStatus.unspecified p c k e =
      inl (cell_only m, inr (inr (m, c, k, refl)), ground arith, ground arith)
  settle_live o m HeaderStatus.unknown p c k e = cc
  settle_live o m HeaderStatus.inclusion_failure p c k e = cc

  settle_input-Moves :
      (o : OutPoint) (c : CellStatus) (p : Progress) {q : Progress}
      → cells o ≡ some c
      → settle_input o c (headers o) p ≡ ok q
      → Moves cells headers (MatchesInput cells headers) o p q
  unfolding settle_input
  settle_input-Moves o (CellStatus.live m) p c e = settle_live o m (headers o) p c refl e
  settle_input-Moves o CellStatus.unknown p c e = inr (c, ground arith, ground arith)
  settle_input-Moves o CellStatus.dead p c e = cc
  settle_input-Moves o CellStatus.unspecified p c e = cc

  expect-eq-ok :
      (o : OutPoint) {c : CellStatus}
      → expect {E = UnresolvableError} (cells o) ≡ ok c
      → cells o ≡ some c
  expect-eq-ok o e = ground arith

  resolve_input-inv :
      (o : OutPoint) (p : Progress) {q : Progress}
      → resolve_input cells headers o p ≡ ok q
      → ((is_issuing_dao o ≡ true) × (q ≡ push issuing_dao p))
        ⊎ ((expect (cells o) >>= λ c. settle_input o c (headers o) (record p { seen = o ∷ p.seen }))
            ≡ ok q)
  unfolding resolve_input settle_input
  resolve_input-inv o p e = ground arith

  resolve_input-Moves :
      (o : OutPoint) (p : Progress) {q : Progress}
      → resolve_input cells headers o p ≡ ok q
      → Moves cells headers (MatchesInput cells headers) o p q
  resolve_input-Moves o p e = elim (resolve_input-inv o p e) [
    | inl (dao, same) ↦ inl (issuing_dao, inl (dao, refl), ground arith, ground arith)
    | inr run ↦
        let (c, found, settled) = >>=-eq-ok (expect (cells o)) _ run in
        settle_input-Moves o c _ (expect-eq-ok o found) settled
  ]

  pub resolve_inputs-Gains :
      (os : List OutPoint) (p : Progress) {q : Progress}
      → resolve_inputs cells headers os p ≡ ok q
      → Gains cells headers (MatchesInput cells headers) os p q
  unfolding resolve_inputs
  resolve_inputs-Gains [] p {q} e =
      let same : p ≡ q = ground arith in
      subst (Gains cells headers (MatchesInput cells headers) [] p) same
        (Gains-nil cells headers _ p)
  resolve_inputs-Gains (o ∷ os) p {q} e =
      let (r, now, later) = >>=-eq-ok (resolve_input cells headers o p) _ e in
      Moves-Gains cells headers (MatchesInput cells headers) o os p r q
        (resolve_input-Moves o p now) (resolve_inputs-Gains os r later)

  settle_dep_live :
      (o : OutPoint) (m : CellMeta) (hs : HeaderStatus) (p : Progress) {q : Progress}
      → cells o ≡ some (CellStatus.live m)
      → headers o ≡ hs
      → settle_dep o (CellStatus.live m) hs p ≡ ok q
      → Moves cells headers (MatchesDep cells headers p.seen) o p q
  unfolding settle_dep
  settle_dep_live o m (HeaderStatus.live h) p c k e =
      inl (
        cell_and_header m h,
        inl (ground arith, inl (m, h, c, k, refl)),
        ground arith,
        ground arith,
      )
  settle_dep_live o m HeaderStatus.unspecified p c k e =
      inl (cell_only m, inl (ground arith, inr (m, c, k, refl)), ground arith, ground arith)
  settle_dep_live o m HeaderStatus.unknown p c k e = cc
  settle_dep_live o m HeaderStatus.inclusion_failure p c k e = cc

  settle_dep_header :
      (o : OutPoint) (hs : HeaderStatus) (p : Progress) {q : Progress}
      → cells o ≡ some CellStatus.unspecified
      → headers o ≡ hs
      → settle_dep o CellStatus.unspecified hs p ≡ ok q
      → Moves cells headers (MatchesDep cells headers p.seen) o p q
  unfolding settle_dep
  settle_dep_header o (HeaderStatus.live h) p c k e =
      inl (header_only h, inr (h, c, k, refl), ground arith, ground arith)
  settle_dep_header o HeaderStatus.unspecified p c k e = cc
  settle_dep_header o HeaderStatus.unknown p c k e = cc
  settle_dep_header o HeaderStatus.inclusion_failure p c k e = cc

  settle_dep-Moves :
      (o : OutPoint) (c : CellStatus) (p : Progress) {q : Progress}
      → cells o ≡ some c
      → settle_dep o c (headers o) p ≡ ok q
      → Moves cells headers (MatchesDep cells headers p.seen) o p q
  unfolding settle_dep
  settle_dep-Moves o (CellStatus.live m) p c e = settle_dep_live o m (headers o) p c refl e
  settle_dep-Moves o CellStatus.unspecified p c e = settle_dep_header o (headers o) p c refl e
  settle_dep-Moves o CellStatus.unknown p c e = inr (c, ground arith, ground arith)
  settle_dep-Moves o CellStatus.dead p c e = cc

  resolve_dep-Moves :
      (o : OutPoint) (p : Progress) {q : Progress}
      → resolve_dep cells headers o p ≡ ok q
      → Moves cells headers (MatchesDep cells headers p.seen) o p q
  unfolding resolve_dep
  resolve_dep-Moves o p e =
      let (c, found, settled) = >>=-eq-ok (expect (cells o)) _ e in
      settle_dep-Moves o c p (expect-eq-ok o found) settled

  pub resolve_deps-Gains :
      (os : List OutPoint) (p : Progress) {q : Progress}
      → resolve_deps cells headers os p ≡ ok q
      → Gains cells headers (MatchesDep cells headers p.seen) os p q
  unfolding resolve_deps
  resolve_deps-Gains [] p {q} e =
      let same : p ≡ q = ground arith in
      subst (Gains cells headers (MatchesDep cells headers p.seen) [] p) same
        (Gains-nil cells headers _ p)
  resolve_deps-Gains (o ∷ os) p {q} e =
      let (r, now, later) = >>=-eq-ok (resolve_dep cells headers o p) _ e in
      Moves-Gains cells headers (MatchesDep cells headers p.seen) o os p r q
        (resolve_dep-Moves o p now)
        (subst (λ s. Gains cells headers (MatchesDep cells headers s) os r q)
          (resolve_dep-seen cells headers o p now) (resolve_deps-Gains os r later))
