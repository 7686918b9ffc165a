-- ===== src/Core/Cell/Resolve/Matching.antt =====
-- What a resolved transaction holds: for each input and each dep, what the providers said of it.
use ckb_miner_opt.Base.{
  ◌≡◌, sym, ap, ◌∙◌, true, false, ◌⊎◌, inl, inr, some, List, [], ◌∷◌, ◌++◌, All,
}
use ckb_miner_opt.Base.Maps.{contains}
use ckb_miner_opt.Core.Block.{Header}
use ckb_miner_opt.Core.Transaction.{OutPoint, is_issuing_dao, out_point_key}
use ckb_miner_opt.Core.Cell.{
  CellMeta, CellStatus, HeaderStatus, CellProvider, HeaderProvider, ResolvedOutPoint, issuing_dao,
  cell_only, header_only, cell_and_header,
}
use mathlib.Core.List.{append-nil, append_assoc}
use ckb_miner_opt.Core.Cell.Resolve.{Progress}

module _ (cells : CellProvider) (headers : HeaderProvider) where
  -- The header of a live cell's out point is live and recorded, or none was asked for.
  abbrev pub LiveCell : OutPoint → ResolvedOutPoint → Type 0
  LiveCell o r =
      ((m : CellMeta) × (h : Header) × (cells o ≡ some (CellStatus.live m))
        × (headers o ≡ HeaderStatus.live h)
        × (r ≡ cell_and_header m h))
      ⊎ ((m : CellMeta) × (cells o ≡ some (CellStatus.live m))
          × (headers o ≡ HeaderStatus.unspecified)
          × (r ≡ cell_only m))

  abbrev pub MatchesInput : OutPoint → ResolvedOutPoint → Type 0
  MatchesInput o r = ((is_issuing_dao o ≡ true) × (r ≡ issuing_dao)) ⊎ LiveCell o r

  -- A dep is a live cell that no input has spent, or a header alone.
  abbrev pub MatchesDep : List OutPoint → OutPoint → ResolvedOutPoint → Type 0
  MatchesDep seen o r =
      ((contains seen o ≡ false) × LiveCell o r)
      ⊎ ((h : Header) × (cells o ≡ some CellStatus.unspecified)
          × (headers o ≡ HeaderStatus.live h)
          × (r ≡ header_only h))

  abbrev pub IsUnknown : OutPoint → Type 0
  IsUnknown o = cells o ≡ some CellStatus.unknown

  -- Out points, what they resolved to, and those that no provider knows.
  pub data Met (P : OutPoint → ResolvedOutPoint → Type 0)
      : List OutPoint → List ResolvedOutPoint → List OutPoint → Type 0 where
    none_left : Met P [] [] []
    resolves :
        {o : OutPoint} {r : ResolvedOutPoint} {os us : List OutPoint} {rs : List ResolvedOutPoint}
        → P o r
        → Met P os rs us
        → Met P (o ∷ os) (r ∷ rs) us
    misses :
        {o : OutPoint} {os us : List OutPoint} {rs : List ResolvedOutPoint}
        → IsUnknown o
        → Met P os rs us
        → Met P (o ∷ os) rs (o ∷ us)

  abbrev pub Pairwise :
      (OutPoint → ResolvedOutPoint → Type 0) → List OutPoint → List ResolvedOutPoint → Type 0
  Pairwise P [] [] = Unit
  Pairwise P (o ∷ os) (r ∷ rs) = P o r × Pairwise P os rs
  Pairwise P _ _ = ⊥

  pub Met-Pairwise :
      (P : OutPoint → ResolvedOutPoint → Type 0) {os us : List OutPoint}
      {rs : List ResolvedOutPoint}
      → Met P os rs us
      → us ≡ []
      → Pairwise P os rs
  Met-Pairwise P none_left e = tt
  Met-Pairwise P (resolves p m) e = (p, Met-Pairwise P m e)
  Met-Pairwise P (misses u m) e = cc

  pub Met-IsUnknown :
      (P : OutPoint → ResolvedOutPoint → Type 0) {os us : List OutPoint}
      {rs : List ResolvedOutPoint}
      → Met P os rs us
      → All IsUnknown us
  Met-IsUnknown P none_left = tt
  Met-IsUnknown P (resolves p m) = Met-IsUnknown P m
  Met-IsUnknown P (misses u m) = (u, Met-IsUnknown P m)

  -- One round either resolves its out point or notes it as unknown.
  abbrev pub Moves :
      (OutPoint → ResolvedOutPoint → Type 0) → OutPoint → Progress → Progress → Type 0
  Moves P o p q =
      ((r : ResolvedOutPoint) × P o r
        × (q.resolved ≡ p.resolved ++ r ∷ [])
        × (q.unknown ≡ p.unknown))
      ⊎ (IsUnknown o × (q.resolved ≡ p.resolved) × (q.unknown ≡ p.unknown ++ o ∷ []))

  -- What a loop over the out points `os` adds to its variables.
  abbrev pub Gains :
      (OutPoint → ResolvedOutPoint → Type 0) → List OutPoint → Progress → Progress → Type 0
  Gains P os p q =
      (rs : List ResolvedOutPoint) × (us : List OutPoint) × Met P os rs us
      × (q.resolved ≡ p.resolved ++ rs)
      × (q.unknown ≡ p.unknown ++ us)

  pub Gains-nil : (P : OutPoint → ResolvedOutPoint → Type 0) (p : Progress) → Gains P [] p p
  Gains-nil P p = ([], [], none_left, sym (append-nil p.resolved), sym (append-nil p.unknown))

  pub Moves-Gains :
      (P : OutPoint → ResolvedOutPoint → Type 0) (o : OutPoint) (os : List OutPoint)
      (p r q : Progress)
      → Moves P o p r
      → Gains P os r q
      → Gains P (o ∷ os) p q
  Moves-Gains P o os p r q (inl (x, px, e, f)) (rs, us, m, g, h) = (
    x ∷ rs,
    us,
    resolves px m,
    g ∙ (ap (λ l. l ++ rs) e ∙ append_assoc p.resolved (x ∷ []) rs),
    h ∙ ap (λ l. l ++ us) f,
  )
  Moves-Gains P o os p r q (inr (u, e, f)) (rs, us, m, g, h) = (
    rs,
    o ∷ us,
    misses u m,
    g ∙ ap (λ l. l ++ rs) e,
    h ∙ (ap (λ l. l ++ us) f ∙ append_assoc p.unknown (o ∷ []) us),
  )
