-- ===== src/Core/Cell/Resolve.antt =====
-- `resolve_transaction` of core/src/cell.rs. `seen_inputs` is threaded through the calls; an error
-- drops it, since every caller in the repository gives up on an error.
pub mod Spending
pub mod Matching
pub mod Rounds
pub mod Result
use ckb_miner_opt.Base.{Bool, true, false, Option, none, some, List, [], ◌∷◌, ◌++◌, if◌then◌else◌}
use ckb_miner_opt.Base.Outcome.{Outcome, ok, err, panic, ◌>>=◌, expect}
use ckb_miner_opt.Base.Maps.{contains, set_insert}
use ckb_miner_opt.Core.Transaction.{
  OutPoint, Transaction, input_pts, is_issuing_dao, is_cellbase, out_point_key,
}
use ckb_miner_opt.Core.Cell.{
  CellStatus, HeaderStatus, CellProvider, HeaderProvider, ResolvedOutPoint, ResolvedTransaction,
  UnresolvableError, issuing_dao, cell_only, header_only, cell_and_header,
}

-- The local variables of the loops.
pub record Progress : Type 0 where
  pub unknown : List OutPoint
  pub resolved : List ResolvedOutPoint
  pub seen : List OutPoint

abbrev pub push : ResolvedOutPoint → Progress → Progress
push r p = record p { resolved = p.resolved ++ r ∷ [] }

abbrev pub push_unknown : OutPoint → Progress → Progress
push_unknown o p = record p { unknown = p.unknown ++ o ∷ [] }

-- The `match (cell_status, header_status)` of the inputs, its arms in the order of the source.
unfoldable pub settle_input :
    OutPoint → CellStatus → HeaderStatus → Progress → Outcome UnresolvableError Progress
settle_input o CellStatus.dead h p = err (UnresolvableError.dead o)
settle_input o CellStatus.unknown h p = ok (push_unknown o p)
settle_input o CellStatus.unspecified h p = err (UnresolvableError.unspecified_input_cell o)
settle_input o (CellStatus.live m) HeaderStatus.unknown p = err (UnresolvableError.invalid_header o)
settle_input o (CellStatus.live m) HeaderStatus.inclusion_failure p =
    err (UnresolvableError.invalid_header o)
settle_input o (CellStatus.live m) (HeaderStatus.live h) p = ok (push (cell_and_header m h) p)
settle_input o (CellStatus.live m) HeaderStatus.unspecified p = ok (push (cell_only m) p)

-- The `match` of the deps; the fifth arm has the guard `seen_inputs.contains(&out_point)`.
unfoldable pub settle_dep :
    OutPoint → CellStatus → HeaderStatus → Progress → Outcome UnresolvableError Progress
settle_dep o CellStatus.dead h p = err (UnresolvableError.dead o)
settle_dep o CellStatus.unknown h p = ok (push_unknown o p)
settle_dep o c HeaderStatus.unknown p = err (UnresolvableError.invalid_header o)
settle_dep o c HeaderStatus.inclusion_failure p = err (UnresolvableError.invalid_header o)
settle_dep o (CellStatus.live m) (HeaderStatus.live h) p =
    if contains p.seen o then err (UnresolvableError.dead o) else ok (push (cell_and_header m h) p)
settle_dep o (CellStatus.live m) HeaderStatus.unspecified p =
    if contains p.seen o then err (UnresolvableError.dead o) else ok (push (cell_only m) p)
settle_dep o CellStatus.unspecified (HeaderStatus.live h) p = ok (push (header_only h) p)
settle_dep o CellStatus.unspecified HeaderStatus.unspecified p = err UnresolvableError.empty

module _ (cells : CellProvider) (headers : HeaderProvider) where
  -- One round of the loop over the inputs.
  unfoldable pub resolve_input : OutPoint → Progress → Outcome UnresolvableError Progress
  unfolding settle_input
  resolve_input o p =
      if is_issuing_dao o
      then ok (push issuing_dao p)
      else if contains p.seen o
      then settle_input o CellStatus.dead HeaderStatus.unknown p
      else (do
        status ← expect (cells o)
        settle_input o status (headers o) (record p { seen = o ∷ p.seen }))

  unfoldable pub resolve_inputs : List OutPoint → Progress → Outcome UnresolvableError Progress
  resolve_inputs [] p = ok p
  resolve_inputs (o ∷ os) p = resolve_input o p >>= resolve_inputs os

  -- One round of the loop over the deps.
  unfoldable pub resolve_dep : OutPoint → Progress → Outcome UnresolvableError Progress
  unfolding settle_dep
  resolve_dep o p = do status ← expect (cells o); settle_dep o status (headers o) p

  unfoldable pub resolve_deps : List OutPoint → Progress → Outcome UnresolvableError Progress
  resolve_deps [] p = ok p
  resolve_deps (o ∷ os) p = resolve_dep o p >>= resolve_deps os

  abbrev pub finish :
      Transaction
      → List OutPoint
      → List ResolvedOutPoint
      → List ResolvedOutPoint
      → List OutPoint
      → Outcome UnresolvableError (ResolvedTransaction × List OutPoint)
  finish tx [] inputs deps seen =
      ok (record { transaction = tx; resolved_deps = deps; resolved_inputs = inputs }, seen)
  finish tx (o ∷ os) inputs deps seen = err (UnresolvableError.unknown (o ∷ os))

  -- The inputs of a cellbase are skipped.
  abbrev pub spending_inputs : Transaction → List OutPoint
  spending_inputs tx = if is_cellbase tx then [] else input_pts tx

  unfoldable pub resolve_transaction :
      Transaction → List OutPoint → Outcome UnresolvableError (ResolvedTransaction × List OutPoint)
  resolve_transaction tx seen = do
    p ← resolve_inputs (spending_inputs tx) (record { unknown = []; resolved = []; seen = seen })
    q ← resolve_deps tx.deps (record p { resolved = [] })
    finish tx q.unknown p.resolved q.resolved q.seen

  -- The transactions of a block with one set of seen inputs, up to the first error:
  -- `.map(|x| resolve_transaction(x, &mut seen_inputs, ..)).collect::<Result<Vec<_>, _>>()`.
  unfoldable pub resolve_all :
      List Transaction
      → List OutPoint
      → Outcome UnresolvableError (List ResolvedTransaction × List OutPoint)
  resolve_all [] seen = ok ([], seen)
  resolve_all (tx ∷ txs) seen = do
    (rtx, seen') ← resolve_transaction tx seen
    (rtxs, seen'') ← resolve_all txs seen'
    ok (rtx ∷ rtxs, seen'')
