-- ===== src/Chain/Reconcile.antt =====
-- `reconcile_main_chain` of chain/src/chain.rs: the blocks that join the main chain and were never verified
-- are verified in order, each on the changes of those before it. `remember` and the other parameters
-- are those of the contextual verifier. What an error leaves in the cache of cycles is not modelled.

pub mod Verified
use ckb_miner_opt.Base.{
  ℕ, zero, suc, Bool, true, false, Option, none, some, List, [], ◌∷◌, ◌++◌, take, map,
  if◌then◌else◌,
}
use ckb_miner_opt.Base.Maps.{insert, nat_key}
use ckb_miner_opt.Base.Outcome.{Outcome, ok, err, panic, ◌>>=◌, ◌>>◌, map_err, expect}
use ckb_miner_opt.Core.Capacity.{Capacity}
use ckb_miner_opt.Core.Transaction.{H256, Bytes, CellOutput, Transaction}
use ckb_miner_opt.Core.Block.{Block}
use ckb_miner_opt.Core.Extras.{BlockExt}
use ckb_miner_opt.Core.Cell.{ResolvedTransaction, UnresolvableError}
use ckb_miner_opt.Core.Cell.Providers.{
  BlockHeadersProvider, overlay_cell, overlay_header, new_block_cells, block_cell, block_header,
  push_attached, push_detached,
}
use ckb_miner_opt.Core.Cell.Resolve.{resolve_all}
use ckb_miner_opt.CellSet.{CellSet, CellSetDiff, empty_diff, push_new, push_old}
use ckb_miner_opt.Epoch.{U256Arithmetic}
use ckb_miner_opt.Verify.Error.{TransactionError}
use ckb_miner_opt.Verify.Uncles.{UncleRules}
use ckb_miner_opt.Verify.Contextual.{ContextualError, Cache}
use ckb_miner_opt.Verify.Contextual
use ckb_miner_opt.Chain.Store.{ChainStore, Consensus}
use ckb_miner_opt.Chain.State.{Outputs, overlay_cells, chain_header}
use ckb_miner_opt.Chain.Fork.{ForkChanges, verified_len}

pub data ReconcileError : Type 0 where
  unordered unresolvable : UnresolvableError → ReconcileError
  invalid : ContextualError → ReconcileError

-- The local variables of the loop. `attached` is that of the verification context.
pub record Progress : Type 0 where
  pub diff : CellSetDiff
  pub headers : BlockHeadersProvider
  pub outputs : Outputs
  pub attached : List Block
  pub cache : Cache
  pub found_error : Option ReconcileError

abbrev pub drop {ℓ} : {A : Type ℓ} → ℕ → List A → List A
drop zero xs = xs
drop (suc n) [] = []
drop (suc n) (x ∷ xs) = drop n xs

abbrev pub extend_outputs : List Transaction → Outputs → Outputs
extend_outputs [] outputs = outputs
extend_outputs (tx ∷ txs) outputs = extend_outputs txs (insert tx.hash tx.outputs outputs)

-- `build_verify_context`
abbrev pub push_old_each : List Block → CellSetDiff → CellSetDiff
push_old_each [] diff = diff
push_old_each (b ∷ bs) diff = push_old_each bs (push_old b diff)

abbrev pub push_detached_each : List Block → BlockHeadersProvider → BlockHeadersProvider
push_detached_each [] p = p
push_detached_each (b ∷ bs) p = push_detached_each bs (push_detached b p)

abbrev pub attach_verified : List Block → Progress → Progress
attach_verified [] p = p
attach_verified (b ∷ bs) p = attach_verified bs (record {
  diff = push_new b p.diff;
  headers = push_attached b p.headers;
  outputs = extend_outputs b.transactions p.outputs;
  attached = p.attached ++ b ∷ [];
  cache = p.cache;
  found_error = p.found_error;
})

abbrev pub no_headers : BlockHeadersProvider
no_headers = record {
  attached_indices = [];
  attached_transaction_blocks = [];
  detached_indices = [];
}

unfoldable pub build_verify_context : ℕ → ForkChanges → Cache → Progress
build_verify_context count fork cache = attach_verified (take count fork.attached_blocks) (record {
  diff = push_old_each fork.detached_blocks empty_diff;
  headers = push_detached_each fork.detached_blocks no_headers;
  outputs = [];
  attached = [];
  cache = cache;
  found_error = none;
})

abbrev pub Verdict : Type 0
Verdict = Option Bool × List Capacity

module _ (u : U256Arithmetic) (from_slice : Bytes → Option H256) (rules : UncleRules)
    (scripts : ResolvedTransaction → ℕ → Outcome TransactionError ℕ)
    (remember : H256 → ℕ → Cache → Cache) (s : ChainStore) (c : Consensus) (cells : CellSet)
    (detached : List Block) where
  -- The providers, the resolution of the transactions and the contextual verifier, for one block.
  unfoldable pub check : Progress → Block → Outcome ReconcileError (ℕ × List Capacity × Cache)
  check p b = do
    block_cells ← map_err unordered (new_block_cells b)
    let cell_provider =
        overlay_cell (block_cell block_cells) (overlay_cells s cells p.diff p.outputs)
    let header_provider = overlay_header (block_header (push_attached b p.headers)) (chain_header s)
    (resolved, seen) ←
        map_err unresolvable (resolve_all cell_provider header_provider b.transactions [])
    map_err invalid (
        Contextual.verify u from_slice rules scripts remember s c
          (record { attached_blocks = p.attached; detached_blocks = detached }) resolved b p.cache)

  abbrev pub attach : Block → Progress → Progress
  attach b p = record p { attached = p.attached ++ b ∷ [] }

  abbrev pub apply : Block → Cache → Progress → Progress
  apply b cache p = record p {
    diff = push_new b p.diff;
    outputs = extend_outputs b.transactions p.outputs;
    cache = cache;
  }

  -- A block out of order keeps its verdict, and is not put into the context.
  unfoldable pub judge :
      Block
      → Option Bool
      → Progress
      → Outcome ReconcileError (ℕ × List Capacity × Cache)
      → Option (Progress × Verdict)
  judge b old p panic = none
  judge b old p (ok (cycles, txs_fees, cache)) = some (
    attach b (apply b cache (record p { headers = push_attached b p.headers })),
    (some true, txs_fees),
  )
  judge b old p (err (unordered e)) =
      some (record p { found_error = some (unordered e) }, (old, []))
  judge b old p (err (unresolvable e)) = some (
    attach b
        (record p { headers = push_attached b p.headers; found_error = some (unresolvable e) }),
    (some false, []),
  )
  judge b old p (err (invalid e)) = some (
    attach b (record p { headers = push_attached b p.headers; found_error = some (invalid e) }),
    (some false, []),
  )

  -- One turn of the `for` loop; `none` is a panic.
  unfoldable pub reconcile_block :
      Bool → Block → Option Bool → Progress → Option (Progress × Verdict)
  unfolding judge
  reconcile_block false b old p = some (attach b (apply b p.cache p), (some true, []))
  reconcile_block true b old p = elim p.found_error [
    | none ↦ judge b old p (check p b)
    | some e ↦ some (attach b p, (some false, []))
  ]

  -- The loop over the blocks with their exts.
  unfoldable pub reconcile_blocks :
      Bool → List BlockExt → List Block → Progress → Option (Progress × List Verdict)
  reconcile_blocks need_verify [] bs p = some (p, [])
  reconcile_blocks need_verify (ext ∷ exts) [] p = some (p, [])
  reconcile_blocks need_verify (ext ∷ exts) (b ∷ bs) p =
      elim (reconcile_block need_verify b ext.verified p) [
        | none ↦ none
        | some (p', verdict) ↦ elim (reconcile_blocks need_verify exts bs p') [
          | none ↦ none
          | some (p'', verdicts) ↦ some (p'', verdict ∷ verdicts)
        ]
      ]

  abbrev pub update_ext : BlockExt → Verdict → BlockExt
  update_ext ext verdict = record ext { verified = verdict.0; txs_fees = verdict.1 }

  -- The exts with the verdicts, under the hashes of their blocks.
  unfoldable pub update_exts : List BlockExt → List Block → List Verdict → List (H256 × BlockExt)
  update_exts [] bs vs = []
  update_exts (ext ∷ exts) [] vs = []
  update_exts (ext ∷ exts) (b ∷ bs) [] = []
  update_exts (ext ∷ exts) (b ∷ bs) (v ∷ vs) =
      (b.header.hash, update_ext ext v) ∷ update_exts exts bs vs

  abbrev pub or_error {ℓ} : {A : Type ℓ} → Option ReconcileError → A → Outcome ReconcileError A
  or_error none a = ok a
  or_error (some e) a = err e

  -- The change to the cells, the exts to write, and the cache.
  unfoldable pub reconcile_main_chain :
      Bool
      → ForkChanges
      → Cache
      → Outcome ReconcileError (CellSetDiff × List (H256 × BlockExt) × Cache)
  reconcile_main_chain need_verify fork cache = do
    count ← expect (verified_len fork)
    let dirty = drop count fork.attached_blocks
    (p, verdicts) ←
        expect (
          reconcile_blocks need_verify fork.dirty_exts dirty
            (build_verify_context count fork cache))
    or_error p.found_error (p.diff, update_exts fork.dirty_exts dirty verdicts, p.cache)
