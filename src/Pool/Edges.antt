-- ===== src/Pool/Edges.antt =====
-- `Edges` of shared/src/tx_pool/proposed.rs, at the types that the pool uses: which transaction
-- spends an output of the pool (`inner`), an output of the chain (`outer`), and which name an output
-- as a dep.
use ckb_miner_opt.Base.{Option, none, some, List, [], if◌then◌else◌}
use ckb_miner_opt.Base.Maps.{get, insert, remove, set_insert, set_remove, nat_key}
use ckb_miner_opt.Core.Transaction.{OutPoint, ProposalShortId, out_point_key, is_empty_list}

pub record Edges : Type 0 where
  pub inner : List (OutPoint × Option ProposalShortId)
  pub outer : List (OutPoint × Option ProposalShortId)
  pub deps : List (OutPoint × List ProposalShortId)

abbrev pub no_edges : Edges
no_edges = record { inner = []; outer = []; deps = [] }

-- `unwrap_or(None)` after a `remove`.
abbrev pub flat {ℓ} : {A : Type ℓ} → Option (Option A) → Option A
flat none = none
flat (some a) = a

abbrev pub insert_outer : OutPoint → ProposalShortId → Edges → Edges
insert_outer o id e = record e { outer = insert o (some id) e.outer }

abbrev pub insert_inner : OutPoint → ProposalShortId → Edges → Edges
insert_inner o id e = record e { inner = insert o (some id) e.inner }

-- The edges after the call; the result of the call is `flat (get e.outer o)`.
abbrev pub remove_outer : OutPoint → Edges → Edges
remove_outer o e = record e { outer = remove o e.outer }

abbrev pub remove_inner : OutPoint → Edges → Edges
remove_inner o e = record e { inner = remove o e.inner }

abbrev pub mark_inpool : OutPoint → Edges → Edges
mark_inpool o e = record e { inner = insert o none e.inner }

abbrev pub remove_deps : OutPoint → Edges → Edges
remove_deps o e = record e { deps = remove o e.deps }

abbrev pub or_empty {ℓ} : {A : Type ℓ} → Option (List A) → List A
or_empty none = []
or_empty (some l) = l

unfoldable pub insert_deps : OutPoint → ProposalShortId → Edges → Edges
insert_deps o id e = record e { deps = insert o (set_insert id (or_empty (get e.deps o))) e.deps }

unfoldable pub delete_value_in_deps : OutPoint → ProposalShortId → Edges → Edges
delete_value_in_deps o id e = elim (get e.deps o) [
  | none ↦ e
  | some ids ↦
      let rest = set_remove id ids in
      record e { deps = if is_empty_list rest then remove o e.deps else insert o rest e.deps }
]
