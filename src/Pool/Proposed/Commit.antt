-- ===== src/Pool/Proposed/Commit.antt =====
-- What leaves the proposed pool of shared/src/tx_pool/proposed.rs when a transaction is committed, and
-- what it offers for a block.
use ckb_miner_opt.Base.{ℕ, ◌-◌, Option, none, some, List, [], ◌∷◌, ◌++◌, take, ◌==◌, if◌then◌else◌}
use ckb_miner_opt.Base.Maps.{get, insert, remove, nat_key}
use ckb_miner_opt.Core.Transaction.{
  OutPoint, ProposalShortId, Transaction, input_pts, output_pts, proposal_short_id, out_point_key,
}
use ckb_miner_opt.Pool.Types.{ProposedEntry, Entries}
use ckb_miner_opt.Pool.Edges.{
  Edges, flat, or_empty, insert_outer, remove_outer, remove_inner, remove_deps,
}
use ckb_miner_opt.Pool.Proposed.{ProposedPool, Removed, to_list, forget_deps, remove_vertex}

-- `self.vertices.get_mut(id)`: a change in place.
abbrev pub set_entry : ProposalShortId → ProposedEntry → ProposedPool → ProposedPool
set_entry id e p = record p { vertices = insert id e p.vertices }

-- `refs_count -= 1` panics at 0.
unfoldable pub dec_ref : ProposalShortId → ProposedPool → Option ProposedPool
dec_ref id p = elim (get p.vertices id) [
  | none ↦ some p
  | some e ↦
      if e.refs_count == 0
      then none
      else some (set_entry id (record e { refs_count = e.refs_count - 1 }) p)
]

unfoldable pub dec_refs : List ProposalShortId → ProposedPool → Option ProposedPool
dec_refs [] p = some p
dec_refs (id ∷ ids) p = elim (dec_ref id p) [ none ↦ none | some p' ↦ dec_refs ids p' ]

-- A committed output that a pool transaction spends now lies outside of the pool.
abbrev pub move_spender : OutPoint → ProposalShortId → ProposedPool → Option ProposedPool
move_spender o id p = elim (dec_ref id (record p { edges = remove_inner o p.edges })) [
  | none ↦ none
  | some p' ↦ some (record p' { edges = insert_outer o id p'.edges })
]

unfoldable pub commit_output : OutPoint → ProposedPool → Option ProposedPool
unfolding dec_refs
commit_output o p =
    let moved : Option ProposedPool = elim (flat (get p.edges.inner o)) [
      | none ↦ some (record p { edges = remove_inner o p.edges })
      | some id ↦ move_spender o id p
    ] in
    elim moved [ none ↦ none | some p' ↦ dec_refs (or_empty (get p'.edges.deps o)) p' ]

unfoldable pub commit_outputs : List OutPoint → ProposedPool → Option ProposedPool
unfolding commit_output
commit_outputs [] p = some p
commit_outputs (o ∷ os) p = elim (commit_output o p) [
  | none ↦ none
  | some p' ↦ commit_outputs os p'
]

abbrev pub remove_outers : List OutPoint → Edges → Edges
remove_outers [] e = e
remove_outers (i ∷ is) e = remove_outers is (remove_outer i e)

-- Several removals, their entries put together.
unfoldable pub remove_vertices : List ProposalShortId → ProposedPool → Option Removed
remove_vertices [] p = some (p, [])
remove_vertices (id ∷ ids) p = elim (remove_vertex id p) [
  | none ↦ none
  | some (p', es) ↦ elim (remove_vertices ids p') [
    | none ↦ none
    | some (p'', es') ↦ some (p'', es ++ es')
  ]
]

-- Everything in the pool that spends one of the inputs, or names it as a dep, goes.
unfoldable pub resolve_conflict : List OutPoint → ProposedPool → Option Removed
unfolding remove_vertices
resolve_conflict [] p = some (p, [])
resolve_conflict (i ∷ is) p =
    let p₁ = record p { edges = remove_outer i p.edges } in
    elim (remove_vertices (to_list (flat (get p.edges.outer i))) p₁) [
      | none ↦ none
      | some (p₂, es) ↦
          let p₃ = record p₂ { edges = remove_deps i p₂.edges } in
          elim (remove_vertices (or_empty (get p₂.edges.deps i)) p₃) [
            | none ↦ none
            | some (p₄, es') ↦ elim (resolve_conflict is p₄) [
              | none ↦ none
              | some (p₅, es'') ↦ some (p₅, es ++ (es' ++ es''))
            ]
          ]
    ]

-- `none` is the panic of `dec_ref`.
unfoldable pub remove_committed_tx : Transaction → ProposedPool → Option Removed
unfolding commit_outputs forget_deps resolve_conflict
remove_committed_tx tx p =
    let id = proposal_short_id tx in
    elim (get p.vertices id) [
      | none ↦ resolve_conflict (input_pts tx) p
      | some entry ↦
          elim (commit_outputs (output_pts tx) (record p { vertices = remove id p.vertices })) [
            | none ↦ none
            | some p' ↦
                let e = forget_deps id tx.deps (remove_outers (input_pts tx) p'.edges) in
                some (record p' { edges = e }, entry ∷ [])
          ]
    ]

-- `txs_iter`
abbrev pub values : Entries ProposedEntry → List ProposedEntry
values [] = []
values ((_, e) ∷ es) = e ∷ values es

-- `get_txs`: the first `n` in iteration order.
abbrev pub get_txs : ℕ → ProposedPool → List ProposedEntry
get_txs n p = values (take n p.vertices)
