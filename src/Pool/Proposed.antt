-- ===== src/Pool/Proposed.antt =====
-- `ProposedPool` of shared/src/tx_pool/proposed.rs: transactions that may be committed.
pub mod Removal
pub mod Cells
pub mod Commit
use ckb_miner_opt.Base.{
  ℕ, zero, suc, ◌+◌, ◌-◌, Bool, true, false, Option, none, some, List, [], ◌∷◌, ◌++◌, length, take,
  get_elem?, ◌==◌, if◌then◌else◌,
}
use ckb_miner_opt.Base.Maps.{get, insert, remove, contains_key, nat_key}
use ckb_miner_opt.Core.Capacity.{Capacity}
use ckb_miner_opt.Core.Transaction.{
  OutPoint, CellOutPoint, CellOutput, ProposalShortId, Transaction, from_tx_hash, input_pts,
  output_pts, proposal_short_id, get_output, out_point_key,
}
use ckb_miner_opt.Core.Cell.{CellStatus, CellProvider, pool_cell}
use ckb_miner_opt.Pool.Types.{ProposedEntry, Entries, Insertion}
use ckb_miner_opt.Pool.Edges.{
  Edges, flat, or_empty, insert_outer, insert_inner, remove_outer, remove_inner, mark_inpool,
  remove_deps, insert_deps, delete_value_in_deps,
}

pub record ProposedPool : Type 0 where
  pub vertices : Entries ProposedEntry
  pub edges : Edges

-- `ProposedPool::get_output`
unfoldable pub find_output : ProposedPool → CellOutPoint → Option CellOutput
find_output p c = elim (get p.vertices (from_tx_hash c.tx_hash)) [
  | none ↦ none
  | some e ↦ get_output e.transaction c.index
]

-- The cell provider; `expect("output")` panics.
unfoldable pub proposed_cell : ProposedPool → CellProvider
unfolding find_output
proposed_cell p o = elim o.cell [
  | none ↦ some CellStatus.unspecified
  | some c ↦ elim (get p.edges.inner o) [
    | some (some spender) ↦ some CellStatus.dead
    | some none ↦ elim (find_output p c) [
      | none ↦ none
      | some output ↦ some (CellStatus.live (pool_cell output c))
    ]
    | none ↦ some (if contains_key p.edges.outer o then CellStatus.dead else CellStatus.unknown)
  ]
]

-- The three loops of `remove_vertex` over one entry.
unfoldable pub forget_inputs : List OutPoint → Edges → Edges
forget_inputs [] e = e
forget_inputs (i ∷ is) e =
    forget_inputs is (elim (get e.inner i) [ none ↦ remove_outer i e | some _ ↦ remove_inner i e ])

unfoldable pub forget_deps : ProposalShortId → List OutPoint → Edges → Edges
forget_deps id [] e = e
forget_deps id (d ∷ ds) e = forget_deps id ds (delete_value_in_deps d id e)

abbrev pub to_list {ℓ} : {A : Type ℓ} → Option A → List A
to_list none = []
to_list (some a) = a ∷ []

-- The children of an output go to the queue: its spender, then those that name it as a dep.
abbrev pub children_of : OutPoint → Edges → List ProposalShortId
children_of o e = to_list (flat (get e.inner o)) ++ or_empty (get e.deps o)

unfoldable pub forget_outputs : List OutPoint → Edges → Edges × List ProposalShortId
forget_outputs [] e = (e, [])
forget_outputs (o ∷ os) e =
    let (e', rest) = forget_outputs os (remove_deps o (remove_inner o e)) in
    (e', children_of o e ++ rest)

-- One vertex leaves: the pool without it, and the ids to look at next.
unfoldable pub drop_vertex :
    ProposalShortId → ProposedEntry → ProposedPool → ProposedPool × List ProposalShortId
unfolding forget_inputs forget_deps forget_outputs
drop_vertex id entry p =
    let tx = entry.transaction in
    let e = forget_deps id tx.deps (forget_inputs (input_pts tx) p.edges) in
    let (e', more) = forget_outputs (output_pts tx) e in
    (record { vertices = remove id p.vertices; edges = e' }, more)

abbrev pub Removed : Type 0
Removed = ProposedPool × List ProposedEntry

abbrev pub with_entry : ProposedEntry → Option Removed → Option Removed
with_entry e none = none
with_entry e (some (p, es)) = some (p, e ∷ es)

-- The loop over the queue. The fuel counts removals; `none` means that it ran out.
unfoldable pub drain : ℕ → List ProposalShortId → ProposedPool → Option Removed
drain fuel [] p = some (p, [])
drain zero (id ∷ queue) p = elim (get p.vertices id) [ none ↦ drain zero queue p | some _ ↦ none ]
drain (suc fuel) (id ∷ queue) p = elim (get p.vertices id) [
  | none ↦ drain (suc fuel) queue p
  | some entry ↦
      let (p', more) = drop_vertex id entry p in with_entry entry (drain fuel (queue ++ more) p')
]

-- `remove` and `remove_vertex`. There cannot be more removals than vertices.
unfoldable pub remove_vertex : ProposalShortId → ProposedPool → Option Removed
remove_vertex id p = drain (length p.vertices) (id ∷ []) p

-- The three loops of `add_tx`, with `count`.
unfoldable pub spend_inputs : ProposalShortId → List OutPoint → ℕ × Edges → ℕ × Edges
spend_inputs id [] s = s
spend_inputs id (i ∷ is) (count, e) = spend_inputs id is (elim (get e.inner i) [
  | some _ ↦ (count + 1, insert_inner i id e)
  | none ↦ (count, insert_outer i id e)
])

unfoldable pub name_deps : ProposalShortId → List OutPoint → ℕ × Edges → ℕ × Edges
name_deps id [] s = s
name_deps id (d ∷ ds) (count, e) =
    name_deps id ds ((if contains_key e.inner d then count + 1 else count), insert_deps d id e)

unfoldable pub mark_outputs : List OutPoint → Edges → Edges
mark_outputs [] e = e
mark_outputs (o ∷ os) e = mark_outputs os (mark_inpool o e)

module _ (ins : Insertion ProposedEntry) where
  unfoldable pub add_tx : ℕ → Capacity → ℕ → Transaction → ProposedPool → ProposedPool
  unfolding spend_inputs name_deps mark_outputs
  add_tx cycles fee size tx p =
      let id = proposal_short_id tx in
      let (count, e) = name_deps id tx.deps (spend_inputs id (input_pts tx) (0, p.edges)) in
      record {
        vertices =
            ins.place id
              (record {
                transaction = tx;
                refs_count = count;
                cycles = cycles;
                fee = fee;
                size = size;
              })
              p.vertices;
        edges = mark_outputs (output_pts tx) e;
      }
