-- ===== src/Pool/Orphan/Removal.antt =====
-- Removals from the orphan pool of shared/src/tx_pool/orphan.rs end, and orphans keep their counts.
use ckb_miner_opt.Base.{
  ℕ, zero, suc, ◌≤◌, ◌<◌, ◌≡◌, refl, inl, inr, Option, none, some, List, [], ◌∷◌, ◌++◌, arith,
  length, Option-cases,
}
use ckb_miner_opt.Base.Maps.{get, remove, length-remove-lt, get-remove, nat_key}
use ckb_miner_opt.Core.Transaction.{OutPoint, ProposalShortId, output_pts, out_point_key}
use ckb_miner_opt.Pool.Types.{DefectEntry, Entries}
use ckb_miner_opt.Pool.Edges.{or_empty}
use ckb_miner_opt.Pool.Orphan.{
  OrphanPool, drop_all, take_edges, recursion_remove, recursion_remove_all, remove_conflicts,
}

-- Every orphan waits for at least one output.
abbrev pub Positive : Entries DefectEntry → Type 0
Positive vs = (id : ProposalShortId) (e : DefectEntry) → get vs id ≡ some e → 0 < e.refs_count

pub Positive-remove :
    (cid : ProposalShortId) (vs : Entries DefectEntry) → Positive vs → Positive (remove cid vs)
Positive-remove cid vs h id e found = h id e (ground (arith, get-remove cid id vs, found))

get_empty : (vs : Entries DefectEntry) (id : ProposalShortId) → length vs ≤ 0 → get vs id ≡ none
unfolding get
get_empty [] id h = refl
get_empty (v ∷ vs) id h = absurd (omega arith)

-- A removal ends, and leaves a pool whose orphans all wait if they did before.
abbrev pub Dropped : OrphanPool → Option OrphanPool → Type 0
Dropped p m = (p' : OrphanPool) × (m ≡ some p') × (Positive p.vertices → Positive p'.vertices)

drop_all-Dropped :
    (fuel : ℕ) (queue : List ProposalShortId) (p : OrphanPool)
    → length p.vertices ≤ fuel
    → Dropped p (drop_all fuel queue p)
unfolding drop_all
drop_all-Dropped fuel [] p h = (p, refl, λ k. k)
drop_all-Dropped zero (id ∷ queue) p h =
    let (r, ran, kept) = drop_all-Dropped zero queue p h in
    (r, ground (arith, get_empty p.vertices id h, ran), kept)
drop_all-Dropped (suc fuel) (id ∷ queue) p h = elim (Option-cases (get p.vertices id)) [
  | inl absent ↦
      let (r, ran, kept) = drop_all-Dropped (suc fuel) queue p h in (r, ground arith, kept)
  | inr (entry, found) ↦
      let taken = take_edges (output_pts entry.transaction) p.edges in
      let (r, ran, kept) =
        drop_all-Dropped fuel (queue ++ taken.1)
          (record { vertices = remove id p.vertices; edges = taken.0 })
          (omega (arith, length-remove-lt id p.vertices entry found)) in
      (r, ground arith, λ k. kept (Positive-remove id p.vertices k))
]

recursion_remove_all-Dropped :
    (ids : List ProposalShortId) (p : OrphanPool) → Dropped p (recursion_remove_all ids p)
unfolding recursion_remove_all recursion_remove
recursion_remove_all-Dropped [] p = (p, refl, λ k. k)
recursion_remove_all-Dropped (id ∷ ids) p =
    let (q, one, kept) = drop_all-Dropped (length p.vertices) (id ∷ []) p (omega arith) in
    let (r, rest, kept') = recursion_remove_all-Dropped ids q in
    (r, ground arith, λ k. kept' (kept k))

pub remove_conflicts-Dropped :
    (is : List OutPoint) (p : OrphanPool) → Dropped p (remove_conflicts is p)
unfolding remove_conflicts
remove_conflicts-Dropped [] p = (p, refl, λ k. k)
remove_conflicts-Dropped (i ∷ is) p =
    let (q, one, kept) =
      recursion_remove_all-Dropped (or_empty (get p.edges i))
        (record p { edges = remove i p.edges }) in
    let (r, rest, kept') = remove_conflicts-Dropped is q in (r, ground arith, λ k. kept' (kept k))
