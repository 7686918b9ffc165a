-- ===== src/Pool/Orphan.antt =====
-- `OrphanPool` of shared/src/tx_pool/orphan.rs: transactions that wait for unknown outputs. The hash
-- maps are lists; a queue's rounds are counted by fuel.
pub mod Removal
pub mod Release
use ckb_miner_opt.Base.{
  ℕ, zero, suc, ◌+◌, ◌-◌, Bool, Option, none, some, List, [], ◌∷◌, ◌++◌, length, ◌==◌,
  if◌then◌else◌,
}
use ckb_miner_opt.Base.Maps.{get, insert, remove, contains_key, nat_key}
use ckb_miner_opt.Base.Outcome.{Outcome, ok, err, panic, ◌>>=◌}
use ckb_miner_opt.Core.Transaction.{
  OutPoint, ProposalShortId, Transaction, input_pts, output_pts, proposal_short_id, out_point_key,
}
use ckb_miner_opt.Pool.Types.{DefectEntry, Entries}
use ckb_miner_opt.Pool.Edges.{or_empty}

abbrev pub Waiting : Type 0
Waiting = List (OutPoint × List ProposalShortId)

pub record OrphanPool : Type 0 where
  pub vertices : Entries DefectEntry
  pub edges : Waiting

abbrev pub no_orphans : OrphanPool
no_orphans = record { vertices = []; edges = [] }

-- The loop of `add_tx` over the unknown out points.
unfoldable pub push_edges : ProposalShortId → List OutPoint → Waiting → Waiting
push_edges id [] e = e
push_edges id (o ∷ os) e = push_edges id os (insert o (or_empty (get e o) ++ id ∷ []) e)

-- `add_tx`: the pool after it, and the entry that was replaced.
unfoldable pub add_orphan :
    Option ℕ → ℕ → Transaction → List OutPoint → OrphanPool → OrphanPool × Option DefectEntry
unfolding push_edges
add_orphan cycles size tx unknown p =
    let id = proposal_short_id tx in
    let entry : DefectEntry = record {
      transaction = tx;
      refs_count = length unknown;
      cycles = cycles;
      size = size;
    } in
    (
      record { vertices = insert id entry p.vertices; edges = push_edges id unknown p.edges },
      get p.vertices id,
    )

-- `edges.remove(&outpoint)` for each output, with the ids that go to the queue.
unfoldable pub take_edges : List OutPoint → Waiting → Waiting × List ProposalShortId
take_edges [] e = (e, [])
take_edges (o ∷ os) e =
    let (e', rest) = take_edges os (remove o e) in (e', or_empty (get e o) ++ rest)

-- The queue of `recursion_remove`; the fuel counts removals, and `none` is its end.
unfoldable pub drop_all : ℕ → List ProposalShortId → OrphanPool → Option OrphanPool
unfolding take_edges
drop_all fuel [] p = some p
drop_all zero (id ∷ queue) p = elim (get p.vertices id) [
  | none ↦ drop_all zero queue p
  | some _ ↦ none
]
drop_all (suc fuel) (id ∷ queue) p = elim (get p.vertices id) [
  | none ↦ drop_all (suc fuel) queue p
  | some entry ↦
      let (e, more) = take_edges (output_pts entry.transaction) p.edges in
      drop_all fuel (queue ++ more) (record { vertices = remove id p.vertices; edges = e })
]

unfoldable pub recursion_remove : ProposalShortId → OrphanPool → Option OrphanPool
recursion_remove id p = drop_all (length p.vertices) (id ∷ []) p

unfoldable pub recursion_remove_all : List ProposalShortId → OrphanPool → Option OrphanPool
unfolding recursion_remove
recursion_remove_all [] p = some p
recursion_remove_all (id ∷ ids) p = elim (recursion_remove id p) [
  | none ↦ none
  | some p' ↦ recursion_remove_all ids p'
]

-- The loop of `remove_conflict` over the inputs.
unfoldable pub remove_conflicts : List OutPoint → OrphanPool → Option OrphanPool
unfolding recursion_remove_all
remove_conflicts [] p = some p
remove_conflicts (i ∷ is) p =
    elim (recursion_remove_all (or_empty (get p.edges i)) (record p { edges = remove i p.edges })) [
      | none ↦ none
      | some p' ↦ remove_conflicts is p'
    ]

unfoldable pub remove_conflict : Transaction → OrphanPool → Option OrphanPool
unfolding remove_conflicts
remove_conflict tx p = remove_conflicts (input_pts tx) p

-- The pool, the output lists for the queue, and the entries that are complete.
pub record Released : Type 0 where
  pub pool : OrphanPool
  pub queue : List (List OutPoint)
  pub txs : List DefectEntry

pub data OutOfFuel : Type 0 where
  out_of_fuel : OutOfFuel

abbrev pub Releasing : Type 0 → Type 0
Releasing A = Outcome OutOfFuel A

-- The entry of an id that waited for an output; the decrement of its count is checked.
unfoldable pub release_entry : ProposalShortId → Released → DefectEntry → Releasing Released
release_entry cid s entry =
    let entry' = record entry { refs_count = entry.refs_count - 1 } in
    if entry.refs_count == 0
    then panic
    else if entry'.refs_count == 0
    then ok (record {
      pool = record s.pool { vertices = remove cid s.pool.vertices };
      queue = s.queue ++ output_pts entry'.transaction ∷ [];
      txs = s.txs ++ entry' ∷ [];
    })
    else ok (record s { pool = record s.pool { vertices = insert cid entry' s.pool.vertices } })

unfoldable pub release_one : ProposalShortId → Released → Releasing Released
unfolding release_entry
release_one cid s = elim (get s.pool.vertices cid) [
  | none ↦ ok s
  | some entry ↦ release_entry cid s entry
]

unfoldable pub release_ids : List ProposalShortId → Released → Releasing Released
unfolding release_one
release_ids [] s = ok s
release_ids (cid ∷ cids) s = release_one cid s >>= release_ids cids

-- The loop over one list of outputs.
unfoldable pub release_outputs : List OutPoint → Released → Releasing Released
unfolding release_ids
release_outputs [] s = ok s
release_outputs (o ∷ os) s =
    release_ids (or_empty (get s.pool.edges o))
      (record s { pool = record s.pool { edges = remove o s.pool.edges } })
    >>= release_outputs os

-- The `while` loop; the fuel counts the rounds.
unfoldable pub release_all : ℕ → Released → Releasing Released
unfolding release_outputs
release_all zero s = elim s.queue [ [] ↦ ok s | os ∷ queue ↦ err out_of_fuel ]
release_all (suc fuel) s = elim s.queue [
  | [] ↦ ok s
  | os ∷ queue ↦ release_outputs os (record s { queue = queue }) >>= release_all fuel
]

-- Each round after the first is for an entry that was removed.
unfoldable pub remove_by_ancestor : Transaction → OrphanPool → Releasing Released
unfolding remove_conflict release_all
remove_by_ancestor tx p = elim (remove_conflict tx p) [
  | none ↦ err out_of_fuel
  | some p' ↦
      release_all (suc (length p'.vertices))
        (record { pool = p'; queue = output_pts tx ∷ []; txs = [] })
]
