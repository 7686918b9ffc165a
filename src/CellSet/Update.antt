-- ===== src/CellSet/Update.antt =====
-- The part of `ChainState::update_tip` (shared/src/chain_state.rs) that changes the cell set, and
-- the batch that it writes to the store. `lookup` stands for the reads of the store: the block
-- number, the epoch, the position and the number of outputs of a transaction on the main chain.
use ckb_miner_opt.Base.{Option, none, some, List, [], ◌∷◌, ◌++◌, map}
use ckb_miner_opt.Base.Maps.{nat_key}
use ckb_miner_opt.Core.Transaction.{H256, CellOutPoint, OutPoint}
use ckb_miner_opt.Core.TransactionMeta.{TransactionMeta}
use ckb_miner_opt.CellSet.{
  CellSet, CellSetDiff, CellSetOpr, NewOutputs, delete, update, insert_cell, insert_transaction,
  remove_transaction, mark_dead, try_mark_live,
}

pub data BatchOp : Type 0 where
  update_cell_set : H256 → TransactionMeta → BatchOp
  delete_cell_set : H256 → BatchOp

abbrev pub Written : Type 0
Written = List (H256 × TransactionMeta)

abbrev pub keep_if_some {ℓ} : {A : Type ℓ} → Option A → H256 → List H256 → List H256
keep_if_some none h hs = hs
keep_if_some (some _) h hs = h ∷ hs

unfoldable pub remove_all : List H256 → CellSet → CellSet × List H256
remove_all [] cs = (cs, [])
remove_all (h ∷ hs) cs =
    let (cs', old) = remove_transaction h cs in
    let (cs'', rest) = remove_all hs cs' in (cs'', keep_if_some old h rest)

unfoldable pub insert_all : List (H256 × NewOutputs) → CellSet → CellSet × Written
insert_all [] cs = (cs, [])
insert_all ((h, o) ∷ os) cs =
    let (cs', m) = insert_transaction h o cs in
    let (cs'', rest) = insert_all os cs' in (cs'', (h, m) ∷ rest)

-- What the closure pushes: to `updated_new_inputs`, or to `removed_new_inputs`.
abbrev pub note : H256 → Option CellSetOpr → Written × List H256 → Written × List H256
note h none (updated, removed) = (updated, removed)
note h (some delete) (updated, removed) = (updated, h ∷ removed)
note h (some (update m)) (updated, removed) = ((h, m) ∷ updated, removed)

unfoldable pub mark_all : List OutPoint → CellSet → CellSet × (Written × List H256)
mark_all [] cs = (cs, ([], []))
mark_all (i ∷ is) cs = elim i.cell [
  | none ↦ mark_all is cs
  | some c ↦
      let (cs', opr) = mark_dead c cs in
      let (cs'', rest) = mark_all is cs' in (cs'', note c.tx_hash opr rest)
]

abbrev pub updates : Written → List BatchOp
updates = map (λ w. update_cell_set w.0 w.1)

abbrev pub deletes : List H256 → List BatchOp
deletes = map delete_cell_set

module _ (lookup : H256 → Option NewOutputs) where
  -- One spent cell comes back; the store must have its transaction if the set has not (`expect`).
  unfoldable pub revive : CellOutPoint → CellSet → Option (CellSet × TransactionMeta)
  revive c cs =
      let (marked, found) = try_mark_live c cs in
      elim found [
        | some m ↦ some (marked, m)
        | none ↦ elim (lookup c.tx_hash) [ none ↦ none | some o ↦ some (insert_cell c o cs) ]
      ]

  unfoldable pub revive_all : List OutPoint → CellSet → Option (CellSet × Written)
  revive_all [] cs = some (cs, [])
  revive_all (i ∷ is) cs = elim i.cell [
    | none ↦ revive_all is cs
    | some c ↦ elim (revive c cs) [
      | none ↦ none
      | some (cs', m) ↦ elim (revive_all is cs') [
        | none ↦ none
        | some (cs'', rest) ↦ some (cs'', (c.tx_hash, m) ∷ rest)
      ]
    ]
  ]

  -- The order of the four loops matters, as the source says.
  unfoldable pub update_cells : CellSetDiff → CellSet → Option (CellSet × List BatchOp)
  unfolding revive_all remove_all insert_all mark_all
  update_cells diff cs = elim (revive_all diff.old_inputs cs) [
    | none ↦ none
    | some (cs₁, revived) ↦
        let (cs₂, removed) = remove_all diff.old_outputs cs₁ in
        let (cs₃, inserted) = insert_all diff.new_outputs cs₂ in
        let (cs₄, marked) = mark_all diff.new_inputs cs₃ in
        some (
          cs₄,
          updates revived
              ++ (deletes removed ++ (updates inserted ++ (updates marked.0 ++ deletes marked.1))),
        )
  ]
