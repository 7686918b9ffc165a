-- ===== src/CellSet/Overlay.antt =====
-- The overlay of shared/src/cell_set.rs against the update that it anticipates.
use ckb_miner_opt.Base.{
  ◌≡◌, ◌≢◌, refl, sym, subst, ◌∙◌, false, Option, none, some, List, [], ◌∷◌, ◌++◌, arith, All, ℕ,
}
use ckb_miner_opt.Base.Maps.{get, insert, contains, contains_key, set_remove, get-insert, nat_key}
use ckb_miner_opt.Core.Transaction.{H256, CellOutPoint, OutPoint}
use ckb_miner_opt.Core.TransactionMeta.{TransactionMeta, set_dead, unset_dead}
use ckb_miner_opt.CellSet.{
  Metas, CellSet, CellSetDiff, NewOutputs, new_meta, overlay_get, removed_by, lay_outputs,
  touch_cell, touch, touch_all, new_overlay, insert_transaction, mark_dead,
}
use ckb_miner_opt.CellSet.Update.{
  BatchOp, deletes, insert_all, mark_all, remove_all, revive_all, update_cells, updates,
}

module _ (change : ℕ → TransactionMeta → TransactionMeta) (inner : Metas) where
  touch-get_absent :
      (i : OutPoint) (new : Metas) (h : H256)
      → get inner h ≡ none
      → get (touch change inner i new) h ≡ get new h
  unfolding touch
  touch-get_absent i new h absent = grind (arith, get-insert)

  -- The loops over the inputs leave every transaction alone that the set does not hold.
  pub touch_all-get_absent :
      (is : List OutPoint) (new : Metas) (h : H256)
      → get inner h ≡ none
      → get (touch_all change inner is new) h ≡ get new h
  unfolding touch_all
  touch_all-get_absent [] new h absent = refl
  touch_all-get_absent (i ∷ is) new h absent =
      touch_all-get_absent is (touch change inner i new) h absent ∙ touch-get_absent i new h absent

-- For a transaction that the set does not hold, the overlay takes no account of the inputs of
-- the diff: it shows what the new and old outputs alone would show.
pub overlay-ignores_inputs :
    (cs : CellSet) (diff : CellSetDiff) (h : H256)
    → get cs.inner h ≡ none
    → overlay_get (new_overlay cs diff) h
      ≡ overlay_get (new_overlay cs (record diff { old_inputs = []; new_inputs = [] })) h
unfolding new_overlay overlay_get touch_all
overlay-ignores_inputs cs diff h absent =
    let laid = lay_outputs diff.new_outputs ([], removed_by cs.inner diff.old_outputs) in
    rw (
      touch_all-get_absent set_dead cs.inner diff.new_inputs
          (touch_all unset_dead cs.inner diff.old_inputs laid.0) h absent,
      touch_all-get_absent unset_dead cs.inner diff.old_inputs laid.0 h absent,
    )

-- The overlay's entry where nothing is removed.
abbrev view : Metas → Metas → H256 → Option TransactionMeta
view new inner h = elim (get new h) [ none ↦ get inner h | some m ↦ some m ]

abbrev Agrees : Metas → Metas → CellSet → Type 0
Agrees new inner cs = (h : H256) → view new inner h ≡ get cs.inner h

view-nil : (inner : Metas) (h : H256) → view [] inner h ≡ get inner h
unfolding get
view-nil inner h = refl

-- An input refers to a transaction of the set, or to none that the diff creates.
abbrev NotNew : Metas → Metas → OutPoint → Type 0
NotNew inner new i = elim i.cell [
  | none ↦ Unit {0}
  | some c ↦ get inner c.tx_hash ≡ none → get new c.tx_hash ≡ none
]

touch_cell-Agrees :
    (c : CellOutPoint) (new inner : Metas) (cs : CellSet)
    → Agrees new inner cs
    → (get inner c.tx_hash ≡ none → get new c.tx_hash ≡ none)
    → Agrees (touch_cell set_dead inner c new) inner (mark_dead c cs).0
unfolding touch_cell mark_dead
touch_cell-Agrees c new inner cs agree known h =
    grind (arith, get-insert, agree h, agree c.tx_hash, known)

mark_one : OutPoint → CellSet → CellSet
mark_one i cs = elim i.cell [ none ↦ cs | some c ↦ (mark_dead c cs).0 ]

mark_all-cons :
    (i : OutPoint) (is : List OutPoint) (cs : CellSet)
    → (mark_all (i ∷ is) cs).0 ≡ (mark_all is (mark_one i cs)).0
unfolding mark_all mark_one
mark_all-cons i is cs = ground arith

-- By cases on the cell of the input; `b` is its block hash.
touch_cases :
    (o : Option CellOutPoint) (b : Option H256) (new inner : Metas) (cs : CellSet)
    → Agrees new inner cs
    → NotNew inner new (record { cell = o; block_hash = b })
    → Agrees
        (touch set_dead inner (record { cell = o; block_hash = b }) new)
        inner
        (mark_one (record { cell = o; block_hash = b }) cs)
unfolding touch mark_one
touch_cases none b new inner cs agree known = agree
touch_cases (some c) b new inner cs agree known = touch_cell-Agrees c new inner cs agree known

-- What one input touches, another still finds as it was, if the set does not hold it.
touch-NotNew :
    (i : OutPoint) (o : Option CellOutPoint) (b : Option H256) (new inner : Metas)
    → NotNew inner new (record { cell = o; block_hash = b })
    → NotNew inner (touch set_dead inner i new) (record { cell = o; block_hash = b })
touch-NotNew i none b new inner known = tt
touch-NotNew i (some c) b new inner known =
    λ absent. touch-get_absent set_dead inner i new c.tx_hash absent ∙ known absent

touch-All-NotNew :
    (i : OutPoint) (is : List OutPoint) (new inner : Metas)
    → All (NotNew inner new) is
    → All (NotNew inner (touch set_dead inner i new)) is
touch-All-NotNew i [] new inner known = tt
touch-All-NotNew i (j ∷ is) new inner known =
    (touch-NotNew i j.cell j.block_hash new inner known.0, touch-All-NotNew i is new inner known.1)

touch_all-Agrees :
    (is : List OutPoint) (new inner : Metas) (cs : CellSet)
    → Agrees new inner cs
    → All (NotNew inner new) is
    → Agrees (touch_all set_dead inner is new) inner (mark_all is cs).0
unfolding touch_all mark_all
touch_all-Agrees [] new inner cs agree known = agree
touch_all-Agrees (i ∷ is) new inner cs agree known =
    subst (Agrees (touch_all set_dead inner is (touch set_dead inner i new)) inner)
      (sym (mark_all-cons i is cs))
      (touch_all-Agrees is (touch set_dead inner i new) inner (mark_one i cs)
        (touch_cases i.cell i.block_hash new inner cs agree known.0)
        (touch-All-NotNew i is new inner known.1))

lay_outputs-Agrees :
    (os : List (H256 × NewOutputs)) (new inner : Metas) (removed : List H256) (cs : CellSet)
    → Agrees new inner cs
    → Agrees (lay_outputs os (new, removed)).0 inner (insert_all os cs).0
unfolding lay_outputs insert_all insert_transaction
lay_outputs-Agrees [] new inner removed cs agree = agree
lay_outputs-Agrees ((h, o) ∷ os) new inner removed cs agree =
    lay_outputs-Agrees os (insert h (new_meta o false) new) inner (set_remove h removed) _ (λ j.
      ground (
        arith,
        agree j,
        get-insert h j (new_meta o false) new,
        get-insert h j (new_meta o false) cs.inner,
      ))

contains_key-cons :
    (j : H256) (o : NewOutputs) (os : List (H256 × NewOutputs)) (h : H256)
    → contains_key ((j, o) ∷ os) h ≡ false
    → (j ≢ h) × (contains_key os h ≡ false)
unfolding get
contains_key-cons j o os h e = ground arith

lay_outputs-get_absent :
    (os : List (H256 × NewOutputs)) (new : Metas) (removed : List H256) (h : H256)
    → contains_key os h ≡ false
    → get (lay_outputs os (new, removed)).0 h ≡ get new h
unfolding lay_outputs
lay_outputs-get_absent [] new removed h e = refl
lay_outputs-get_absent ((j, o) ∷ os) new removed h e =
    let (other, later) = contains_key-cons j o os h e in
    lay_outputs-get_absent os (insert j (new_meta o false) new) (set_remove j removed) h later
    ∙ ground (arith, get-insert j h (new_meta o false) new)

lay_outputs-removed :
    (os : List (H256 × NewOutputs)) (new : Metas) → (lay_outputs os (new, [])).1 ≡ []
unfolding lay_outputs set_remove
lay_outputs-removed [] new = refl
lay_outputs-removed ((h, o) ∷ os) new = lay_outputs-removed os (insert h (new_meta o false) new)

-- No input spends an output of the diff.
abbrev pub SpendsOld : CellSetDiff → OutPoint → Type 0
SpendsOld diff i = elim i.cell [
  | none ↦ Unit {0}
  | some c ↦ contains_key diff.new_outputs c.tx_hash ≡ false
]

SpendsOld-NotNew :
    (diff : CellSetDiff) (inner : Metas) (o : Option CellOutPoint) (b : Option H256)
    → SpendsOld diff (record { cell = o; block_hash = b })
    → NotNew inner (lay_outputs diff.new_outputs ([], [])).0 (record { cell = o; block_hash = b })
unfolding get
SpendsOld-NotNew diff inner none b h = tt
SpendsOld-NotNew diff inner (some c) b h =
    λ _. lay_outputs-get_absent diff.new_outputs [] [] c.tx_hash h

All-SpendsOld-NotNew :
    (diff : CellSetDiff) (inner : Metas) (is : List OutPoint)
    → All (SpendsOld diff) is
    → All (NotNew inner (lay_outputs diff.new_outputs ([], [])).0) is
All-SpendsOld-NotNew diff inner [] h = tt
All-SpendsOld-NotNew diff inner (i ∷ is) h =
    (SpendsOld-NotNew diff inner i.cell i.block_hash h.0, All-SpendsOld-NotNew diff inner is h.1)

-- What the two loops that are left make of the set, where nothing is detached.
update_cells-attached :
    (lookup : H256 → Option NewOutputs) (cs : CellSet) (diff : CellSetDiff)
    → diff.old_inputs ≡ []
    → diff.old_outputs ≡ []
    → (ops : List BatchOp) × (update_cells lookup diff cs
        ≡ some ((mark_all diff.new_inputs (insert_all diff.new_outputs cs).0).0, ops))
unfolding update_cells revive_all remove_all
update_cells-attached lookup cs diff no_inputs no_outputs =
    let (inserted_cells, inserted) = insert_all diff.new_outputs cs in
    let marked = (mark_all diff.new_inputs inserted_cells).1 in
    (
      updates inserted ++ (updates marked.0 ++ deletes marked.1),
      rw (update_cells, no_inputs, no_outputs),
    )

-- Where nothing is detached and no new input spends an output of the same diff, the cell set part of
-- `update_tip` succeeds, and the overlay shows at every transaction exactly the set that it leaves.
pub overlay-eq_update :
    (lookup : H256 → Option NewOutputs) (cs : CellSet) (diff : CellSetDiff)
    → diff.old_inputs ≡ []
    → diff.old_outputs ≡ []
    → All (SpendsOld diff) diff.new_inputs
    → (left : CellSet) × (ops : List BatchOp) × (update_cells lookup diff cs ≡ some (left, ops))
      × ((h : H256) → overlay_get (new_overlay cs diff) h ≡ get left.inner h)
unfolding new_overlay overlay_get touch_all removed_by contains
overlay-eq_update lookup cs diff no_inputs no_outputs old =
    let (ops, updated) = update_cells-attached lookup cs diff no_inputs no_outputs in
    (
      (mark_all diff.new_inputs (insert_all diff.new_outputs cs).0).0,
      ops,
      updated,
      λ h.
          rw (no_inputs, no_outputs, lay_outputs-removed diff.new_outputs [])
            (touch_all-Agrees diff.new_inputs _ cs.inner _
              (lay_outputs-Agrees diff.new_outputs [] cs.inner [] cs (view-nil cs.inner))
              (All-SpendsOld-NotNew diff cs.inner diff.new_inputs old) h),
    )
