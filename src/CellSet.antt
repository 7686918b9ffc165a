-- ===== src/CellSet.antt =====
-- shared/src/cell_set.rs: the live transactions of the main chain, the changes that a
-- reorganisation makes to them, and a view of the set with changes laid over it.
pub mod Update
pub mod Overlay
use ckb_miner_opt.Base.{
  ℕ, ◌≡◌, refl, Bool, true, false, Option, none, some, List, [], ◌∷◌, if◌then◌else◌, length,
}
use ckb_miner_opt.Base.Maps.{
  get, insert, remove, contains_key, contains, set_insert, set_remove, extend, nat_key,
}
use ckb_miner_opt.Core.Transaction.{
  H256, CellOutPoint, OutPoint, Transaction, input_pts, is_cellbase, out_point_key,
}
use ckb_miner_opt.Core.TransactionMeta.{
  TransactionMeta, new, new_cellbase, set_dead, unset_dead, all_dead,
}
use ckb_miner_opt.Core.Block.{Block}

-- The tuple `(u64, u64, bool, usize)`: block number, epoch, cellbase or not, number of outputs.
pub record NewOutputs : Type 0 where
  pub number : ℕ
  pub epoch : ℕ
  pub cellbase : Bool
  pub count : ℕ

pub record CellSetDiff : Type 0 where
  pub old_inputs : List OutPoint
  pub old_outputs : List H256
  pub new_inputs : List OutPoint
  pub new_outputs : List (H256 × NewOutputs)

abbrev pub empty_diff : CellSetDiff
empty_diff = record { old_inputs = []; old_outputs = []; new_inputs = []; new_outputs = [] }

push_new_txs : Block → List Transaction → CellSetDiff → CellSetDiff
push_new_txs b [] diff = diff
push_new_txs b (tx ∷ txs) diff = push_new_txs b txs (record diff {
  new_inputs = extend diff.new_inputs (input_pts tx);
  new_outputs =
      insert tx.hash
        (record {
          number = b.header.number;
          epoch = b.header.epoch;
          cellbase = is_cellbase tx;
          count = length tx.outputs;
        })
        diff.new_outputs;
})

unfoldable pub push_new : Block → CellSetDiff → CellSetDiff
unfolding push_new_txs
push_new b diff = push_new_txs b b.transactions diff

push_old_txs : List Transaction → CellSetDiff → CellSetDiff
push_old_txs [] diff = diff
push_old_txs (tx ∷ txs) diff = push_old_txs txs (record diff {
  old_inputs = extend diff.old_inputs (input_pts tx);
  old_outputs = set_insert tx.hash diff.old_outputs;
})

unfoldable pub push_old : Block → CellSetDiff → CellSetDiff
unfolding push_old_txs
push_old b diff = push_old_txs b.transactions diff

pub record CellSet : Type 0 where
  pub inner : List (H256 × TransactionMeta)

abbrev pub Metas : Type 0
Metas = List (H256 × TransactionMeta)

pub data CellSetOpr : Type 0 where
  delete : CellSetOpr
  update : TransactionMeta → CellSetOpr

-- The `if cellbase { new_cellbase(..) } else { new(..) }` of three functions.
unfoldable pub new_meta : NewOutputs → Bool → TransactionMeta
unfolding new new_cellbase
new_meta o dead =
    if o.cellbase
    then new_cellbase o.number o.epoch o.count dead
    else new o.number o.epoch o.count dead

unfoldable pub put : H256 → TransactionMeta → CellSet → CellSet
put h m cs = record { inner = insert h m cs.inner }

-- The set after the call, and its result.
unfoldable pub insert_cell : CellOutPoint → NewOutputs → CellSet → CellSet × TransactionMeta
unfolding new_meta
insert_cell cell o cs =
    let meta = unset_dead cell.index (new_meta o true) in
    (record { inner = insert cell.tx_hash meta cs.inner }, meta)

unfoldable pub insert_transaction : H256 → NewOutputs → CellSet → CellSet × TransactionMeta
unfolding new_meta
insert_transaction h o cs =
    let meta = new_meta o false in (record { inner = insert h meta cs.inner }, meta)

unfoldable pub remove_transaction : H256 → CellSet → CellSet × Option TransactionMeta
remove_transaction h cs = (record { inner = remove h cs.inner }, get cs.inner h)

-- The entry stays in the set, also when all of its cells are dead.
unfoldable pub mark_dead : CellOutPoint → CellSet → CellSet × Option CellSetOpr
mark_dead cell cs = elim (get cs.inner cell.tx_hash) [
  | none ↦ (cs, none)
  | some m ↦
      let meta = set_dead cell.index m in
      (
        record { inner = insert cell.tx_hash meta cs.inner },
        some (if all_dead meta then CellSetOpr.delete else CellSetOpr.update meta),
      )
]

unfoldable pub try_mark_live : CellOutPoint → CellSet → CellSet × Option TransactionMeta
try_mark_live cell cs = elim (get cs.inner cell.tx_hash) [
  | none ↦ (cs, none)
  | some m ↦
      let meta = unset_dead cell.index m in
      (record { inner = insert cell.tx_hash meta cs.inner }, some meta)
]

pub record CellSetOverlay : Type 0 where
  pub origin : Metas
  pub new : Metas
  pub removed : List H256

-- `CellSetOverlay::get`
unfoldable pub overlay_get : CellSetOverlay → H256 → Option TransactionMeta
overlay_get o h =
    if contains o.removed h
    then none
    else elim (get o.new h) [ none ↦ get o.origin h | some m ↦ some m ]

-- The four loops of `new_overlay`.
unfoldable pub removed_by : Metas → List H256 → List H256
removed_by inner [] = []
removed_by inner (h ∷ hs) =
    let rest = removed_by inner hs in if contains_key inner h then set_insert h rest else rest

unfoldable pub lay_outputs : List (H256 × NewOutputs) → Metas × List H256 → Metas × List H256
lay_outputs [] s = s
lay_outputs ((h, o) ∷ os) (new, removed) =
    lay_outputs os (insert h (new_meta o false) new, set_remove h removed)

-- `entry(hash).or_insert_with(|| meta.clone())`, then the change to the entry.
unfoldable pub touch_cell :
    (ℕ → TransactionMeta → TransactionMeta) → Metas → CellOutPoint → Metas → Metas
touch_cell change inner c new = elim (get inner c.tx_hash) [
  | none ↦ new
  | some m ↦
      insert c.tx_hash (change c.index (elim (get new c.tx_hash) [ none ↦ m | some m' ↦ m' ])) new
]

unfoldable pub touch : (ℕ → TransactionMeta → TransactionMeta) → Metas → OutPoint → Metas → Metas
unfolding touch_cell
touch change inner input new = elim input.cell [
  | none ↦ new
  | some c ↦ touch_cell change inner c new
]

unfoldable pub touch_all :
    (ℕ → TransactionMeta → TransactionMeta) → Metas → List OutPoint → Metas → Metas
touch_all change inner [] new = new
touch_all change inner (i ∷ is) new = touch_all change inner is (touch change inner i new)

unfoldable pub new_overlay : CellSet → CellSetDiff → CellSetOverlay
unfolding removed_by lay_outputs touch_all touch
new_overlay cs diff =
    let (laid, removed) = lay_outputs diff.new_outputs ([], removed_by cs.inner diff.old_outputs) in
    let revived = touch_all unset_dead cs.inner diff.old_inputs laid in
    record {
      origin = cs.inner;
      new = touch_all set_dead cs.inner diff.new_inputs revived;
      removed = removed;
    }
