-- ===== src/Core/Cell/Providers/Order.antt =====
-- `BlockCellProvider::new` of core/src/cell.rs makes sure that transactions come in order.
use ckb_miner_opt.Base.{
  ℕ, zero, suc, ◌+◌, ◌≤◌, ◌<◌, ◌≡◌, sym, subst, ◌⊎◌, inl, inr, Option, none, some, List, [], ◌∷◌,
  arith, ℕ_discrete, leb, if◌then◌else◌, get_elem?,
}
use ckb_miner_opt.Base.Outcome.{ok, err, >>=-eq-ok}
use ckb_miner_opt.Base.Maps.{get, insert, get-insert, In, nat_key}
use ckb_miner_opt.Core.Transaction.{
  H256, CellOutPoint, OutPoint, Transaction, input_pts, out_point_key,
}
use ckb_miner_opt.Core.Block.{Block}
use ckb_miner_opt.Core.Cell.{UnresolvableError}
use ckb_miner_opt.Core.Cell.Providers.{
  BlockCellProvider, indices_from, index_of, check_order, check_orders, new_block_cells,
}

-- The map holds an index for the hash that is no lower.
abbrev AtLeast : ℕ → List (H256 × ℕ) → H256 → Type 0
AtLeast low m h = (l : ℕ) × (get m h ≡ some l) × (low ≤ l)

indices_from-keeps :
    (i : ℕ) (txs : List Transaction) (m : List (H256 × ℕ)) (h : H256) (l : ℕ)
    → get m h ≡ some l
    → l ≤ i
    → AtLeast l (indices_from i txs m) h
unfolding indices_from
indices_from-keeps i [] m h l found low = (l, found, omega arith)
indices_from-keeps i (tx ∷ txs) m h l found low = elim (ℕ_discrete tx.hash h) [
  | yes same ↦
      let (l', found', low') =
        indices_from-keeps (suc i) txs (insert tx.hash i m) h i
          (ground (arith, get-insert tx.hash h i m)) (omega arith) in
      (l', found', omega arith)
  | no other ↦
      indices_from-keeps (suc i) txs (insert tx.hash i m) h l
        (ground (arith, get-insert tx.hash h i m)) (omega arith)
]

indices_from-finds :
    (i j : ℕ) (txs : List Transaction) (m : List (H256 × ℕ)) (tx : Transaction)
    → get_elem? txs j ≡ some tx
    → AtLeast (i + j) (indices_from i txs m) tx.hash
unfolding indices_from
indices_from-finds i j [] m tx e = cc
indices_from-finds i zero (x ∷ txs) m tx e =
    let same : x.hash ≡ tx.hash = ground arith in
    let (l, found, low) =
      indices_from-keeps (suc i) txs (insert x.hash i m) tx.hash i
        (ground (arith, get-insert x.hash tx.hash i m)) (omega arith) in
    (l, found, omega arith)
indices_from-finds i (suc j) (x ∷ txs) m tx e =
    let (l, found, low) = indices_from-finds (suc i) j txs (insert x.hash i m) tx e in
    (l, found, omega arith)

check_order-lt :
    (m : List (H256 × ℕ)) (idx : ℕ) (os : List OutPoint) (o : OutPoint) (l : ℕ)
    → check_order m idx os ≡ ok tt
    → In o os
    → index_of m o ≡ some l
    → l < idx
unfolding check_order
check_order-lt m idx [] o l h member e = absurd member
check_order-lt m idx (x ∷ os) o l h (inl same) e =
    let here : index_of m x ≡ some l = subst (λ y. index_of m y ≡ some l) (sym same) e in
    ground arith
check_order-lt m idx (x ∷ os) o l h (inr later) e =
    check_order-lt m idx os o l (later_ok (index_of m x) h) later e
  where
    later_ok :
        (i : Option ℕ)
        → elim i [
          | none ↦ check_order m idx os
          | some i ↦
              if leb idx i then err (UnresolvableError.out_of_order x) else check_order m idx os
        ]
          ≡ ok tt
        → check_order m idx os ≡ ok tt
    later_ok none h = h
    later_ok (some i) h = ground arith

-- The points that a transaction refers to.
abbrev pub Refers : Transaction → OutPoint → Type 0
Refers tx o = In o tx.deps ⊎ In o (input_pts tx)

check_orders-lt :
    (m : List (H256 × ℕ)) (idx i : ℕ) (txs : List Transaction) (tx : Transaction) (o : OutPoint)
    (l : ℕ)
    → check_orders m idx txs ≡ ok tt
    → get_elem? txs i ≡ some tx
    → Refers tx o
    → index_of m o ≡ some l
    → l < idx + i
unfolding check_orders
check_orders-lt m idx i [] tx o l h e refers found = cc
check_orders-lt m idx zero (x ∷ txs) tx o l h e refers found =
    let (_, deps, h₁) = >>=-eq-ok (check_order m idx x.deps) _ h in
    let (_, inputs, _) = >>=-eq-ok (check_order m idx (input_pts x)) _ h₁ in
    let same : tx ≡ x = ground arith in
    elim (subst (λ t. Refers t o) same refers) [
      | inl member ↦ omega (arith, check_order-lt m idx x.deps o l deps member found)
      | inr member ↦ omega (arith, check_order-lt m idx (input_pts x) o l inputs member found)
    ]
check_orders-lt m idx (suc i) (x ∷ txs) tx o l h e refers found =
    let (_, _, h₁) = >>=-eq-ok (check_order m idx x.deps) _ h in
    let (_, _, rest) = >>=-eq-ok (check_order m idx (input_pts x)) _ h₁ in
    omega (arith, check_orders-lt m (suc idx) i txs tx o l rest e refers found)

-- When the cell provider of a block can be made, each transaction of the block that an input or a
-- dep of another refers to (by its hash) stands before that one in the block.
pub new_block_cells-Order :
    (b : Block) (i j : ℕ) (tx before : Transaction) (o : OutPoint) (c : CellOutPoint)
    {p : BlockCellProvider}
    → new_block_cells b ≡ ok p
    → get_elem? b.transactions i ≡ some tx
    → get_elem? b.transactions j ≡ some before
    → Refers tx o
    → o.cell ≡ some c
    → before.hash ≡ c.tx_hash
    → j < i
unfolding new_block_cells index_of
new_block_cells-Order b i j tx before o c h at_i at_j refers named same =
    let m = indices_from 0 b.transactions [] in
    let (_, checked, _) = >>=-eq-ok (check_orders m 0 b.transactions) _ h in
    let (l, found, low) = indices_from-finds 0 j b.transactions [] before at_j in
    let refers_to : index_of m o ≡ some l = ground arith in
    omega (arith, check_orders-lt m 0 i b.transactions tx o l checked at_i refers refers_to, low)
