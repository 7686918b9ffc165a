-- ===== src/Pool/Proposed/Cells.antt =====
-- What the proposed pool says of cells after a transaction was added or removed.
use ckb_miner_opt.Base.{
  ℕ, zero, suc, ◌+◌, ◌%◌, ◌<◌, ◌≡◌, refl, sym, ap, subst, Bool, true, false, Option, none, some,
  List, [], ◌∷◌, arith, if◌then◌else◌, get_elem?,
}
use ckb_miner_opt.Base.Maps.{get, contains_key, get-insert, nat_key, contains}
use ckb_miner_opt.Core.Capacity.{Capacity}
use ckb_miner_opt.Core.Transaction.{
  OutPoint, CellOutput, ProposalShortId, Transaction, get_output, out_point_key, output_pts,
  proposal_short_id, H256, u32_modulus, output_pts_from, new_cell,
}
use ckb_miner_opt.Core.Cell.{CellStatus, pool_cell}
use ckb_miner_opt.Pool.Types.{ProposedEntry, Entries, Insertion}
use ckb_miner_opt.Pool.Edges.{Edges, insert_inner, insert_outer, mark_inpool}
use ckb_miner_opt.Pool.Proposed.{ProposedPool, add_tx, proposed_cell, find_output, mark_outputs}

-- The out point has a spender in the edges, and is not an output of the pool that is free.
abbrev pub is_spent : Edges → OutPoint → Bool
is_spent e o = elim (get e.inner o) [
  | some (some _) ↦ true
  | some none ↦ false
  | none ↦ contains_key e.outer o
]

spend_one : ProposalShortId → OutPoint → ℕ × Edges → ℕ × Edges
spend_one id i (count, e) = elim (get e.inner i) [
  | some _ ↦ (count + 1, insert_inner i id e)
  | none ↦ (count, insert_outer i id e)
]

mark_outputs-inner :
    (os : List OutPoint) (o : OutPoint) (e : Edges)
    → get (mark_outputs os e).inner o ≡ (if contains os o then some none else get e.inner o)
unfolding mark_outputs contains
mark_outputs-inner [] o e = refl
mark_outputs-inner (x ∷ os) o e =
    ground (arith, mark_outputs-inner os o (mark_inpool x e), get-insert x o none e.inner)

output_pts-contains :
    {A : Type 0} (h : H256) (i n : ℕ) (outputs : List A) {a : A}
    → i + n < u32_modulus
    → get_elem? outputs n ≡ some a
    → contains (output_pts_from h i outputs) (new_cell h (i + n)) ≡ true
unfolding contains
output_pts-contains h i n [] small e = cc
output_pts-contains h i zero (x ∷ xs) small e =
    let low : i % u32_modulus ≡ i + 0 = omega arith in
    let same : new_cell h (i % u32_modulus) ≡ new_cell h (i + 0) = ap (new_cell h) low in
    ground arith
output_pts-contains h i (suc n) (x ∷ xs) small e =
    let shifted : suc i + n ≡ i + suc n = omega arith in
    let later = rw shifted at (output_pts-contains h (suc i) n xs (omega arith) e) in ground arith

get-place_self :
    (ins : Insertion ProposedEntry) (k : ProposalShortId) (v : ProposedEntry)
    (m : Entries ProposedEntry)
    → get (ins.place k v m) k ≡ some v
get-place_self ins k v m = ground (arith, ins.get-place k k v m)

module _ (ins : Insertion ProposedEntry) (cycles : ℕ) (fee : Capacity) (size : ℕ) where
  -- The edges after `add_tx`: the outputs are free, and every other input is spent.
  add_tx-inner :
      (tx : Transaction) (p : ProposedPool) (o : OutPoint)
      → contains (output_pts tx) o ≡ true
      → get (add_tx ins cycles fee size tx p).edges.inner o ≡ some none
  unfolding add_tx
  add_tx-inner tx p o h = rw (mark_outputs-inner (output_pts tx) o _, h)

  add_tx-find_output :
      (tx : Transaction) (p : ProposedPool) (n : ℕ)
      → find_output (add_tx ins cycles fee size tx p) (record { tx_hash = tx.hash; index = n })
        ≡ get_elem? tx.outputs n
  unfolding find_output add_tx
  add_tx-find_output tx p n =
      let pick : Option ProposedEntry → Option CellOutput =
        λ found. elim found [ none ↦ none | some e ↦ get_output e.transaction n ] in
      ap pick (get-place_self ins (proposal_short_id tx) _ p.vertices)

  -- Adding a transaction makes its outputs (of an index within 32 bits) live to the pool's cell
  -- provider, whatever the pool held before: also where a transaction of the pool already spends
  -- the output.
  pub add_tx-output_live :
      (tx : Transaction) (p : ProposedPool) (n : ℕ) {output : CellOutput}
      → n < u32_modulus
      → get_elem? tx.outputs n ≡ some output
      → proposed_cell (add_tx ins cycles fee size tx p) (new_cell tx.hash n)
        ≡ some (CellStatus.live (pool_cell output (record { tx_hash = tx.hash; index = n })))
  unfolding proposed_cell
  add_tx-output_live tx p n small e =
      let start : 0 + n ≡ n = omega arith in
      let own = rw start at (
        output_pts-contains tx.hash 0 n tx.outputs (subst (λ m. m < u32_modulus) (sym start) small)
          e) in
      let free = add_tx-inner tx p (new_cell tx.hash n) own in
      let found = add_tx-find_output tx p n in ground arith
