-- ===== src/Verify/Tx/Balance.antt =====
-- What the verifiers of a transaction establish, against descriptions of their own.
use ckb_miner_opt.Base.{
  ℕ, ◌*◌, ◌≤◌, ◌<◌, ◌≡◌, refl, ◌↔◌, ◌⊎◌, inl, Bool, true, false, not, List, [], ◌∷◌, arith, ltb,
  if◌then◌else◌, All,
}
use ckb_miner_opt.Base.Outcome.{ok, ◌>>=◌, refuse_if, u64_modulus, >>=-eq-ok}
use ckb_miner_opt.Core.Capacity.{byte_shannons}
use ckb_miner_opt.Core.Capacity
use ckb_miner_opt.Core.Capacity.Sums.{sum, sum_from, sum_from-eq_checked}
use ckb_miner_opt.Core.Transaction.{CellOutput}
use ckb_miner_opt.Core.Transaction.Occupied.{
  is_lack_of_capacity, occupied_bytes, occupied_capacity-eq_bytes,
}
use ckb_miner_opt.Core.Cell.{ResolvedTransaction}
use ckb_miner_opt.Verify.Error.{from_capacity, outputs_sum_overflow}
use ckb_miner_opt.Verify.Tx.{
  Check, verify_outputs, verify_balance, verify_capacity, is_exempt, input_capacities,
  output_capacities,
}

-- A cell pays for the bytes that it takes.
abbrev pub Pays : CellOutput → Type 0
Pays o =
    (occupied_bytes o * byte_shannons < u64_modulus)
    × (occupied_bytes o * byte_shannons ≤ o.capacity)

-- The outputs hold no more than the inputs, and neither total leaves 64 bits.
abbrev pub Balances : ResolvedTransaction → Type 0
Balances rtx =
    (sum (input_capacities rtx) < u64_modulus)
    × (sum (output_capacities rtx) < u64_modulus)
    × (sum (output_capacities rtx) ≤ sum (input_capacities rtx))

verify_outputs_iff : (os : List CellOutput) → (verify_outputs os ≡ ok tt) ↔ All Pays os
unfolding verify_outputs is_lack_of_capacity Capacity.bytes
verify_outputs_iff [] = (λ _. tt, λ _. refl)
verify_outputs_iff (o ∷ os) =
    let (to, from) = verify_outputs_iff os in
    (
      λ h. ground (arith, occupied_capacity-eq_bytes o, to),
      λ h. ground (arith, occupied_capacity-eq_bytes o, from h.1),
    )

-- The comparison, over two lists of capacities.
compare_sums : Bool → List ℕ → List ℕ → Check
compare_sums exempt inputs outputs =
    if not exempt
    then (do
      inputs_total ← from_capacity (sum_from 0 inputs)
      outputs_total ← from_capacity (sum_from 0 outputs)
      refuse_if (ltb inputs_total outputs_total) outputs_sum_overflow)
    else ok tt

compare_sums_iff :
    (exempt : Bool) (inputs outputs : List ℕ)
    → (compare_sums exempt inputs outputs ≡ ok tt) ↔ (
        (exempt ≡ true)
        ⊎ ((sum inputs < u64_modulus) × (sum outputs < u64_modulus) × (sum outputs ≤ sum inputs)))
unfolding compare_sums
compare_sums_iff true inputs outputs = (λ _. inl refl, λ _. refl)
compare_sums_iff false inputs outputs =
    let added = sum_from-eq_checked inputs 0 (omega arith) in
    let added' = sum_from-eq_checked outputs 0 (omega arith) in
    (λ h. ground (arith, added, added'), λ h. ground (arith, added, added'))

verify_balance_iff :
    (rtx : ResolvedTransaction)
    → (verify_balance rtx ≡ ok tt) ↔ ((is_exempt rtx ≡ true) ⊎ Balances rtx)
unfolding verify_balance compare_sums
verify_balance_iff rtx =
    compare_sums_iff (is_exempt rtx) (input_capacities rtx) (output_capacities rtx)

-- The capacity verifier accepts exactly the transactions that are a cellbase or withdraw from the
-- DAO, or whose outputs hold no more capacity than their inputs with neither sum beyond 64 bits,
-- and whose outputs all have the capacity for the bytes that they take.
pub verify_capacity_iff :
    (rtx : ResolvedTransaction)
    → (verify_capacity rtx ≡ ok tt)
      ↔ (((is_exempt rtx ≡ true) ⊎ Balances rtx) × All Pays rtx.transaction.outputs)
unfolding verify_capacity
verify_capacity_iff rtx =
    let (to, from) = verify_balance_iff rtx in
    let (to', from') = verify_outputs_iff rtx.transaction.outputs in
    (
      λ h. let (_, first, second) = >>=-eq-ok (verify_balance rtx) _ h in (to first, to' second),
      λ h. rw (from h.0) (from' h.1),
    )
