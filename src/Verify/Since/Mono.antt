-- ===== src/Verify/Since/Mono.antt =====
-- A lock that has opened stays open on the same chain.
use ckb_miner_opt.Base.{
  ℕ, ◌-◌, ◌≡◌, refl, Bool, true, false, not, Option, none, some, List, [], ◌∷◌, arith, All,
  if◌then◌else◌, ◌==◌,
}
use ckb_miner_opt.Base.Outcome.{Outcome, ok, err, panic, ◌>>=◌, ◌>>◌, refuse_if, >>=-eq-ok}
use ckb_miner_opt.Core.Transaction.{CellInput}
use ckb_miner_opt.Core.Cell.{CellMeta, BlockInfo, ResolvedOutPoint, ResolvedTransaction, cell_meta}
use ckb_miner_opt.Verify.Error.{TransactionError, immature, invalid_since}
use ckb_miner_opt.Verify.Since.Later.{
  Later, KnowsParent, KnowsCell, KnowsInput, median_time_mono, tip_mono,
}
use ckb_miner_opt.Verify.Since.{
  SinceMetric, SinceContext, block_number, epoch_number, timestamp, is_absolute, flags_is_valid,
  extract_metric, median_time, check_absolute, check_relative, verify_absolute_lock,
  verify_relative_lock, verify_since, verify_inputs, verify,
}

abbrev Check : Type 0
Check = Outcome TransactionError (Unit {0})

if_mono :
    (b : Bool) {x y x' y' : Check}
    → (x ≡ ok tt → x' ≡ ok tt)
    → (y ≡ ok tt → y' ≡ ok tt)
    → (if b then x else y) ≡ ok tt
    → (if b then x' else y') ≡ ok tt
if_mono true f g = f
if_mono false f g = g

bind_mono :
    {A : Type 0} (m : Outcome TransactionError A) {f g : A → Check}
    → ((a : A) → f a ≡ ok tt → g a ≡ ok tt)
    → (m >>= f) ≡ ok tt
    → (m >>= g) ≡ ok tt
bind_mono (ok a) k = k a
bind_mono (err e) k = λ h. cc
bind_mono panic k = λ h. cc

then_mono :
    {m m' x x' : Check}
    → (m ≡ ok tt → m' ≡ ok tt)
    → (Unit {0} → x ≡ ok tt → x' ≡ ok tt)
    → (m >> x) ≡ ok tt
    → (m' >> x') ≡ ok tt
then_mono {m} {m'} {x} {x'} f g h =
    let (_, first, second) = >>=-eq-ok m (λ _. x) h in rw (f first) (g tt second)

cell_mono :
    (ctx : SinceContext) (o : Option CellMeta) {f f' : CellMeta → Check} {x x' : Check}
    → ((m : CellMeta) → KnowsCell ctx (some m) → f m ≡ ok tt → f' m ≡ ok tt)
    → (x ≡ ok tt → x' ≡ ok tt)
    → KnowsCell ctx o
    → elim o [ none ↦ x | some m ↦ f m ] ≡ ok tt
    → elim o [ none ↦ x' | some m ↦ f' m ] ≡ ok tt
cell_mono ctx none f g known = g
cell_mono ctx (some m) f g known = f m known

module _ (early late : SinceContext) (later : Later early late) where
  check_absolute_mono :
      (m : Option SinceMetric) → check_absolute early m ≡ ok tt → check_absolute late m ≡ ok tt
  unfolding check_absolute
  check_absolute_mono none h = cc
  check_absolute_mono (some (block_number n)) h = ground (arith, later.number)
  check_absolute_mono (some (epoch_number n)) h = ground (arith, later.epoch)
  check_absolute_mono (some (timestamp t)) h =
      let (a, read, passed) = >>=-eq-ok (median_time early (early.block_number - 1)) _ h in
      let (b, read', grown) = tip_mono early late later a read in rw read' (ground arith)

  check_relative_mono :
      (info : BlockInfo) (m : Option SinceMetric)
      → KnowsParent early (some info)
      → check_relative early info m ≡ ok tt
      → check_relative late info m ≡ ok tt
  unfolding check_relative
  check_relative_mono info none known h = cc
  check_relative_mono info (some (block_number n)) known h = ground (arith, later.number)
  check_relative_mono info (some (epoch_number n)) known h = ground (arith, later.epoch)
  check_relative_mono info (some (timestamp t)) known h =
      let (a, read, rest) = >>=-eq-ok (median_time early (info.number - 1)) _ h in
      let (b, read', passed) = >>=-eq-ok (median_time early (early.block_number - 1)) _ rest in
      let (c, read'', grown) = tip_mono early late later b read' in
      rw (median_time_mono early late later (info.number - 1) known.0 a known.1 read, read'')
        (ground arith)

  verify_absolute_lock_mono :
      (since : ℕ)
      → verify_absolute_lock early since ≡ ok tt
      → verify_absolute_lock late since ≡ ok tt
  unfolding verify_absolute_lock
  verify_absolute_lock_mono since =
      if_mono (is_absolute since) (bind_mono (extract_metric since) check_absolute_mono) (λ h. h)

  relative_mono :
      (info : Option BlockInfo) (m : Outcome TransactionError (Option SinceMetric))
      → KnowsParent early info
      → elim info [ none ↦ err immature | some i ↦ m >>= check_relative early i ] ≡ ok tt
      → elim info [ none ↦ err immature | some i ↦ m >>= check_relative late i ] ≡ ok tt
  relative_mono none m known h = cc
  relative_mono (some i) m known h = bind_mono m (λ metric. check_relative_mono i metric known) h

  verify_relative_lock_mono :
      (since : ℕ) (meta : CellMeta)
      → KnowsCell early (some meta)
      → verify_relative_lock early since meta ≡ ok tt
      → verify_relative_lock late since meta ≡ ok tt
  unfolding verify_relative_lock
  verify_relative_lock_mono since meta known =
      if_mono (not (is_absolute since)) (relative_mono meta.block_info (extract_metric since) known)
        (λ h. h)

  -- For one input: if its lock was open at the earlier point, it is open at the later one.
  verify_since_mono :
      (since : ℕ) (meta : CellMeta)
      → KnowsCell early (some meta)
      → verify_since early since meta ≡ ok tt
      → verify_since late since meta ≡ ok tt
  unfolding verify_since
  verify_since_mono since meta known =
      if_mono (since == 0) (λ h. h)
        (bind_mono (refuse_if (not (flags_is_valid since)) invalid_since) (λ _.
          then_mono (verify_absolute_lock_mono since)
            (λ _. verify_relative_lock_mono since meta known)))

  verify_inputs_mono :
      (rs : List ResolvedOutPoint) (is : List CellInput)
      → All (KnowsInput early) rs
      → verify_inputs early rs is ≡ ok tt
      → verify_inputs late rs is ≡ ok tt
  unfolding verify_inputs
  verify_inputs_mono [] is known h = refl
  verify_inputs_mono (r ∷ rs) [] known h = refl
  verify_inputs_mono (r ∷ rs) (i ∷ is) known h =
      let rest = verify_inputs_mono rs is known.1 in
      cell_mono early (cell_meta r.cell)
        (λ meta found. then_mono (verify_since_mono i.since meta found) (λ _. rest)) rest known.0 h

  -- A transaction whose `since` locks are open at one point of a chain passes them at every later point
  -- of that chain. The later point has all blocks and headers of the earlier one; from the earlier point
  -- on each block's timestamp is above the median time of its parent, as the header verifier asks; the
  -- numbers did not fall, the earlier one is above the genesis block, the later one fits 64 bits, and the
  -- median counts some block; and the earlier point knows its own parent and the parents of the blocks that
  -- the input cells stand in.
  pub verify_mono :
      (rtx : ResolvedTransaction)
      → All (KnowsInput early) rtx.resolved_inputs
      → verify early rtx ≡ ok tt
      → verify late rtx ≡ ok tt
  unfolding verify
  verify_mono rtx = verify_inputs_mono rtx.resolved_inputs rtx.transaction.inputs
