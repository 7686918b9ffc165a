-- ===== src/Verify/Header/Valid.antt =====
-- Which headers the verifier of verification/src/header_verifier.rs accepts.
use ckb_miner_opt.Base.{
  ℕ, ◌+◌, ◌-◌, ◌≤◌, ◌<◌, ◌≡◌, inl, inr, Bool, true, not, Option, none, some, refl, subst, arith,
  Option-cases,
}
use ckb_miner_opt.Base.Outcome.{ok, err, refuse_if, >>=-eq-ok}
use ckb_miner_opt.Core.Block.{Header}
use ckb_miner_opt.Epoch.{EpochExt}
use ckb_miner_opt.Verify.MedianTime.{MedianTimeContext, block_median_time}
use ckb_miner_opt.Verify.Header.{
  Resolver, Check, unknown_parent, invalid_proof, verify_version, verify_number, header_version,
  allowed_future_blocktime, verify_timestamp, verify_epoch, verify,
}

module _ (ctx : MedianTimeContext) (now : ℕ) (pow : Header → Bool) (r : Resolver) where
  -- The header follows its parent, is newer than the median of the blocks before and not too far in
  -- the future, and is of the epoch and difficulty that the chain asks for.
  pub record ValidHeader (parent : Header) (epoch : EpochExt) (median : ℕ) : Type 0 where
    pub version : r.header.version ≡ header_version
    pub proof : pow r.header ≡ true
    pub known : r.parent ≡ some parent
    pub number : r.header.number ≡ parent.number + 1
    pub median_is : block_median_time ctx parent.number r.header.parent_hash ≡ some median
    pub newer : median < r.header.timestamp
    pub near : r.header.timestamp ≤ now + allowed_future_blocktime
    pub epoch_known : r.epoch ≡ some epoch
    pub epoch_number : r.header.epoch ≡ epoch.number
    pub difficulty : r.header.difficulty ≡ epoch.difficulty

  abbrev Timely : ℕ → Type 0
  Timely median =
      (block_median_time ctx (r.header.number - 1) r.header.parent_hash ≡ some median)
      × (median < r.header.timestamp)
      × (r.header.timestamp ≤ now + allowed_future_blocktime)

  verify_timestamp-Timely :
      0 < r.header.number → verify_timestamp ctx now r.header ≡ ok tt → (median : ℕ) × Timely median
  unfolding verify_timestamp
  verify_timestamp-Timely later h =
      elim (Option-cases (block_median_time ctx (r.header.number - 1) r.header.parent_hash)) [
        | inl missing ↦ absurd (ground arith)
        | inr (median, found) ↦ (median, ground arith)
      ]

  verify_epoch-matches :
      verify_epoch r ≡ ok tt
      → (e : EpochExt) × (r.epoch ≡ some e)
        × (r.header.epoch ≡ e.number)
        × (r.header.difficulty ≡ e.difficulty)
  unfolding verify_epoch
  verify_epoch-matches h = elim (Option-cases r.epoch) [
    | inl missing ↦ absurd (ground arith)
    | inr (e, found) ↦ (e, found, ground arith, ground arith)
  ]

  verify_number-next :
      (parent : Header)
      → verify_number parent r.header ≡ ok tt
      → r.header.number ≡ parent.number + 1
  verify_number-next parent h = ground arith

  parent_known :
      (p : Option Header) {f : Header → Check}
      → elim p [ none ↦ err (unknown_parent r.header.parent_hash) | some parent ↦ f parent ] ≡ ok tt
      → (parent : Header) × (p ≡ some parent) × (f parent ≡ ok tt)
  parent_known none h = cc
  parent_known (some parent) h = (parent, refl, h)

  -- A header that the verifier accepts has the supported version and a proof of work, has the
  -- number after its known parent's, is newer than the median time at that parent and at most 15
  -- seconds ahead of the clock, and has the number and the difficulty of the epoch resolved for
  -- it.
  pub verify-ValidHeader :
      verify ctx now pow r ≡ ok tt
      → (parent : Header) × (epoch : EpochExt) × (median : ℕ) × ValidHeader parent epoch median
  unfolding verify
  verify-ValidHeader h =
      let (_, versioned, h₁) = >>=-eq-ok (verify_version r.header) _ h in
      let (_, proved, h₂) = >>=-eq-ok (refuse_if (not (pow r.header)) invalid_proof) _ h₁ in
      let (parent, found, h₃) = parent_known r.parent h₂ in
      let (_, numbered, h₄) = >>=-eq-ok (verify_number parent r.header) _ h₃ in
      let (_, timely, of_epoch) = >>=-eq-ok (verify_timestamp ctx now r.header) _ h₄ in
      let next : r.header.number ≡ parent.number + 1 = verify_number-next parent numbered in
      let (median, (median_is, newer, near)) = verify_timestamp-Timely (omega arith) timely in
      let (epoch, epoch_known, same, difficulty) = verify_epoch-matches of_epoch in
      let before : r.header.number - 1 ≡ parent.number = omega arith in
      (
        parent,
        epoch,
        median,
        record {
          version = ground arith;
          proof = ground arith;
          known = found;
          number = next;
          median_is =
              subst (λ n. block_median_time ctx n r.header.parent_hash ≡ some median) before
                median_is;
          newer = newer;
          near = near;
          epoch_known = epoch_known;
          epoch_number = same;
          difficulty = difficulty;
        },
      )
