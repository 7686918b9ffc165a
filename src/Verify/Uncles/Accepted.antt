-- ===== src/Verify/Uncles/Accepted.antt =====
-- Which uncles the verifier of verification/src/uncles_verifier.rs lets a block include.
use ckb_miner_opt.Base.{
  ℕ, ◌%◌, ◌≤◌, ◌<◌, ◌≡◌, refl, ◌↔◌, true, false, List, [], ◌∷◌, arith, ltb, ◌==◌, if◌then◌else◌,
  length, All,
}
use ckb_miner_opt.Base.Maps.{contains, Distinct, nat_key}
use ckb_miner_opt.Base.Outcome.{ok, err, panic, ◌>>◌, refuse_if}
use ckb_miner_opt.Base.Seen.{all_new, all_new_from, all_new_iff}
use ckb_miner_opt.Core.Transaction.{u32_modulus}
use ckb_miner_opt.Core.Block.{UncleBlock, Block, is_genesis}
use ckb_miner_opt.Verify.Uncles.{
  UncleContext, UncleRules, uncle_hashes, is_double_inclusion, verify_uncle, verify_each, verify,
  Check, over_count,
}

-- A check that passes before another.
then_iff : (m n : Check) → ((m >> n) ≡ ok tt) ↔ ((m ≡ ok tt) × (n ≡ ok tt))
then_iff (ok _) n = (λ h. (refl, h), λ h. h.1)
then_iff (err e) n = (λ h. cc, λ h. cc)
then_iff panic n = (λ h. cc, λ h. cc)

module _ (rules : UncleRules) (ctx : UncleContext) (b : Block) where
  -- An uncle that may be included: of the block's epoch and difficulty, below the block, not part of
  -- the chain, with a proof of work and with proposals that are not too many and all different.
  pub record Eligible (u : UncleBlock) : Type 0 where
    pub difficulty : u.header.difficulty ≡ rules.epoch.difficulty
    pub epoch : u.header.epoch ≡ rules.epoch.number
    pub number : u.header.number < b.header.number
    pub unused : is_double_inclusion ctx u.header.hash ≡ false
    pub few_proposals : length u.proposals ≤ rules.max_block_proposals_limit
    pub proposals_hash : u.header.proposals_hash ≡ rules.cal_proposals_hash u.proposals
    pub proposals_differ : Distinct u.proposals
    pub proof : rules.verify_header u.header ≡ true

  verify_uncle-Eligible :
      (included : List ℕ) (u : UncleBlock)
      → verify_uncle rules ctx b included u ≡ ok tt
      → (contains included u.header.hash ≡ false) × Eligible u
  unfolding verify_uncle
  verify_uncle-Eligible included u h = (
    ground arith,
    record {
      difficulty = ground arith;
      epoch = ground arith;
      number = ground arith;
      unused = ground arith;
      few_proposals = ground arith;
      proposals_hash = ground arith;
      proposals_differ = (all_new_iff u.proposals).0 (ground arith);
      proof = ground arith;
    },
  )

  Eligible-verify_uncle :
      (included : List ℕ) (u : UncleBlock)
      → contains included u.header.hash ≡ false
      → Eligible u
      → verify_uncle rules ctx b included u ≡ ok tt
  unfolding verify_uncle
  Eligible-verify_uncle included u fresh e =
      let new = (all_new_iff u.proposals).1 e.proposals_differ in
      ground (
        arith, e.difficulty, e.epoch, e.number, e.unused, e.few_proposals, e.proposals_hash,
        e.proof, new,
      )

  verify_each_iff :
      (included : List ℕ) (us : List UncleBlock)
      → (verify_each rules ctx b included us ≡ ok tt)
        ↔ (All Eligible us × (all_new_from included (uncle_hashes us) ≡ true))
  unfolding verify_each all_new_from
  verify_each_iff included [] = (λ _. (tt, refl), λ _. refl)
  verify_each_iff included (u ∷ us) =
      let (split, join) =
        then_iff (verify_uncle rules ctx b included u)
          (verify_each rules ctx b (u.header.hash ∷ included) us) in
      let (forth, back) = verify_each_iff (u.header.hash ∷ included) us in
      (
        λ h.
            let (now, later) = split h in
            let (fresh, eligible) = verify_uncle-Eligible included u now in
            let (rest, new) = forth later in ((eligible, rest), ground arith),
        λ h.
            let fresh : contains included u.header.hash ≡ false = ground arith in
            let new : all_new_from (u.header.hash ∷ included) (uncle_hashes us) ≡ true =
              ground arith in
            join (Eligible-verify_uncle included u fresh h.0.0, back (h.0.1, new)),
      )

  -- What comes after the count and the hash.
  abbrev rest_of : List UncleBlock → Check
  rest_of us =
      let uncles_count = length us % u32_modulus in
      let max_uncles_num = rules.max_uncles_num % u32_modulus in
      if uncles_count == 0
      then ok tt
      else (refuse_if (is_genesis b) (over_count 0 uncles_count)
          >> refuse_if (ltb max_uncles_num uncles_count) (over_count max_uncles_num uncles_count)
          >> verify_each rules ctx b [] us)

  rest_of_iff :
      (us : List UncleBlock)
      → length us < u32_modulus
      → rules.max_uncles_num < u32_modulus
      → 0 < b.header.number
      → (rest_of us ≡ ok tt)
        ↔ ((length us ≤ rules.max_uncles_num) × All Eligible us × Distinct (uncle_hashes us))
  unfolding contains
  rest_of_iff [] few few_max later = (λ _. (omega arith, tt, tt), λ _. refl)
  rest_of_iff (u ∷ us) few few_max later =
      let (forth, back) = verify_each_iff [] (u ∷ us) in
      let (distinct, new) = all_new_iff (uncle_hashes (u ∷ us)) in
      (
        λ h.
            let (eligible, fresh) = forth (ground arith) in
            (ground arith, eligible, distinct (unfold all_new in fresh)),
        λ h. let passed = back (h.1, unfold all_new in new h.2) in ground (arith, h.0, passed),
      )

  -- The uncles as a whole.
  abbrev pub Acceptable : Type 0
  Acceptable =
      (b.header.uncles_count ≡ length b.uncles)
      × (rules.cal_uncles_hash b.uncles ≡ b.header.uncles_hash)
      × (length b.uncles ≤ rules.max_uncles_num)
      × All Eligible b.uncles
      × Distinct (uncle_hashes b.uncles)

  -- The verifier accepts the uncles of a block that is not the genesis block exactly when header
  -- and block agree on their number and hash, there are not too many, each is eligible (same
  -- epoch and difficulty, lower number, not included by the chain before, few and different
  -- proposals that its header commits to, and a proof of work), and no two are the same. The
  -- number of uncles and its limit fit 32 bits.
  pub verify-Acceptable :
      length b.uncles < u32_modulus
      → rules.max_uncles_num < u32_modulus
      → 0 < b.header.number
      → (verify rules ctx b ≡ ok tt) ↔ Acceptable
  unfolding verify
  verify-Acceptable few few_max later =
      let (forth, back) = rest_of_iff b.uncles few few_max later in
      (
        λ h.
            let passed : rest_of b.uncles ≡ ok tt = ground arith in
            let (some_room, eligible, distinct) = forth passed in
            (ground arith, ground arith, some_room, eligible, distinct),
        λ h. let passed = back (h.2, h.3, h.4) in ground (arith, h.0, h.1, passed),
      )
