-- ===== src/Epoch/Next.antt =====
-- What the epoch adjustment of spec/src/consensus.rs returns.
use ckb_miner_opt.Base.{
  ℕ, ◌+◌, ◌-◌, ◌*◌, ◌/◌, ◌%◌, ◌^◌, ◌≤◌, ◌<◌, ◌≡◌, max, arith, Bool, true, false, Option, some, none,
  ltb, ◌==◌, if◌then◌else◌,
}
use ckb_miner_opt.Base.Outcome.{ok, ◌>>=◌, >>=-eq-ok, expect, add_u64, sub_u64, u64_modulus}
use ckb_miner_opt.Core.Transaction.{H256}
use ckb_miner_opt.Core.Block.{Header}
use ckb_miner_opt.Epoch.{
  U256, U256Arithmetic, EpochExt, Consensus, min_difficulty, revision_epoch_length, Adjusted,
  previous_header, new_epoch, revision_epoch_difficulty, adjust, relax, adjust_since,
  next_epoch_ext, max_epoch_length, min_epoch_length, raw_epoch_length, raw_difficulty,
}
use ckb_miner_opt.Epoch.Reward.{Shares, issued, issued-length}

quot_rem : (a b : ℕ) → 0 < b → (a / b * b + a % b ≡ a) × (a % b < b)
quot_rem a b h = (grind arith, grind arith)

-- An epoch that begins after this header, of this length and difficulty.
abbrev pub Begins : Consensus → EpochExt → Header → ℕ → U256 → EpochExt → Type 0
Begins c last header next_length difficulty e =
    (e.number ≡ last.number + 1)
    × (e.start_number ≡ header.number + 1)
    × (e.length ≡ next_length)
    × (e.difficulty ≡ difficulty)
    × Shares c.epoch_reward e

new_epoch-Begins :
    (c : Consensus) (last : EpochExt) (header : Header) (next_length : ℕ) (difficulty : U256)
    (e : EpochExt)
    → 0 < next_length
    → new_epoch c last header next_length difficulty ≡ ok e
    → Begins c last header next_length difficulty e
new_epoch-Begins c last header next_length difficulty e pos h =
    ground (arith, quot_rem c.epoch_reward next_length pos)

-- Within half and twice the difficulty before, and not below the minimum.
abbrev pub Moderate : Consensus → U256 → U256 → Type 0
Moderate c before after = (min_difficulty c ≤ after) × (before / 2 ≤ after) × (after ≤ 2 * before)

-- What the next epoch is like.
abbrev pub Next : Consensus → EpochExt → Header → EpochExt → Type 0
Next c last header e =
    (e.number ≡ last.number + 1)
    × (e.start_number ≡ header.number + 1)
    × (min_epoch_length ≤ e.length)
    × (e.length ≤ max_epoch_length)
    × Shares c.epoch_reward e
    × Moderate c header.difficulty e.difficulty

else-eq-some :
    {A : Type 0} (b : Bool) {m : Adjusted (Option A)} {a : A}
    → (if b then ok none else m) ≡ ok (some a)
    → m ≡ ok (some a)
else-eq-some true h = cc
else-eq-some false h = h

then-eq-some :
    {A : Type 0} (b : Bool) {m : Adjusted (Option A)} {a : A}
    → (if b then m else ok none) ≡ ok (some a)
    → m ≡ ok (some a)
then-eq-some true h = h
then-eq-some false h = cc

found-eq-some :
    {A B : Type 0} (o : Option B) {f : B → Adjusted (Option A)} {a : A}
    → elim o [ none ↦ ok none | some b ↦ f b ] ≡ ok (some a)
    → (b : B) × (f b ≡ ok (some a))
found-eq-some none h = cc
found-eq-some (some b) h = (b, h)

module _ (u : U256Arithmetic) (c : Consensus) where
  revision_epoch_difficulty-Moderate :
      (before raw after : U256)
      → min_difficulty c ≤ before
      → before * 2 < 2 ^ 256
      → revision_epoch_difficulty u c before raw ≡ ok after
      → Moderate c before after
  unfolding revision_epoch_difficulty
  revision_epoch_difficulty-Moderate before raw after low fits h =
      let half = u.over-exact before 2 (λ e. omega (arith, e)) in
      let twice = u.times-exact before 2 fits in ground (arith, half, twice)

  -- A new epoch returned as the next one.
  wrapped-Next :
      (last : EpochExt) (header : Header) (next_length : ℕ) (difficulty : U256) (e : EpochExt)
      → min_epoch_length ≤ next_length
      → next_length ≤ max_epoch_length
      → Moderate c header.difficulty difficulty
      → (new_epoch c last header next_length difficulty >>= λ next. ok (some next)) ≡ ok (some e)
      → Next c last header e
  wrapped-Next last header next_length difficulty e low high moderate h =
      let (next, made, same) = >>=-eq-ok (new_epoch c last header next_length difficulty) _ h in
      let begins = new_epoch-Begins c last header next_length difficulty next (omega arith) made in
      ground arith

  relax-Next :
      (last : EpochExt) (header : Header) (e : EpochExt)
      → min_difficulty c ≤ header.difficulty
      → relax u c last header ≡ ok (some e)
      → Next c last header e
  unfolding relax
  relax-Next last header e low h =
      let (half, halved, made) = >>=-eq-ok (expect (u.over header.difficulty 2)) _ h in
      let exact = u.over-exact header.difficulty 2 (λ e. omega (arith, e)) in
      let half_is : half ≡ header.difficulty / 2 = ground arith in
      wrapped-Next last header max_epoch_length (max (min_difficulty c) half) e (omega arith)
        (omega arith) (ground arith) made

  adjust-Next :
      (last : EpochExt) (header previous : Header) (uncles : ℕ) (e : EpochExt)
      → min_difficulty c ≤ header.difficulty
      → header.difficulty * 2 < 2 ^ 256
      → adjust u c last header previous uncles ≡ ok (some e)
      → Next c last header e
  unfolding adjust
  adjust-Next last header previous uncles e low fits h =
      let (raw_length, _, h₁) =
        >>=-eq-ok (raw_epoch_length u c last uncles (header.timestamp - previous.timestamp)) _
          (else-eq-some (header.timestamp - previous.timestamp == 0) h) in
      let (raw, _, h₂) = >>=-eq-ok (raw_difficulty u c last header.difficulty uncles) _ h₁ in
      let (d, revised, h₃) = >>=-eq-ok (revision_epoch_difficulty u c header.difficulty raw) _ h₂ in
      wrapped-Next last header (revision_epoch_length raw_length) d e (omega arith) (omega arith)
        (revision_epoch_difficulty-Moderate header.difficulty raw d low fits revised) h₃

  adjust_since-Next :
      (last : EpochExt) (header previous : Header) (total_uncles_count : H256 → Option ℕ)
      (e : EpochExt)
      → min_difficulty c ≤ header.difficulty
      → header.difficulty * 2 < 2 ^ 256
      → adjust_since u c last header total_uncles_count previous ≡ ok (some e)
      → Next c last header e
  unfolding adjust_since
  adjust_since-Next last header previous total e low fits h =
      let (start, _, h₁) = >>=-eq-ok (expect (total previous.hash)) _ h in
      let (end, _, h₂) = >>=-eq-ok (expect (total header.hash)) _ h₁ in
      let (uncles, _, h₃) = >>=-eq-ok (sub_u64 end start) _ h₂ in branches (ltb 0 uncles) uncles h₃
    where
      branches :
          (some_uncles : Bool) (uncles : ℕ)
          → (if some_uncles then adjust u c last header previous uncles else relax u c last header)
            ≡ ok (some e)
          → Next c last header e
      branches false n h = relax-Next last header e low h
      branches true n h = adjust-Next last header previous n e low fits h

  -- Let the difficulty before be not below the genesis block's, and its double fit 256 bits. When the
  -- last block of an epoch then gives a next epoch, it has the next number, begins at the next block,
  -- and has a length between the two bounds; its rewards share out the epoch's reward; and its
  -- difficulty lies between half and twice the difficulty before, and not below the genesis block's.
  pub next_epoch_ext-Next :
      (last : EpochExt) (header : Header) (get_block_header : H256 → Option Header)
      (total_uncles_count : H256 → Option ℕ) (e : EpochExt)
      → min_difficulty c ≤ header.difficulty
      → header.difficulty * 2 < 2 ^ 256
      → next_epoch_ext u c last header get_block_header total_uncles_count ≡ ok (some e)
      → Next c last header e
  unfolding next_epoch_ext
  next_epoch_ext-Next last header get_block_header total_uncles_count e low fits h =
      let (end, _, h₁) = >>=-eq-ok (add_u64 last.start_number last.length) _ h in
      let (number, _, h₂) = >>=-eq-ok (sub_u64 end 1) _ h₁ in
      let (previous, h₃) =
        found-eq-some (previous_header c last get_block_header)
          (then-eq-some (header.number == number) h₂) in
      adjust_since-Next last header previous total_uncles_count e low fits h₃

  -- The blocks of a next epoch together issue the epoch's reward, by the checked additions of
  -- their block rewards, if the reward and the end of the epoch fit 64 bits, the difficulty
  -- before was not below the genesis block's, and its double fits 256 bits.
  pub next_epoch_ext-issued :
      (last : EpochExt) (header : Header) (get_block_header : H256 → Option Header)
      (total_uncles_count : H256 → Option ℕ) (e : EpochExt)
      → min_difficulty c ≤ header.difficulty
      → header.difficulty * 2 < 2 ^ 256
      → c.epoch_reward < u64_modulus
      → e.start_number + e.length < u64_modulus
      → next_epoch_ext u c last header get_block_header total_uncles_count ≡ ok (some e)
      → issued e e.length ≡ ok c.epoch_reward
  next_epoch_ext-issued last header get_block_header total_uncles_count e low fits small room h =
      let (_, _, _, _, shares, _) =
        next_epoch_ext-Next last header get_block_header total_uncles_count e low fits h in
      issued-length e c.epoch_reward shares small room
