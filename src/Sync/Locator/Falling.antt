-- ===== src/Sync/Locator/Falling.antt =====
-- What `get_locator` of sync/src/types.rs returns along a chain of header views.
use ckb_miner_opt.Base.{
  ℕ, zero, suc, ◌+◌, ◌-◌, ◌*◌, ◌%◌, ◌≤◌, ◌<◌, ◌≡◌, refl, ap, ◌∙◌, sym, true, some, List, [], ◌∷◌,
  ◌++◌, map, arith, ltb, leb, ◌==◌, if◌then◌else◌, length, take, length-append, subst, Bool-cases,
  inl, inr,
}
use mathlib.Core.List.{append_assoc}
use ckb_miner_opt.Base.Outcome.{u64_modulus}
use ckb_miner_opt.Core.Transaction.{H256}
use ckb_miner_opt.Sync.HeaderView.{HeaderMap, view_hash, get_header_view, ancestor_of}
use ckb_miner_opt.Sync.HeaderView.Skip.{SkipChain, get_ancestor-view_at}
use ckb_miner_opt.Sync.Locator.{locate, get_locator}

-- Heights that begin at the first, go down at each step, and end with 0.
pub data Falling : ℕ → List ℕ → Type 0 where
  bottom : Falling 0 (0 ∷ [])
  below :
      {high low : ℕ} {rest : List ℕ} → low < high → Falling low rest → Falling high (high ∷ rest)

-- Heights one below the other: so many, or those down to 0 if there are fewer.
abbrev pub count_down : ℕ → ℕ → List ℕ
count_down zero k = []
count_down (suc n) zero = 0 ∷ []
count_down (suc n) (suc k) = suc k ∷ count_down n k

-- Such a beginning grows at the front: by the genesis block alone, by the last height above it, or by a
-- step of one, where more than one height is wanted.
take-genesis : (room : ℕ) → take room (0 ∷ []) ≡ count_down room 0
take-genesis zero = refl
take-genesis (suc zero) = refl
take-genesis (suc (suc room)) = refl

take-above :
    (room index next : ℕ)
    → 0 < index
    → index < next
    → (1 < room → next ≡ 1)
    → take room (index ∷ 0 ∷ []) ≡ count_down room index
take-above zero index next pos lt one = refl
take-above (suc zero) zero next pos lt one = refl
take-above (suc zero) (suc index) next pos lt one = refl
take-above (suc (suc room)) index next pos lt one = absurd (omega (arith, one (omega arith)))

take-step :
    (room index next : ℕ) (rest : List ℕ)
    → 0 < index
    → (1 < room → next ≡ 1)
    → take (room - 1) rest ≡ count_down (room - 1) (index - next)
    → take room (index ∷ rest) ≡ count_down room index
take-step zero index next rest pos one h = refl
take-step (suc room) zero next rest pos one h = absurd (omega arith)
take-step (suc zero) (suc index) next rest pos one h = refl
take-step (suc (suc room)) (suc index) next rest pos one h =
    let same : suc index - next ≡ index = omega (arith, one (omega arith)) in
    let room_left : suc (suc room) - 1 ≡ suc room = omega arith in
    ap (λ (ks : List ℕ). suc index ∷ ks) (rw (room_left, same) at h)

-- Doubling a step that fits two bits less than the word is exact.
abbrev pub quarter : ℕ
quarter = 0x4000_0000_0000_0000

abbrev next_step : ℕ → ℕ → ℕ
next_step count step = if leb 10 count then step * 2 % u64_modulus else step

next_step-pos : (count step : ℕ) → 0 < step → step ≤ quarter → 0 < next_step count step
next_step-pos count step pos bound = ground arith

next_step-one :
    (room count step : ℕ)
    → room ≡ 10 - count
    → (0 < room → step ≡ 1)
    → 1 < room
    → next_step (count + 1) step ≡ 1
next_step-one room count step left one more = let is_one = one (omega arith) in ground arith

module _ (m : HeaderMap) (height : ℕ) (chain : SkipChain (get_header_view m) height) where
  abbrev hash_at : ℕ → H256
  hash_at k = view_hash (chain.view_at k)

  ancestor_of-view_at :
      (k n : ℕ) → k ≤ height → n ≤ k → ancestor_of m (hash_at k) n ≡ some (chain.view_at n).inner
  unfolding ancestor_of
  ancestor_of-view_at k n le low =
      let found = chain.found k le in
      let reached : leb n k ≡ true = ground arith in
      rw (ancestor_of, found) (get_ancestor-view_at chain n k le ∙ rw reached)

  locate_turn :
      (turns step index k : ℕ) (locator : List H256) (next : ℕ)
      → k ≤ height
      → index ≤ k
      → next ≡ next_step (length (locator ++ hash_at index ∷ [])) step
      → locate m (hash_at 0) (suc turns) step locator index (hash_at k) ≡ (
          if ltb index next
          then some (
              if index == 0
              then locator ++ hash_at index ∷ []
              else (locator ++ hash_at index ∷ []) ++ hash_at 0 ∷ [])
          else locate m
              (hash_at 0)
              turns
              next
              (locator ++ hash_at index ∷ [])
              (index - next)
              (hash_at index))
  unfolding locate
  locate_turn turns step index k locator next le low e =
      rw (locate, ancestor_of-view_at k index le low, e)

  -- The loop adds falling heights to what was pushed before, without a gap up to ten entries.
  locate-Falling :
      (turns step index k : ℕ) (locator : List H256)
      → k ≤ height
      → index ≤ k
      → index < turns
      → index < quarter
      → 0 < step
      → step ≤ quarter
      → (0 < 10 - length locator → step ≡ 1)
      → (heights : List ℕ) × (locate m (hash_at 0) turns step locator index (hash_at k)
          ≡ some (locator ++ map hash_at heights))
        × Falling index heights
        × (take (10 - length locator) heights ≡ count_down (10 - length locator) index)
  locate-Falling zero step index k locator le low enough small pos bound first =
      absurd (omega arith)
  locate-Falling (suc turns) step index k locator le low enough small pos bound first =
      let pushed : List H256 = locator ++ hash_at index ∷ [] in
      let next : ℕ = next_step (length pushed) step in
      let turn = locate_turn turns step index k locator next le low refl in
      let grows = next_step-pos (length pushed) step pos bound in
      let room : ℕ = 10 - length locator in
      let longer : length pushed ≡ length locator + 1 =
        length-append locator (hash_at index ∷ []) in
      let one : 1 < room → next ≡ 1 =
        λ more. rw longer (next_step-one room (length locator) step refl first more) in
      elim (Bool-cases (ltb index next)) [
        | inl ends ↦ elim (Bool-cases (index == 0)) [
          | inl at_genesis ↦
              let zero_index : index ≡ 0 = ground arith in
              (
                0 ∷ [],
                turn ∙ rw (ends, at_genesis, zero_index),
                subst (λ n. Falling n (0 ∷ [])) (sym zero_index) bottom,
                rw zero_index (take-genesis room),
              )
          | inr above ↦ (
            index ∷ 0 ∷ [],
            turn
                ∙ rw (ends, above)
                    (ap some (append_assoc locator (hash_at index ∷ []) (hash_at 0 ∷ []))),
            below (ground arith) bottom,
            take-above room index next (ground arith) (ground arith) one,
          )
        ]
        | inr goes_on ↦
            let left : 10 - length pushed ≡ room - 1 = omega (arith, longer) in
            let (heights, located, falling, dense) =
              locate-Falling turns next (index - next) index pushed (omega arith) (omega arith)
                (ground arith) (omega arith) grows (ground arith)
                (λ more. one (omega (arith, left))) in
            (
              index ∷ heights,
              turn
                  ∙ (rw goes_on (
                      located
                      ∙ ap some (append_assoc locator (hash_at index ∷ []) (map hash_at heights)))),
              below (ground arith) falling,
              take-step room index next heights (ground arith) one
                  (subst (λ n. take n heights ≡ count_down n (index - next)) left dense),
            )
      ]

  -- Along a chain of header views below 2^62, `get_locator` ends and returns the hashes at falling
  -- heights, from the start down to the genesis block, the first ten one below the other.
  pub get_locator-Falling :
      (k : ℕ)
      → k ≤ height
      → k < quarter
      → (heights : List ℕ) × (get_locator m (hash_at 0) (chain.view_at k).inner
          ≡ some (map hash_at heights))
        × Falling k heights
        × (take 10 heights ≡ count_down 10 k)
  unfolding get_locator
  get_locator-Falling k le small = rw (chain.numbered k le) (
      locate-Falling (k + 1) 1 k k [] le (omega arith) (omega arith) small (omega arith)
        (omega arith) (λ more. refl))
