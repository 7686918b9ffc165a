-- ===== src/Sync/HeaderView/Skip.antt =====
-- The search by skip pointers in sync/src/types.rs finds what following the parents finds.
use Prim.Native.Nat.{min, bit_and, digits, bit_and-bitwise}
use ckb_miner_opt.Base.{
  ℕ, zero, suc, ◌-◌, ◌/◌, ◌≤◌, ◌<◌, ◌≡◌, refl, ◌⊎◌, inl, inr, true, false, none, some, arith, subst,
  ◌∙◌, ℕ_discrete, leb, if◌then◌else◌, Bool-cases,
}
use ckb_miner_opt.Sync.HeaderView.{
  HeaderView, Lookup, view_hash, view_number, invert_lowest_one, get_skip_height, follows_skip,
  walk_back, get_ancestor,
}

and_digits-le : (n a b : ℕ) → digits (λ b. zero) min n a b ≤ b
and_digits-le zero zero b = omega arith
and_digits-le zero (suc a) b = omega arith
and_digits-le (suc n) zero b = omega arith
and_digits-le (suc n) (suc a) b = omega (arith, and_digits-le n (suc a / 2) (b / 2))

bit_and-le : (a b : ℕ) → bit_and a b ≤ b
bit_and-le a b = rw (bit_and-bitwise a b) (and_digits-le a a b)

invert_lowest_one-le : (n : ℕ) → invert_lowest_one n ≤ n - 1
unfolding invert_lowest_one
invert_lowest_one-le n = bit_and-le n (n - 1)

-- A skip goes down.
pub get_skip_height-lt : (n : ℕ) → 0 < n → get_skip_height n < n
unfolding get_skip_height
get_skip_height-lt n pos = ground (
  arith,
  invert_lowest_one-le n,
  invert_lowest_one-le (n - 1),
  invert_lowest_one-le (invert_lowest_one (n - 1)),
)

zero_stays : get_skip_height 0 ≤ 0
unfolding get_skip_height
zero_stays = omega arith

pub get_skip_height-le : (n : ℕ) → get_skip_height n ≤ n
get_skip_height-le n = elim (ℕ_discrete n 0) [
  | yes at_zero ↦ rw at_zero (zero_stays)
  | no other ↦ omega (arith, other, get_skip_height-lt n)
]

-- A chain of views up to a height: each is found under its hash, has its height as its number, and
-- names the one below as its parent; a skip pointer, if there is one, leads to the skip height.
pub record SkipChain (lookup : Lookup) (height : ℕ) : Type 0 where
  pub view_at : ℕ → HeaderView
  pub found : (k : ℕ) → k ≤ height → lookup (view_hash (view_at k)) ≡ some (view_at k)
  pub numbered : (k : ℕ) → k ≤ height → view_number (view_at k) ≡ k
  pub linked : (k : ℕ) → k < height → (view_at (suc k)).inner.parent_hash ≡ view_hash (view_at k)
  pub skips :
      (k : ℕ)
      → k ≤ height
      → ((view_at k).skip_hash ≡ none)
        ⊎ ((view_at k).skip_hash ≡ some (view_hash (view_at (get_skip_height k))))

follows_skip-ge :
    (number walk : ℕ) → follows_skip number walk ≡ true → number ≤ get_skip_height walk
unfolding follows_skip
follows_skip-ge number walk h = ground arith

module _ {lookup : Lookup} {height : ℕ} (chain : SkipChain lookup height) where
  walk_parent :
      (turns number k : ℕ)
      → number ≤ k
      → k < height
      → ((chain.view_at (suc k)).skip_hash ≡ none) ⊎ (follows_skip number (suc k) ≡ false)
      → walk_back lookup (suc turns) number (chain.view_at (suc k)) (suc k)
        ≡ walk_back lookup turns number (chain.view_at k) k
  unfolding walk_back
  walk_parent turns number k le lt (inl no_skip) =
      let linked = chain.linked k lt in
      let found = chain.found k (omega arith) in
      let above : leb (suc k) number ≡ false = ground arith in
      let back : suc k - 1 ≡ k = omega arith in rw (above, no_skip, linked, found, back)
  walk_parent turns number k le lt (inr stays) = ground (arith, chain.linked k lt, chain.found k)

  walk_skip :
      (turns number k : ℕ)
      → number ≤ k
      → k < height
      → (chain.view_at (suc k)).skip_hash
        ≡ some (view_hash (chain.view_at (get_skip_height (suc k))))
      → follows_skip number (suc k) ≡ true
      → walk_back lookup (suc turns) number (chain.view_at (suc k)) (suc k)
        ≡ walk_back lookup turns number
            (chain.view_at (get_skip_height (suc k)))
            (get_skip_height (suc k))
  unfolding walk_back
  walk_skip turns number k le lt skip follows =
      let found =
        chain.found (get_skip_height (suc k)) (omega (arith, get_skip_height-lt (suc k))) in
      let above : leb (suc k) number ≡ false = ground arith in rw (above, skip, follows, found)

  walk_back_end :
      (turns number : ℕ)
      → walk_back lookup turns number (chain.view_at number) number
        ≡ some (chain.view_at number).inner
  unfolding walk_back
  walk_back_end zero number = refl
  walk_back_end (suc turns) number = ground arith

  walk_back-view_at :
      (turns number k : ℕ)
      → k - number ≤ turns
      → number ≤ k
      → k ≤ height
      → walk_back lookup turns number (chain.view_at k) k ≡ some (chain.view_at number).inner
  walk_back-view_at turns number zero enough le lt =
      subst
        (λ n. walk_back lookup turns number (chain.view_at n) n ≡ some (chain.view_at number).inner)
        (omega arith) (walk_back_end turns number)
  walk_back-view_at zero number (suc k) enough le lt =
      subst (λ n. walk_back lookup 0 number (chain.view_at n) n ≡ some (chain.view_at number).inner)
        (omega arith) (walk_back_end 0 number)
  walk_back-view_at (suc turns) number (suc k) enough le lt = elim (ℕ_discrete number (suc k)) [
    | yes same ↦
        subst
          (λ n.
            walk_back lookup (suc turns) number (chain.view_at n) n
            ≡ some (chain.view_at number).inner)
          same (walk_back_end (suc turns) number)
    | no other ↦
        let below : number ≤ k = omega (arith, other) in
        let by_parent =
          λ (h : ((chain.view_at (suc k)).skip_hash ≡ none)
              ⊎ (follows_skip number (suc k) ≡ false)).
            walk_parent turns number k below lt h
            ∙ walk_back-view_at turns number k (omega arith) below (omega arith) in
        elim (chain.skips (suc k) lt) [
          | inl no_skip ↦ by_parent (inl no_skip)
          | inr skip ↦ elim (Bool-cases (follows_skip number (suc k))) [
            | inr stays ↦ by_parent (inr stays)
            | inl follows ↦
                let down = get_skip_height-lt (suc k) (omega arith) in
                walk_skip turns number k below lt skip follows
                ∙ walk_back-view_at turns number (get_skip_height (suc k)) (omega arith)
                    (follows_skip-ge number (suc k) follows) (omega arith)
          ]
        ]
  ]

  -- Along a chain of views whose skip pointers are right or absent, the search for an ancestor ends and
  -- finds what following the parents one by one finds: the header of the chain at that height, and
  -- none above the start.
  pub get_ancestor-view_at :
      (number k : ℕ)
      → k ≤ height
      → get_ancestor lookup (chain.view_at k) number
        ≡ (if leb number k then some (chain.view_at number).inner else none)
  unfolding get_ancestor
  get_ancestor-view_at number k le =
      let numbered = chain.numbered k le in
      rw numbered (ground (arith, walk_back-view_at (k - number) number k (omega arith)))
