-- ===== src/Chain/Fork/Ranges.antt =====
-- Which blocks `find_fork` of chain/src/chain.rs detaches and attaches.
use ckb_miner_opt.Base.{
  ℕ, zero, suc, ◌+◌, ◌-◌, ◌≤◌, ◌<◌, ◌≡◌, ◌≢◌, refl, ap, ◌∙◌, sym, subst, ◌⊎◌, inl, inr, Bool,
  Option, some, List, ◌∷◌, ◌++◌, arith, if_pos, if_neg, ℕ_discrete,
}
use ckb_miner_opt.Core.Block.{Block}
use ckb_miner_opt.Core.Extras.{BlockExt}
use ckb_miner_opt.Chain.Fork.{
  ForkChanges, GlobalIndex, BlockStore, detach, detach_range, attach_above,
  find_fork_until_latest_common,
}
use ckb_miner_opt.Chain.Fork.Attaching.{
  up, down, block_hash, Branches, Dirty, index_at, changes_at, attach-Dirty,
}

up-snoc {ℓ} :
    {A : Type ℓ} (f : ℕ → A) (from count : ℕ) (rest : List A)
    → up f from count ++ f (from + count) ∷ rest ≡ up f from (suc count) ++ rest
up-snoc f from zero rest = ap (λ n. f n ∷ rest) (omega arith)
up-snoc f from (suc count) rest =
    ap (λ xs. f from ∷ xs)
      (ap (λ n. up f (suc from) count ++ f n ∷ rest) (omega arith)
        ∙ up-snoc f (suc from) count rest)

down-snoc {ℓ} :
    {A : Type ℓ} (f : ℕ → A) (from count : ℕ) (rest : List A)
    → down f (from + 1) count ++ f from ∷ rest ≡ down f from (suc count) ++ rest
down-snoc f from zero rest = ap (λ n. f n ∷ rest) (omega arith)
down-snoc f from (suc count) rest =
    ap (λ n. f n ∷ (down f (from + 1) count ++ f from ∷ rest)) (omega arith)
    ∙ ap (λ xs. f (from + suc count) ∷ xs) (down-snoc f from count rest)

module _ (s : BlockStore) (main side : ℕ → Block) (ext : ℕ → BlockExt) (tip new fork : ℕ)
    (b : Branches s main side ext tip new fork) where
  abbrev pub at : ℕ → Bool → GlobalIndex
  at = index_at s main side ext tip new fork b

  abbrev pub changed : ℕ → ℕ → List Block → List BlockExt → ForkChanges
  changed = changes_at s main side ext tip new fork b

  abbrev pub Noted : ℕ → Bool → List BlockExt → Type 0
  Noted = Dirty s main side ext tip new fork b

  detach-main :
      (k n count : ℕ) (detached : List Block) (exts : List BlockExt)
      → k ≤ tip
      → detach s k (changed n count detached exts) ≡ some (changed n count (main k ∷ detached) exts)
  unfolding detach
  detach-main k n count detached exts le = simp (detach, b.indexed k le, b.main_stored k le)

  pub detach_range-down :
      (turns k n count : ℕ) (detached : List Block) (exts : List BlockExt)
      → turns + k ≤ tip + 1
      → detach_range s turns k (changed n count detached exts)
        ≡ some (changed n count (down main k turns ++ detached) exts)
  unfolding detach_range
  detach_range-down zero k n count detached exts le = refl
  detach_range-down (suc turns) k n count detached exts le =
      simp (detach_range, detach-main k n count detached exts (omega arith))
        (detach_range-down turns (k + 1) n count (main k ∷ detached) exts (omega arith)
          ∙ ap (λ blocks. some (changed n count blocks exts)) (down-snoc main k turns detached))

  abbrev pub Reaches : ℕ → Option (GlobalIndex × ForkChanges) → List Block → Type 0
  Reaches low result detached =
      (count : ℕ) × (unseen : Bool) × (exts : List BlockExt) × (result
        ≡ some (at low unseen, changed low count detached exts))
      × (count + low ≡ new)
      × Noted low unseen exts

  pub attach_above-Reaches :
      (turns n low count : ℕ) (detached : List Block) (unseen : Bool) (exts : List BlockExt)
      → n ≡ turns + low
      → n < new
      → count + n ≡ new
      → Noted n unseen exts
      → Reaches low (attach_above s turns (at n unseen) (changed n count detached exts)) detached
  unfolding attach_above
  attach_above-Reaches zero n low count detached unseen exts e lt total d =
      subst (λ k. Reaches k (some (at n unseen, changed n count detached exts)) detached)
        (omega (arith, e)) (count, unseen, exts, refl, total, d)
  attach_above-Reaches (suc turns) zero low count detached unseen exts e lt total d =
      absurd (omega arith)
  attach_above-Reaches (suc turns) (suc n) low count detached unseen exts e lt total d =
      let (unseen', exts', attached, d') =
        attach-Dirty s main side ext tip new fork b n count detached unseen exts lt d in
      let (count', unseen'', exts'', reached, total', d'') =
        attach_above-Reaches turns n low (suc count) detached unseen' exts' (omega arith)
          (omega arith) (omega arith) d' in
      (count', unseen'', exts'', simp (attach_above, attached) reached, total', d'')

  Reaches-here :
      (n count : ℕ) (detached : List Block) (unseen : Bool) (exts : List BlockExt)
      → n ≡ fork
      → count + n ≡ new
      → Noted n unseen exts
      → Reaches fork
          (some (at n unseen, changed n count detached exts))
          (up main (suc fork) (n - fork) ++ detached)
  Reaches-here n count detached unseen exts e total d =
      let gone : n - n ≡ 0 = omega arith in
      subst
        (λ k.
          Reaches k (some (at n unseen, changed n count detached exts))
            (up main (suc k) (n - k) ++ detached))
        e
        (subst
          (λ j.
            Reaches n (some (at n unseen, changed n count detached exts))
              (up main (suc n) j ++ detached))
          (sym gone) (count, unseen, exts, refl, total, d))

  same_hash :
      (n : ℕ)
      → fork ≤ n
      → n ≤ tip
      → n < new
      → ((n ≡ fork) × (block_hash (main n) ≡ block_hash (side n)))
        ⊎ ((fork < n) × (block_hash (main n) ≢ block_hash (side n)))
  same_hash n low le lt = elim (ℕ_discrete n fork) [
    | yes e ↦ inl (e, subst (λ k. block_hash (main k) ≡ block_hash (side k)) (sym e) b.agree)
    | no other ↦ inr (omega (arith, other), b.apart n (omega (arith, other)) le lt)
  ]

  pub until-Reaches :
      (n count : ℕ) (detached : List Block) (unseen : Bool) (exts : List BlockExt)
      → fork ≤ n
      → n ≤ tip
      → n < new
      → count + n ≡ new
      → Noted n unseen exts
      → Reaches fork
          (find_fork_until_latest_common s n (at n unseen) (changed n count detached exts))
          (up main (suc fork) (n - fork) ++ detached)
  unfolding find_fork_until_latest_common
  until-Reaches zero count detached unseen exts low le lt total d =
      Reaches-here 0 count detached unseen exts (omega arith) total d
  until-Reaches (suc n) count detached unseen exts low le lt total d =
      elim (same_hash (suc n) low le lt) [
        | inl (here, same) ↦
            let met =
              if_pos {C = Option (GlobalIndex × ForkChanges)}
                (ℕ_discrete (block_hash (main (suc n))) (block_hash (side (suc n)))) same in
            simp (find_fork_until_latest_common, b.indexed (suc n) le, met)
              (Reaches-here (suc n) count detached unseen exts here total d)
        | inr (off, differ) ↦
            let (unseen', exts', attached, d') =
              attach-Dirty s main side ext tip new fork b n count (main (suc n) ∷ detached) unseen
                exts lt d in
            let (count', unseen'', exts'', reached, total', d'') =
              until-Reaches n (suc count) (main (suc n) ∷ detached) unseen' exts' (omega arith)
                (omega arith) (omega arith) (omega arith) d' in
            let on =
              if_neg {C = Option (GlobalIndex × ForkChanges)}
                (ℕ_discrete (block_hash (main (suc n))) (block_hash (side (suc n)))) differ in
            let top : suc fork + (n - fork) ≡ suc n = omega arith in
            let one_more : suc (n - fork) ≡ suc n - fork = omega arith in
            let blocks : up main (suc fork) (n - fork) ++ main (suc n) ∷ detached
                ≡ up main (suc fork) (suc n - fork) ++ detached =
              ap (λ k. up main (suc fork) (n - fork) ++ main k ∷ detached) (sym top)
              ∙ (up-snoc main (suc fork) (n - fork) detached
                  ∙ ap (λ k. up main (suc fork) k ++ detached) one_more) in
            (
              count',
              unseen'',
              exts'',
              simp
                  (
                    find_fork_until_latest_common,
                    b.indexed (suc n) le,
                    on,
                    detach-main (suc n) (suc n) count detached exts le,
                    attached,
                  )
                  (reached
                    ∙ ap (λ bs. some (at fork unseen'', changed fork count' bs exts'')) blocks),
              total',
              d'',
            )
      ]
