-- ===== src/Sync/HeaderView/Insert.antt =====
-- `insert_header_view` of sync/src/types.rs keeps the skip pointers of the header map right.
use ckb_miner_opt.Base.{
  ℕ, suc, ◌≤◌, ◌<◌, ◌≡◌, ◌≢◌, refl, ◌⊎◌, inr, ite, if_pos, if_neg, true, none, some, arith, subst,
  ◌∙◌, sym, ap, ℕ_discrete, leb,
}
use ckb_miner_opt.Base.Maps.{get-insert, nat_key}
use ckb_miner_opt.Core.Transaction.{H256}
use ckb_miner_opt.Core.Block.{Header}
use ckb_miner_opt.Sync.HeaderView.{
  HeaderView, HeaderMap, Lookup, view_hash, view_number, get_skip_height, build_skip,
  get_header_view, insert_header_view,
}
use ckb_miner_opt.Sync.HeaderView.Skip.{
  SkipChain, get_skip_height-lt, get_skip_height-le, get_ancestor-view_at,
}

module _ {lookup : Lookup} {height : ℕ} (chain : SkipChain lookup height) where
  -- The pointer that `build_skip` gives to a view on top of a chain.
  build_skip-top :
      (v : HeaderView)
      → view_number v ≡ suc height
      → v.inner.parent_hash ≡ view_hash (chain.view_at height)
      → (build_skip lookup v).skip_hash
        ≡ some (view_hash (chain.view_at (get_skip_height (suc height))))
  unfolding build_skip
  build_skip-top v numbered linked =
      let down = get_skip_height-lt (suc height) (omega arith) in
      let found = chain.found height (omega arith) in
      let ancestor =
        get_ancestor-view_at chain (get_skip_height (suc height)) height (omega arith) in
      let reached : leb (get_skip_height (suc height)) height ≡ true = ground arith in
      rw (linked, found, numbered, ancestor, reached)

build_skip_inner : (lookup : Lookup) (v : HeaderView) → (build_skip lookup v).inner ≡ v.inner
unfolding build_skip
build_skip_inner lookup v = refl

get_header_view-insert :
    (hash other : H256) (v : HeaderView) (m : HeaderMap)
    → get_header_view (insert_header_view hash v m) other
      ≡ ite
          (ℕ_discrete hash other)
          (some (build_skip (get_header_view m) v))
          (get_header_view m other)
unfolding get_header_view insert_header_view
get_header_view-insert hash other v m =
    ground (arith, get-insert hash other (build_skip (get_header_view m) v) m.header_map)

module _ (m : HeaderMap) (height : ℕ) (chain : SkipChain (get_header_view m) height)
    (v : HeaderView) (numbered : view_number v ≡ suc height)
    (linked : v.inner.parent_hash ≡ view_hash (chain.view_at height))
    (fresh : (k : ℕ) → k ≤ height → view_hash (chain.view_at k) ≢ view_hash v) where
  abbrev added : HeaderView
  added = build_skip (get_header_view m) v

  abbrev after : HeaderMap
  after = insert_header_view (view_hash v) v m

  extended : ℕ → HeaderView
  extended k = ite (ℕ_discrete k (suc height)) added (chain.view_at k)

  extended-top : extended (suc height) ≡ added
  unfolding extended
  extended-top = if_pos (ℕ_discrete (suc height) (suc height)) refl _ _

  extended-old : (k : ℕ) → k ≤ height → extended k ≡ chain.view_at k
  unfolding extended
  extended-old k le = if_neg (ℕ_discrete k (suc height)) (λ e. absurd (omega arith)) _ _

  -- What holds of the new view and of each old one holds of the extended chain.
  each :
      (P : ℕ → HeaderView → Type 0)
      → P (suc height) added
      → ((k : ℕ) → k ≤ height → P k (chain.view_at k))
      → (k : ℕ) → k ≤ suc height
      → P k (extended k)
  each P top old k le = elim (ℕ_discrete k (suc height)) [
    | yes same ↦
        subst (λ n. P n (extended n)) (sym same) (subst (P (suc height)) (sym extended-top) top)
    | no other ↦
        let below : k ≤ height = omega (arith, other) in
        subst (P k) (sym (extended-old k below)) (old k below)
  ]

  added_inner : added.inner ≡ v.inner
  added_inner = build_skip_inner (get_header_view m) v

  found-old :
      (k : ℕ)
      → k ≤ height
      → get_header_view after (view_hash (chain.view_at k)) ≡ some (chain.view_at k)
  found-old k le =
      get_header_view-insert (view_hash v) (view_hash (chain.view_at k)) v m
      ∙ (if_neg (ℕ_discrete (view_hash v) (view_hash (chain.view_at k))) (λ e. fresh k le (sym e)) _
            _
          ∙ chain.found k le)

  found-top : get_header_view after (view_hash added) ≡ some added
  found-top =
      subst (λ (h : Header). get_header_view after h.hash ≡ some added) (sym added_inner)
        (get_header_view-insert (view_hash v) (view_hash v) v m
          ∙ if_pos (ℕ_discrete (view_hash v) (view_hash v)) refl _ _)

  links : (k : ℕ) → k < suc height → (extended (suc k)).inner.parent_hash ≡ view_hash (extended k)
  links k lt = elim (ℕ_discrete k height) [
    | yes top ↦
        let old = extended-old k (omega arith) in
        let new : extended (suc k) ≡ added = ap (λ n. extended (suc n)) top ∙ extended-top in
        ap (λ (w : HeaderView). w.inner.parent_hash) new
        ∙ (ap (λ (h : Header). h.parent_hash) added_inner
            ∙ (linked ∙ ap (λ n. view_hash (chain.view_at n)) (sym top) ∙ ap view_hash (sym old)))
    | no other ↦
        rw (extended-old k (omega arith), extended-old (suc k) (omega (arith, other)))
          (chain.linked k (omega (arith, other)))
  ]

  pointer-eq : added.skip_hash ≡ some (view_hash (extended (get_skip_height (suc height))))
  pointer-eq =
      let down = get_skip_height-lt (suc height) (omega arith) in
      rw (extended-old (get_skip_height (suc height)) (omega arith))
        (build_skip-top chain v numbered linked)

  abbrev Skips : ℕ → HeaderView → Type 0
  Skips k w = (w.skip_hash ≡ none) ⊎ (w.skip_hash ≡ some (view_hash (extended (get_skip_height k))))

  Skips-old : (k : ℕ) → k ≤ height → Skips k (chain.view_at k)
  Skips-old k le =
      rw (extended-old (get_skip_height k) (omega (arith, get_skip_height-le k))) (chain.skips k le)

  -- Inserting a header on top of such a chain, under a hash that the chain does not have, gives a
  -- chain that is one view longer, whose top is the header, with the right skip pointer.
  pub insert_header_view-SkipChain :
      (longer : SkipChain (get_header_view after) (suc height)) × ((longer.view_at
          (suc height)).inner
        ≡ v.inner)
      × ((longer.view_at (suc height)).skip_hash
          ≡ some (view_hash (longer.view_at (get_skip_height (suc height)))))
  insert_header_view-SkipChain = (
    record {
      view_at = extended;
      found = each (λ k w. get_header_view after (view_hash w) ≡ some w) found-top found-old;
      numbered =
          each (λ k w. view_number w ≡ k) (ap (λ (h : Header). h.number) added_inner ∙ numbered)
            chain.numbered;
      linked = links;
      skips = each Skips (inr pointer-eq) Skips-old;
    },
    ap (λ (w : HeaderView). w.inner) extended-top ∙ added_inner,
    ap (λ (w : HeaderView). w.skip_hash) extended-top ∙ pointer-eq,
  )
