-- ===== src/Base/Seen.antt =====
-- The idiom `let mut seen = HashSet::new(); xs.iter().all(|x| seen.insert(x))`.
use mathlib.Core.Path.{◌≡◌, refl}
use mathlib.Core.Logic.{◌↔◌}
use mathlib.Core.Bool.{Bool, true, false}
use mathlib.Core.List.{List, [], ◌∷◌}
use native.Mathlib.Omega.{arith}
use ckb_miner_opt.Base.Tests.{if◌then◌else◌}
use ckb_miner_opt.Base.Maps.{Key, contains, Distinct}

module _ {K : Type 0} ⦃d : Key K⦄ where
  unfoldable pub all_new_from : List K → List K → Bool
  all_new_from seen [] = true
  all_new_from seen (k ∷ ks) = if contains seen k then false else all_new_from (k ∷ seen) ks

  unfoldable pub all_new : List K → Bool
  unfolding all_new_from
  all_new ks = all_new_from [] ks

  contains-cons_self : (k : K) (s : List K) → contains (k ∷ s) k ≡ true
  unfolding contains
  contains-cons_self k s = ground arith

  contains-cons_of : (k j : K) (s : List K) → contains s j ≡ true → contains (k ∷ s) j ≡ true
  unfolding contains
  contains-cons_of k j s h = ground arith

  contains_apart :
      (k j : K) (ks seen : List K)
      → contains seen k ≡ false
      → contains seen j ≡ true
      → contains ks j ≡ false
      → contains (k ∷ ks) j ≡ false
  unfolding contains
  contains_apart k j ks seen fresh old apart = ground arith

  not_seen :
      (k : K) (ks seen : List K)
      → (contains seen k ≡ true → contains (k ∷ ks) k ≡ false)
      → contains seen k ≡ false
  unfolding contains
  not_seen k ks seen apart = ground arith

  still_apart :
      (k j : K) (ks seen : List K)
      → contains ks k ≡ false
      → contains (k ∷ seen) j ≡ true
      → (contains seen j ≡ true → contains (k ∷ ks) j ≡ false)
      → contains ks j ≡ false
  unfolding contains
  still_apart k j ks seen new old apart = ground arith

  nothing_seen : (k : K) (ks : List K) → contains [] k ≡ true → contains ks k ≡ false
  unfolding contains
  nothing_seen k ks h = cc

  Distinct-of-all_new :
      (ks seen : List K)
      → all_new_from seen ks ≡ true
      → Distinct ks × ((k : K) → contains seen k ≡ true → contains ks k ≡ false)
  unfolding all_new_from
  Distinct-of-all_new [] seen h = (tt, λ k _. unfold contains in refl)
  Distinct-of-all_new (k ∷ ks) seen h =
      let fresh : contains seen k ≡ false = ground arith in
      let rest : all_new_from (k ∷ seen) ks ≡ true = ground arith in
      let (distinct, apart) = Distinct-of-all_new ks (k ∷ seen) rest in
      (
        (apart k (contains-cons_self k seen), distinct),
        λ j old. contains_apart k j ks seen fresh old (apart j (contains-cons_of k j seen old)),
      )

  new_of-Distinct :
      (ks seen : List K)
      → Distinct ks
      → ((k : K) → contains seen k ≡ true → contains ks k ≡ false)
      → all_new_from seen ks ≡ true
  unfolding all_new_from
  new_of-Distinct [] seen h apart = refl
  new_of-Distinct (k ∷ ks) seen h apart = rw (
    not_seen k ks seen (apart k),
    new_of-Distinct ks (k ∷ seen) h.1 (λ j old. still_apart k j ks seen h.0 old (apart j)),
  )

  -- The test passes exactly when the elements are pairwise different.
  pub all_new_iff : (ks : List K) → (all_new ks ≡ true) ↔ Distinct ks
  unfolding all_new
  all_new_iff ks =
      (λ h. (Distinct-of-all_new ks [] h).0, λ h. new_of-Distinct ks [] h (λ k. nothing_seen k ks))
