-- ===== src/Base/Maps.antt =====
-- The standard library's `HashMap` and `HashSet` (with the Fnv hasher) as lists of entries. Nothing
-- here depends on the hash; a theorem about a program that iterates over one holds for every order.
use mathlib.Core.Path.{◌≡◌, refl}
use mathlib.Core.Logic.{ite}
use mathlib.Core.Bool.{Bool, true, false}
use mathlib.Core.List.{List, [], ◌∷◌, ◌++◌}
use mathlib.Core.Option.{Option, none, some}
use Prim.Native.Nat.{ℕ, ◌≤◌, ◌<◌}
use native.Mathlib.Omega.{arith}
unfoldable pub use native.Mathlib.Decide.{ℕ_discrete}
use ckb_miner_opt.Base.Tests.{if◌then◌else◌}
use ckb_miner_opt.Base.Lists.{length, Any}

-- `K: Eq`, as a decision.
pub record Key {ℓ} (K : Type ℓ) : Type ℓ where
  pub dec : Discrete K

instance abbrev pub nat_key : Key ℕ
nat_key = record { dec = ℕ_discrete }

module _ {K V : Type 0} ⦃d : Key K⦄ where
  unfoldable pub get : List (K × V) → K → Option V
  get [] k = none
  get ((j, v) ∷ m) k = ite (d.dec j k) (some v) (get m k)

  -- The old value is `get m k`.
  unfoldable pub insert : K → V → List (K × V) → List (K × V)
  insert k v [] = (k, v) ∷ []
  insert k v ((j, w) ∷ m) = ite (d.dec j k) ((k, v) ∷ m) ((j, w) ∷ insert k v m)

  unfoldable pub remove : K → List (K × V) → List (K × V)
  remove k [] = []
  remove k ((j, w) ∷ m) = let rest = remove k m in ite (d.dec j k) rest ((j, w) ∷ rest)

  abbrev pub contains_key : List (K × V) → K → Bool
  contains_key m k = elim (get m k) [ none ↦ false | some _ ↦ true ]

  pub get-insert :
      (k j : K) (v : V) (m : List (K × V))
      → get (insert k v m) j ≡ ite (d.dec k j) (some v) (get m j)
  unfolding get insert
  get-insert k j v [] = refl
  get-insert k j v ((i, w) ∷ m) = ground (arith, get-insert k j v m)

  pub get-remove :
      (k j : K) (m : List (K × V)) → get (remove k m) j ≡ ite (d.dec k j) none (get m j)
  unfolding get remove
  get-remove k j [] = ground arith
  get-remove k j ((i, w) ∷ m) = ground (arith, get-remove k j m)

  pub get-insert_self : (k : K) (v : V) (m : List (K × V)) → get (insert k v m) k ≡ some v
  get-insert_self k v m = ground (arith, get-insert k k v m)

  pub get-remove_self : (k : K) (m : List (K × V)) → get (remove k m) k ≡ none
  get-remove_self k m = ground (arith, get-remove k k m)

  pub length-remove-le : (k : K) (m : List (K × V)) → length (remove k m) ≤ length m
  unfolding remove
  length-remove-le k [] = omega arith
  length-remove-le k ((j, w) ∷ m) = ground (arith, length-remove-le k m)

  -- Removing a key that is there makes the map smaller.
  pub length-remove-lt :
      (k : K) (m : List (K × V)) (v : V) → get m k ≡ some v → length (remove k m) < length m
  unfolding get remove
  length-remove-lt k [] v h = cc
  length-remove-lt k ((j, w) ∷ m) v h = ground (arith, length-remove-lt k m v, length-remove-le k m)

  pub get-append :
      (m n : List (K × V)) (k : K)
      → get (m ++ n) k ≡ elim (get m k) [ none ↦ get n k | some v ↦ some v ]
  unfolding get
  get-append [] n k = refl
  get-append ((j, w) ∷ m) n k = ground (arith, get-append m n k)

module _ {K : Type 0} ⦃d : Key K⦄ where
  unfoldable pub contains : List K → K → Bool
  contains [] k = false
  contains (j ∷ s) k = ite (d.dec j k) true (contains s k)

  -- The Boolean result of the source's `insert` is the negation of `contains s k`.
  abbrev pub set_insert : K → List K → List K
  set_insert k s = if contains s k then s else k ∷ s

  abbrev pub In : K → List K → Type 0
  In k s = Any (λ j. j ≡ k) s

  -- The keys of a list are pairwise different.
  abbrev pub Distinct : List K → Type 0
  Distinct [] = Unit
  Distinct (k ∷ s) = (contains s k ≡ false) × Distinct s

  pub contains-In : (s : List K) (k : K) → contains s k ≡ true → In k s
  unfolding contains
  contains-In [] k h = cc
  contains-In (j ∷ s) k h = ground (arith, contains-In s k)

  pub In-contains : (s : List K) (k : K) → In k s → contains s k ≡ true
  unfolding contains
  In-contains [] k h = absurd h
  In-contains (j ∷ s) k h = ground (arith, In-contains s k)

  pub contains-append :
      (s t : List K) (k : K) → contains (s ++ t) k ≡ (if contains s k then true else contains t k)
  unfolding contains
  contains-append [] t k = refl
  contains-append (j ∷ s) t k = ground (arith, contains-append s t k)

  -- `extend`
  unfoldable pub extend : List K → List K → List K
  extend s [] = s
  extend s (k ∷ ks) = extend (set_insert k s) ks

  pub contains-extend :
      (ks s : List K) (k : K)
      → contains (extend s ks) k ≡ (if contains s k then true else contains ks k)
  unfolding extend contains
  contains-extend [] s k = ground arith
  contains-extend (j ∷ ks) s k = ground (arith, contains-extend ks (set_insert j s) k)

  unfoldable pub set_remove : K → List K → List K
  set_remove k [] = []
  set_remove k (j ∷ s) = let rest = set_remove k s in ite (d.dec j k) rest (j ∷ rest)

  pub contains-set_remove :
      (k j : K) (s : List K) → contains (set_remove k s) j ≡ ite (d.dec k j) false (contains s j)
  unfolding contains set_remove
  contains-set_remove k j [] = ground arith
  contains-set_remove k j (i ∷ s) = ground (arith, contains-set_remove k j s)

pub ruleset map_laws = (get-insert, get-remove)
