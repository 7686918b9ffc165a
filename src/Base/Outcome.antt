-- ===== src/Base/Outcome.antt =====
-- The result of Rust code that can fail or panic. `panic` stands for an arithmetic overflow (the
-- release profile of Cargo.toml sets overflow-checks), a failed `expect` or `unwrap`, and an index
-- out of bounds.
use Prim.Native.Nat.{ℕ, ◌+◌, ◌-◌, ◌*◌, ◌/◌}
use mathlib.Core.Path.{◌≡◌, refl}
use mathlib.Core.Bool.{Bool, true, false}
use mathlib.Core.Logic.{◌⊎◌, inl, inr}
use mathlib.Core.Option.{Option, none, some}
use ckb_miner_opt.Base.Tests.{ltb, leb, ◌==◌, if◌then◌else◌}

pub data Outcome {ℓ κ} (E : Type ℓ) (A : Type κ) : Type (ℓ ⊔ κ) where
  ok : A → Outcome E A
  err : E → Outcome E A
  panic : Outcome E A

infixl 5 ◌>>=◌ ◌>>◌
abbrev pub ◌>>=◌ {ℓ κ ι} :
    {E : Type ℓ} {A : Type κ} {B : Type ι} → Outcome E A → (A → Outcome E B) → Outcome E B
first >>= next = elim first [ panic ↦ panic | err failure ↦ err failure | ok value ↦ next value ]

-- One after the other, for the effect of the first alone.
abbrev pub ◌>>◌ {ℓ ι} : {E : Type ℓ} {B : Type ι} → Outcome E (Unit {0}) → Outcome E B → Outcome E B
first >> second = first >>= λ done. second

-- `if test { return Err(e) }`
abbrev pub refuse_if {ℓ} : {E : Type ℓ} → Bool → E → Outcome E (Unit {0})
refuse_if true e = err e
refuse_if false e = ok tt

-- `?` on a result whose error is converted.
abbrev pub map_err {ℓ κ ι} :
    {E : Type ℓ} {F : Type κ} {A : Type ι} → (E → F) → Outcome E A → Outcome F A
map_err f (ok a) = ok a
map_err f (err e) = err (f e)
map_err f panic = panic

abbrev pub expect {ℓ κ} : {E : Type ℓ} {A : Type κ} → Option A → Outcome E A
expect none = panic
expect (some a) = ok a

abbrev pub u64_modulus : ℕ
u64_modulus = 0x1_0000_0000_0000_0000

-- `a + b` and `a * b` at `u64` under overflow checks.
abbrev pub add_u64 {ℓ} : {E : Type ℓ} → ℕ → ℕ → Outcome E ℕ
add_u64 a b = if ltb (a + b) u64_modulus then ok (a + b) else panic

abbrev pub mul_u64 {ℓ} : {E : Type ℓ} → ℕ → ℕ → Outcome E ℕ
mul_u64 a b = if ltb (a * b) u64_modulus then ok (a * b) else panic

-- `a - b` and `a / b`.
abbrev pub sub_u64 {ℓ} : {E : Type ℓ} → ℕ → ℕ → Outcome E ℕ
sub_u64 a b = if leb b a then ok (a - b) else panic

abbrev pub div_u64 {ℓ} : {E : Type ℓ} → ℕ → ℕ → Outcome E ℕ
div_u64 a b = if b == 0 then panic else ok (a / b)

-- A chain that succeeds has a first part that succeeds.
pub >>=-eq-ok {ℓ κ ι} :
    {E : Type ℓ} {A : Type κ} {B : Type ι} (first : Outcome E A) (next : A → Outcome E B) {end : B}
    → (first >>= next) ≡ ok end
    → (value : A) × (first ≡ ok value) × (next value ≡ ok end)
>>=-eq-ok panic next passed = cc
>>=-eq-ok (err failure) next passed = cc
>>=-eq-ok (ok value) next passed = (value, refl, passed)

-- Where the error of a bind comes from.
pub >>=-eq-err {ℓ κ ι} :
    {E : Type ℓ} {A : Type κ} {B : Type ι} (m : Outcome E A) (f : A → Outcome E B) {e : E}
    → (m >>= f) ≡ err e
    → (m ≡ err e) ⊎ ((a : A) × (m ≡ ok a) × (f a ≡ err e))
>>=-eq-err (ok a) f h = inr (a, refl, h)
>>=-eq-err (err e') f h = inl (cc)
>>=-eq-err panic f h = cc

pub map_err-eq-ok {ℓ κ ι} :
    {E : Type ℓ} {F : Type κ} {A : Type ι} (f : E → F) (m : Outcome E A) {a : A}
    → map_err f m ≡ ok a
    → m ≡ ok a
map_err-eq-ok f (ok a) h = cc
map_err-eq-ok f (err e) h = cc
map_err-eq-ok f panic h = cc

pub expect-eq-ok {ℓ κ} :
    {E : Type ℓ} {A : Type κ} (o : Option A) {a : A} → expect {E = E} o ≡ ok a → o ≡ some a
expect-eq-ok (some a) h = cc
expect-eq-ok none h = cc
