-- ===== src/Core/Transaction/Occupied.antt =====
-- The capacity that a cell occupies: the derived `OccupiedCapacity` of `CellOutput` and `Script`
-- (core/src/transaction.rs, core/src/script.rs, util/occupied-capacity/core/src/traits.rs).
use ckb_miner_opt.Base.{
  ℕ, ◌+◌, ◌*◌, ◌<◌, ◌≡◌, refl, Bool, Option, none, some, List, [], ◌∷◌, arith, ltb, length,
}
use ckb_miner_opt.Base.Outcome.{ok, ◌>>=◌, u64_modulus}
use ckb_miner_opt.Core.Capacity.{Capacity, Result, overflow, byte_shannons, safe_add}
use ckb_miner_opt.Core.Capacity
use ckb_miner_opt.Core.Transaction.{Bytes, Script, CellOutput}

-- `Vec<T>`: a checked sum over the elements, here byte strings.
args_capacity_from : Capacity → List Bytes → Result Capacity
args_capacity_from acc [] = ok acc
args_capacity_from acc (arg ∷ args) = do
  rhs ← Capacity.bytes (length arg)
  acc' ← safe_add acc rhs
  args_capacity_from acc' args

-- The derived code starts from zero and adds the fields in order.
script_capacity : Script → Result Capacity
unfolding args_capacity_from
script_capacity s = do
  args ← args_capacity_from 0 s.args
  x ← safe_add 0 args
  code_hash ← Capacity.bytes 32
  safe_add x code_hash

optional_script_capacity : Option Script → Result Capacity
unfolding script_capacity
optional_script_capacity none = ok 0
optional_script_capacity (some s) = script_capacity s

unfoldable pub occupied_capacity : CellOutput → Result Capacity
unfolding script_capacity optional_script_capacity
occupied_capacity o = do
  capacity ← Capacity.bytes 8
  x ← safe_add 0 capacity
  content ← Capacity.bytes (length o.bytes)
  y ← safe_add x content
  lock ← script_capacity o.lock
  z ← safe_add y lock
  type_ ← optional_script_capacity o.type_
  safe_add z type_

unfoldable pub is_lack_of_capacity : CellOutput → Result Bool
unfolding occupied_capacity
is_lack_of_capacity o = do cap ← occupied_capacity o; ok (ltb o.capacity cap)

-- What a reader would count: one hundred million shannons for each byte.
abbrev pub args_bytes : List Bytes → ℕ
args_bytes [] = 0
args_bytes (arg ∷ args) = length arg + args_bytes args

abbrev pub script_bytes : Script → ℕ
script_bytes s = args_bytes s.args + 32

abbrev pub optional_script_bytes : Option Script → ℕ
optional_script_bytes none = 0
optional_script_bytes (some s) = script_bytes s

abbrev pub occupied_bytes : CellOutput → ℕ
occupied_bytes o = 8 + length o.bytes + script_bytes o.lock + optional_script_bytes o.type_

args_capacity_from-eq_bytes :
    (args : List Bytes) (n : ℕ)
    → n * byte_shannons < u64_modulus
    → args_capacity_from (n * byte_shannons) args ≡ Capacity.bytes (n + args_bytes args)
unfolding args_capacity_from safe_add Capacity.bytes
args_capacity_from-eq_bytes [] n h = ground arith
args_capacity_from-eq_bytes (arg ∷ args) n h =
    ground (arith, args_capacity_from-eq_bytes args (n + length arg))

script_capacity-eq_bytes : (s : Script) → script_capacity s ≡ Capacity.bytes (script_bytes s)
unfolding script_capacity safe_add Capacity.bytes
script_capacity-eq_bytes s = ground (arith, args_capacity_from-eq_bytes s.args 0 (omega arith))

optional_script_capacity-eq_bytes :
    (s : Option Script) → optional_script_capacity s ≡ Capacity.bytes (optional_script_bytes s)
unfolding optional_script_capacity Capacity.bytes
optional_script_capacity-eq_bytes none = refl
optional_script_capacity-eq_bytes (some s) = script_capacity-eq_bytes s

-- The checked field-by-field sum is the number of bytes times the price of a byte, and it fails
-- exactly when that product does not fit into 64 bits.
pub occupied_capacity-eq_bytes :
    (o : CellOutput) → occupied_capacity o ≡ Capacity.bytes (occupied_bytes o)
unfolding occupied_capacity safe_add Capacity.bytes
occupied_capacity-eq_bytes o =
    ground (arith, script_capacity-eq_bytes o.lock, optional_script_capacity-eq_bytes o.type_)
