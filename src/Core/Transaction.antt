-- ===== src/Core/Transaction.antt =====
-- core/src/transaction.rs and core/src/script.rs. An H256 is read as the number that its 32 bytes
-- spell (big-endian), and byte strings are lists of numbers. The two hashes of a transaction are
-- cached fields in the source too; how they are computed (blake2b) is not modelled, so theorems hold
-- for every assignment of hashes.
pub mod Occupied
use ckb_miner_opt.Base.{
  ℕ, zero, suc, ◌+◌, ◌/◌, ◌%◌, ◌^◌, ◌≡◌, Bool, true, false, ◌&&◌, ◌||◌, Option, none, some, List,
  [], ◌∷◌, map, ℕ_discrete, ◌==◌, if◌then◌else◌, length, get_elem?,
}
use ckb_miner_opt.Base.Maps.{Key}
use ckb_miner_opt.Core.Capacity.{Capacity}

abbrev pub H256 : Type 0
H256 = ℕ

abbrev pub Bytes : Type 0
Bytes = List ℕ

abbrev pub ProposalShortId : Type 0
ProposalShortId = ℕ

-- The first ten of the 32 bytes.
unfoldable pub from_tx_hash : H256 → ProposalShortId
from_tx_hash h = h / 2 ^ 176

abbrev pub tx_version : ℕ
tx_version = 0

abbrev pub issuing_dao_hash : H256
issuing_dao_hash = 0x4e4552564f5344414f494e50555430303031

pub record Script : Type 0 where
  pub args : List Bytes
  pub code_hash : H256

pub record CellOutPoint : Type 0 where
  pub tx_hash : H256
  pub index : ℕ

pub record OutPoint : Type 0 where
  pub cell : Option CellOutPoint
  pub block_hash : Option H256

pub CellOutPoint-discrete : Discrete CellOutPoint
CellOutPoint-discrete = hlevel ℕ_discrete

unfoldable pub OutPoint-discrete : Discrete OutPoint
OutPoint-discrete = hlevel ℕ_discrete

instance abbrev pub out_point_key : Key OutPoint
out_point_key = record { dec = OutPoint-discrete }

abbrev pub new_cell : H256 → ℕ → OutPoint
new_cell h i = record { cell = some (record { tx_hash = h; index = i }); block_hash = none }

abbrev pub null : OutPoint
null = record { cell = none; block_hash = none }

abbrev pub is_none {ℓ} : {A : Type ℓ} → Option A → Bool
is_none none = true
is_none (some _) = false

unfoldable pub is_null : OutPoint → Bool
is_null o = is_none o.cell && is_none o.block_hash

unfoldable pub is_issuing_dao : OutPoint → Bool
is_issuing_dao o = is_none o.block_hash && elim o.cell [
  | none ↦ false
  | some cell ↦ (cell.tx_hash == issuing_dao_hash) && (cell.index == 0)
]

pub record CellInput : Type 0 where
  pub previous_output : OutPoint
  pub since : ℕ

abbrev pub new_cellbase_input : ℕ → CellInput
new_cellbase_input number = record { previous_output = null; since = number }

pub record CellOutput : Type 0 where
  pub capacity : Capacity
  pub bytes : Bytes
  pub lock : Script
  pub type_ : Option Script

pub record Transaction : Type 0 where
  pub version : ℕ
  pub deps : List OutPoint
  pub inputs : List CellInput
  pub outputs : List CellOutput
  pub witnesses : List (List Bytes)
  pub hash : H256
  pub witness_hash : H256

first_input_is_null : List CellInput → Bool
unfolding is_null
first_input_is_null [] = false
first_input_is_null (i ∷ _) = is_null i.previous_output

-- One input, one output, one witness, and the input is null.
unfoldable pub is_cellbase : Transaction → Bool
unfolding first_input_is_null
is_cellbase tx =
    length tx.inputs == 1
    && (length tx.outputs == 1 && (length tx.witnesses == 1 && first_input_is_null tx.inputs))

any_issuing_dao : List CellInput → Bool
unfolding is_issuing_dao
any_issuing_dao [] = false
any_issuing_dao (i ∷ is) = is_issuing_dao i.previous_output || any_issuing_dao is

unfoldable pub is_withdrawing_from_dao : Transaction → Bool
unfolding any_issuing_dao
is_withdrawing_from_dao tx = any_issuing_dao tx.inputs

abbrev pub u32_modulus : ℕ
u32_modulus = 0x1_0000_0000

-- The points of `outputs` from index `i` on; `x as u32` keeps the low 32 bits.
abbrev pub output_pts_from {ℓ} : {A : Type ℓ} → H256 → ℕ → List A → List OutPoint
output_pts_from h i [] = []
output_pts_from h i (_ ∷ outputs) = new_cell h (i % u32_modulus) ∷ output_pts_from h (suc i) outputs

abbrev pub output_pts : Transaction → List OutPoint
output_pts tx = output_pts_from tx.hash 0 tx.outputs

abbrev pub input_pts : Transaction → List OutPoint
input_pts tx = map (λ i. i.previous_output) tx.inputs

abbrev pub proposal_short_id : Transaction → ProposalShortId
proposal_short_id tx = from_tx_hash tx.hash

abbrev pub get_output : Transaction → ℕ → Option CellOutput
get_output tx i = get_elem? tx.outputs i

abbrev pub is_empty_list {ℓ} : {A : Type ℓ} → List A → Bool
is_empty_list [] = true
is_empty_list (_ ∷ _) = false

abbrev pub is_empty : Transaction → Bool
is_empty tx = is_empty_list tx.inputs || is_empty_list tx.outputs

-- `OutPoint::serialized_size` and `CellInput::serialized_size`.
unfoldable pub out_point_size : OutPoint → ℕ
out_point_size o = (if is_none o.cell then 0 else 36) + (if is_none o.block_hash then 0 else 32)

unfoldable pub input_size : CellInput → ℕ
unfolding out_point_size
input_size i = out_point_size i.previous_output + 8
