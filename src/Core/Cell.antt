-- ===== src/Core/Cell.antt =====
-- core/src/cell.rs: cells with their metadata, and the providers that find cells and headers.
pub mod Providers
pub mod Resolve
use ckb_miner_opt.Base.{
  ℕ, suc, Bool, true, false, Option, none, some, List, [], ◌∷◌, ℕ_discrete, ◌==◌, leb,
  if◌then◌else◌, get_elem?,
}
use ckb_miner_opt.Base.Outcome.{Outcome, ok, err, panic, ◌>>=◌}
use ckb_miner_opt.Base.Maps.{get, insert, contains_key}
use ckb_miner_opt.Core.Capacity.{Capacity}
use ckb_miner_opt.Core.Transaction.{
  H256, CellOutPoint, OutPoint, CellOutput, Transaction, input_pts, is_none,
}
use ckb_miner_opt.Core.Block.{Header, Block}

pub record BlockInfo : Type 0 where
  pub number : ℕ
  pub epoch : ℕ

pub record CellMeta : Type 0 where
  pub cell_output : Option CellOutput
  pub out_point : CellOutPoint
  pub block_info : Option BlockInfo
  pub cellbase : Bool
  pub capacity : Capacity
  pub data_hash : Option H256

-- `CellMetaBuilder` has the fields of `CellMeta`, and each of its setters sets one.
abbrev pub default_out_point : CellOutPoint
default_out_point = record { tx_hash = 0; index = 0xffff_ffff }

unfoldable pub from_cell_output : CellOutput → CellMeta
from_cell_output output = record {
  cell_output = some output;
  out_point = default_out_point;
  block_info = none;
  cellbase = false;
  capacity = output.capacity;
  data_hash = none;
}

-- `CellMetaBuilder::from_cell_output(output).out_point(cell).build()`
unfoldable pub pool_cell : CellOutput → CellOutPoint → CellMeta
unfolding from_cell_output
pool_cell output cell = record (from_cell_output output) { out_point = cell }

pub data CellStatus : Type 0 where
  live : CellMeta → CellStatus
  dead unknown unspecified : CellStatus

pub data HeaderStatus : Type 0 where
  live : Header → HeaderStatus
  inclusion_failure unknown unspecified : HeaderStatus

pub data ResolvedCell : Type 0 where
  cell : CellMeta → ResolvedCell
  issuing_dao_input null : ResolvedCell

pub record ResolvedOutPoint : Type 0 where
  pub cell : ResolvedCell
  pub header : Option Header

-- `ResolvedOutPoint::issuing_dao`, `cell_only`, `header_only` and `cell_and_header`.
abbrev pub issuing_dao : ResolvedOutPoint
issuing_dao = record { cell = ResolvedCell.issuing_dao_input; header = none }

abbrev pub cell_only : CellMeta → ResolvedOutPoint
cell_only m = record { cell = ResolvedCell.cell m; header = none }

abbrev pub header_only : Header → ResolvedOutPoint
header_only h = record { cell = ResolvedCell.null; header = some h }

abbrev pub cell_and_header : CellMeta → Header → ResolvedOutPoint
cell_and_header m h = record { cell = ResolvedCell.cell m; header = some h }

-- `ResolvedOutPoint::cell`
abbrev pub cell_meta : ResolvedCell → Option CellMeta
cell_meta (ResolvedCell.cell m) = some m
cell_meta _ = none

pub record ResolvedTransaction : Type 0 where
  pub transaction : Transaction
  pub resolved_deps : List ResolvedOutPoint
  pub resolved_inputs : List ResolvedOutPoint

-- `ResolvedTransaction::is_cellbase`
abbrev pub has_no_inputs : List ResolvedOutPoint → Bool
has_no_inputs [] = true
has_no_inputs (_ ∷ _) = false

pub data UnresolvableError : Type 0 where
  empty : UnresolvableError
  unspecified_input_cell invalid_header dead : OutPoint → UnresolvableError
  unknown : List OutPoint → UnresolvableError
  out_of_order : OutPoint → UnresolvableError

-- The trait `CellProvider`. A provider returns no error, but some of them hold an `expect` or an
-- index: `none` is a panic.
abbrev pub CellProvider : Type 0
CellProvider = OutPoint → Option CellStatus

-- The trait `HeaderProvider`.
abbrev pub HeaderProvider : Type 0
HeaderProvider = OutPoint → HeaderStatus
