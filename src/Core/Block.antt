-- ===== src/Core/Block.antt =====
-- core/src/header.rs, core/src/block.rs and core/src/uncle.rs: headers and blocks. The seal and the
-- root and hash computations are not modelled; the cached hash of a header is a field.
use ckb_miner_opt.Base.{ℕ, Bool, List, [], ◌∷◌, ◌==◌}
use ckb_miner_opt.Base.Maps.{extend, nat_key}
use ckb_miner_opt.Core.Transaction.{H256, ProposalShortId, Transaction}

-- The getters of `Header` read through `raw`, so the fields stand side by side.
pub record Header : Type 0 where
  pub version : ℕ
  pub parent_hash : H256
  pub timestamp : ℕ
  pub number : ℕ
  pub transactions_root : H256
  pub proposals_hash : H256
  pub witnesses_root : H256
  pub difficulty : ℕ
  pub uncles_hash : H256
  pub uncles_count : ℕ
  pub epoch : ℕ
  pub hash : H256

pub record UncleBlock : Type 0 where
  pub header : Header
  pub proposals : List ProposalShortId

pub record Block : Type 0 where
  pub header : Header
  pub uncles : List UncleBlock
  pub transactions : List Transaction
  pub proposals : List ProposalShortId

abbrev pub header_is_genesis : Header → Bool
header_is_genesis h = h.number == 0

abbrev pub is_genesis : Block → Bool
is_genesis b = header_is_genesis b.header

unfoldable pub extend_with_uncles : List ProposalShortId → List UncleBlock → List ProposalShortId
extend_with_uncles ids [] = ids
extend_with_uncles ids (u ∷ us) = extend_with_uncles (extend ids u.proposals) us

unfoldable pub union_proposal_ids : Block → List ProposalShortId
unfolding extend_with_uncles
union_proposal_ids b = extend_with_uncles (extend [] b.proposals) b.uncles
