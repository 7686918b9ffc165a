-- ===== src/Chain/Fork.antt =====
-- `find_fork` of chain/src/chain.rs: which blocks leave the main chain and which join it when a new tip
-- is on another branch. `none` is a panic: a block or ext that the store should have, or the number 0
-- lowered by one. The loop of `alignment_fork` has a turn for each height above the current tip, the
-- one of `find_fork_until_latest_common` for each height, as it stops at 0.
pub mod Attaching
pub mod Ranges
pub mod Found
use ckb_miner_opt.Base.{
  ℕ, zero, suc, ◌+◌, ◌-◌, Bool, true, false, Option, none, some, List, [], ◌∷◌, leb, ◌==◌, ite,
  ℕ_discrete, if◌then◌else◌, length,
}
use ckb_miner_opt.Core.Transaction.{H256, ProposalShortId}
use ckb_miner_opt.Core.Block.{Block}
use ckb_miner_opt.Core.Extras.{BlockExt}

pub record ForkChanges : Type 0 where
  pub attached_blocks : List Block
  pub detached_blocks : List Block
  pub detached_proposal_id : List ProposalShortId
  pub dirty_exts : List BlockExt

abbrev pub no_changes : ForkChanges
no_changes = record {
  attached_blocks = [];
  detached_blocks = [];
  detached_proposal_id = [];
  dirty_exts = [];
}

abbrev pub is_empty_list {ℓ} : {A : Type ℓ} → List A → Bool
is_empty_list [] = true
is_empty_list (_ ∷ _) = false

abbrev pub has_detached : ForkChanges → Bool
has_detached fork = if is_empty_list fork.detached_blocks then false else true

-- `none` where the subtraction panics.
unfoldable pub verified_len : ForkChanges → Option ℕ
verified_len fork =
    if leb (length fork.dirty_exts) (length fork.attached_blocks)
    then some (length fork.attached_blocks - length fork.dirty_exts)
    else none

pub record GlobalIndex : Type 0 where
  pub number : ℕ
  pub hash : H256
  pub unseen : Bool

unfoldable pub forward : H256 → GlobalIndex → Option GlobalIndex
forward hash index =
    if index.number == 0
    then none
    else some (record index { number = index.number - 1; hash = hash })

-- The part of the store that is asked.
pub record BlockStore : Type 0 where
  pub get_block_hash : ℕ → Option H256
  pub get_block : H256 → Option Block
  pub get_block_ext : H256 → Option BlockExt

-- A block of the main chain leaves it.
unfoldable pub detach : BlockStore → ℕ → ForkChanges → Option ForkChanges
detach s number fork = elim (s.get_block_hash number) [
  | none ↦ none
  | some hash ↦ elim (s.get_block hash) [
    | none ↦ none
    | some block ↦ some (record fork { detached_blocks = block ∷ fork.detached_blocks })
  ]
]

-- The ext of an attached block is to be updated, until one is verified already.
unfoldable pub note_ext :
    BlockStore → GlobalIndex → ForkChanges → Option (GlobalIndex × ForkChanges)
note_ext s index fork =
    if index.unseen
    then elim (s.get_block_ext index.hash) [
      | none ↦ none
      | some ext ↦ elim ext.verified [
        | none ↦ some (index, record fork { dirty_exts = ext ∷ fork.dirty_exts })
        | some _ ↦ some (record index { unseen = false }, fork)
      ]
    ]
    else some (index, fork)

unfoldable pub attach_block :
    BlockStore → GlobalIndex → ForkChanges → Option (GlobalIndex × ForkChanges)
unfolding forward
attach_block s index fork = elim (s.get_block index.hash) [
  | none ↦ none
  | some block ↦ elim (forward block.header.parent_hash index) [
    | none ↦ none
    | some next ↦ some (next, record fork { attached_blocks = block ∷ fork.attached_blocks })
  ]
]

unfoldable pub attach : BlockStore → GlobalIndex → ForkChanges → Option (GlobalIndex × ForkChanges)
attach s index fork = elim (note_ext s index fork) [
  | none ↦ none
  | some (index', fork') ↦ attach_block s index' fork'
]

-- `for bn in new_tip_number..=current_tip_number`, by the number of heights left.
unfoldable pub detach_range : BlockStore → ℕ → ℕ → ForkChanges → Option ForkChanges
detach_range s zero number fork = some fork
detach_range s (suc count) number fork = elim (detach s number fork) [
  | none ↦ none
  | some fork' ↦ detach_range s count (number + 1) fork'
]

-- `while index.number > current_tip_number`
unfoldable pub attach_above :
    BlockStore → ℕ → GlobalIndex → ForkChanges → Option (GlobalIndex × ForkChanges)
attach_above s zero index fork = some (index, fork)
attach_above s (suc turns) index fork = elim (attach s index fork) [
  | none ↦ none
  | some (index', fork') ↦ attach_above s turns index' fork'
]

unfoldable pub alignment_fork :
    BlockStore → ℕ → ℕ → GlobalIndex → ForkChanges → Option (GlobalIndex × ForkChanges)
alignment_fork s new_tip_number current_tip_number index fork =
    if leb new_tip_number current_tip_number
    then elim (detach_range s (current_tip_number + 1 - new_tip_number) new_tip_number fork) [
      | none ↦ none
      | some fork' ↦ some (index, fork')
    ]
    else attach_above s (index.number - current_tip_number) index fork

-- The `loop`, by the height of the index.
unfoldable pub find_fork_until_latest_common :
    BlockStore → ℕ → GlobalIndex → ForkChanges → Option (GlobalIndex × ForkChanges)
find_fork_until_latest_common s zero index fork = some (index, fork)
find_fork_until_latest_common s (suc number) index fork = elim (s.get_block_hash index.number) [
  | none ↦ none
  | some detached_hash ↦
      ite (ℕ_discrete detached_hash index.hash) (some (index, fork))
        (elim (detach s index.number fork) [
          | none ↦ none
          | some fork' ↦ elim (attach s index fork') [
            | none ↦ none
            | some (index', fork'') ↦ find_fork_until_latest_common s number index' fork''
          ]
        ])
]

unfoldable pub find_fork :
    BlockStore → ℕ → Block → BlockExt → ForkChanges → Option (GlobalIndex × ForkChanges)
find_fork s current_tip_number new_tip_block new_tip_ext fork =
    if new_tip_block.header.number == 0
    then none
    else (let start : ForkChanges = record fork {
      attached_blocks = new_tip_block ∷ fork.attached_blocks;
      dirty_exts = new_tip_ext ∷ fork.dirty_exts;
    } in
        let index : GlobalIndex = record {
          number = new_tip_block.header.number - 1;
          hash = new_tip_block.header.parent_hash;
          unseen = true;
        } in
        elim (alignment_fork s new_tip_block.header.number current_tip_number index start) [
          | none ↦ none
          | some (index', fork') ↦ find_fork_until_latest_common s index'.number index' fork'
        ])
