-- ===== src/Proposal.antt =====
-- shared/src/tx_proposal_table.rs and `ProposalWindow` of spec/src/consensus.rs: which proposed
-- transactions the next block may commit. A `BTreeMap` is the list of its pairs, with `range` and
-- `split_off` as filters on the keys; a hash set is a list without repeated ids.
pub mod Window
use ckb_miner_opt.Base.{
  ℕ, ◌+◌, ◌-◌, Bool, true, false, not, ◌&&◌, Option, some, none, List, [], ◌∷◌, ltb, leb,
  if◌then◌else◌,
}
use ckb_miner_opt.Base.Maps.{insert, remove, get, contains, contains_key, extend, nat_key}
use ckb_miner_opt.Base.Outcome.{u64_modulus}
use ckb_miner_opt.Core.Transaction.{ProposalShortId}

pub record ProposalWindow : Type 0 where
  pub closest : ℕ
  pub farthest : ℕ

abbrev pub Ids : Type 0
Ids = List ProposalShortId

pub record TxProposalTable : Type 0 where
  pub table : List (ℕ × Ids)
  pub gap : Ids
  pub set : Ids
  pub proposal_window : ProposalWindow

abbrev pub new : ProposalWindow → TxProposalTable
new w = record { table = []; gap = []; set = []; proposal_window = w }

-- `insert`: the result tells whether the number was new.
abbrev pub insert_ids : ℕ → Ids → TxProposalTable → TxProposalTable × Bool
insert_ids number ids t =
    (record t { table = insert number ids t.table }, not (contains_key t.table number))

-- `remove`
abbrev pub remove_ids : ℕ → TxProposalTable → TxProposalTable × Option Ids
remove_ids number t = (record t { table = remove number t.table }, get t.table number)

-- The part of the table whose numbers pass a test.
unfoldable pub range : (ℕ → Bool) → List (ℕ × Ids) → List (ℕ × Ids)
range test [] = []
range test ((k, ids) ∷ t) = if test k then (k, ids) ∷ range test t else range test t

-- `.cloned().flatten().collect()`
unfoldable pub collect_ids : Ids → List (ℕ × Ids) → Ids
collect_ids s [] = s
collect_ids s ((k, ids) ∷ t) = collect_ids (extend s ids) t

unfoldable pub difference : Ids → Ids → Ids
difference [] t = []
difference (k ∷ s) t = if contains t k then difference s t else k ∷ difference s t

abbrev pub proposal_start : ProposalWindow → ℕ → ℕ
proposal_start w number = number - w.farthest + 1

abbrev pub proposal_end : ProposalWindow → ℕ → ℕ
proposal_end w number = number - w.closest + 1

-- The table after `finalize`, with `removed_ids`.
unfoldable pub slide : ℕ → TxProposalTable → TxProposalTable × Ids
unfolding range collect_ids difference
slide number t =
    let w = t.proposal_window in
    let kept = range (λ k. leb (proposal_start w number) k) t.table in
    let new_ids = collect_ids [] (range (λ k. leb k (proposal_end w number)) kept) in
    let gap = collect_ids [] (range (λ k. ltb (proposal_end w number) k) kept) in
    (
      record { table = kept; gap = gap; set = new_ids; proposal_window = w },
      difference t.set new_ids,
    )

-- `finalize`. The two `+ 1` panic at the end of `u64`.
unfoldable pub finalize : ℕ → TxProposalTable → Option (TxProposalTable × Ids)
unfolding slide
finalize number t =
    let w = t.proposal_window in
    if ltb (proposal_start w number) u64_modulus && ltb (proposal_end w number) u64_modulus
    then some (slide number t)
    else none
