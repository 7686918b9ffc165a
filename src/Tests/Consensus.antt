-- ===== src/Tests/Consensus.antt =====
-- The proposal window and the epochs.
use ckb_miner_opt.Base.{
  ℕ, ◌*◌, ◌+◌, ◌-◌, ◌^◌, ◌/◌, ◌<◌, ◌≡◌, ◌≢◌, refl, ◌↔◌, true, Option, none, some, [], ◌∷◌, arith,
  ltb, ◌==◌, if◌then◌else◌,
}
use ckb_miner_opt.Base.Maps.{contains, nat_key}
use ckb_miner_opt.Base.Outcome.{ok}
use ckb_miner_opt.Core.Transaction.{ProposalShortId, H256}
use ckb_miner_opt.Core.Block.{Header}
use ckb_miner_opt.Proposal.{ProposalWindow, Ids, TxProposalTable, finalize}
use ckb_miner_opt.Proposal.Window.{
  ProposedAt, Committable, finalize-Committable, finalize-early, finalize-finalize,
}
use ckb_miner_opt.Epoch.{U256Arithmetic, EpochExt, Consensus, next_epoch_ext}
use ckb_miner_opt.Epoch.Reward.{issued}
use ckb_miner_opt.Epoch.Next.{Next, next_epoch_ext-Next, next_epoch_ext-issued}
use ckb_miner_opt.Epoch.Returns.{Fits, next_epoch_ext-returns}

abbrev pub window : ProposalWindow
window = record { closest = 2; farthest = 10 }

-- Blocks 1 and 4 proposed.
abbrev table : TxProposalTable
table = record {
  table = (1, 7 ∷ []) ∷ (4, 8 ∷ 9 ∷ []) ∷ [];
  gap = [];
  set = 7 ∷ [];
  proposal_window = window;
}

finalize-Committable_example :
    (t' : TxProposalTable) × (removed : Ids) × (finalize 11 table ≡ some (t', removed))
    × ((id : ProposalShortId)
        → (contains t'.set id ≡ true) ↔ ProposedAt (Committable (11 + 1) window) table.table id)
finalize-Committable_example = finalize-Committable 11 table (omega arith) (omega arith)

finalize-early_example :
    (t' : TxProposalTable) × (removed : Ids) × (finalize 1 table ≡ some (t', removed))
    × ((id : ProposalShortId)
        → (contains t'.set id ≡ true) ↔ ProposedAt (λ k. k ≡ 1) table.table id)
finalize-early_example = finalize-early 1 table (omega arith) (omega arith) (omega arith)

finalize-finalize_example :
    (t₁ t₂ : TxProposalTable) × (r₁ r₂ r₃ : Ids) × (finalize 5 table ≡ some (t₁, r₁))
    × (finalize 11 t₁ ≡ some (t₂, r₂))
    × (finalize 11 table ≡ some (t₂, r₃))
finalize-finalize_example = finalize-finalize 5 11 table (omega arith) (omega arith)

pub times_exact :
    (a b : ℕ)
    → a * b < 2 ^ 256
    → (if ltb (a * b) (2 ^ 256) then some (a * b) else none) ≡ some (a * b)
times_exact a b h = ground arith

pub over_exact : (a b : ℕ) → b ≢ 0 → (if b == 0 then none else some (a / b)) ≡ some (a / b)
over_exact a b h = ground arith

-- Panics on an overflow and on a division by zero.
abbrev pub arithmetic : U256Arithmetic
arithmetic = record {
  times = λ a b. if ltb (a * b) (2 ^ 256) then some (a * b) else none;
  over = λ a b. if b == 0 then none else some (a / b);
  times-exact = times_exact;
  over-exact = over_exact;
}

abbrev pub header_at : ℕ → Header
header_at n = record {
  version = 0;
  parent_hash = n - 1;
  timestamp = n * 10_000;
  number = n;
  transactions_root = 0;
  proposals_hash = 0;
  witnesses_root = 0;
  difficulty = 1000;
  uncles_hash = 0;
  uncles_count = 0;
  epoch = 0;
  hash = n;
}

abbrev pub consensus : Consensus
consensus = record {
  genesis_header = header_at 0;
  epoch_reward = 125_000_000_000_000;
  orphan_rate_target_recip = 20;
  epoch_duration_target = 14_400_000;
}

abbrev pub genesis_epoch : EpochExt
genesis_epoch = record {
  number = 0;
  block_reward = 100_000_000_000;
  remainder_reward = 0;
  last_block_hash_in_previous_epoch = 0;
  start_number = 0;
  length = 1250;
  difficulty = 1000;
}

abbrev get_header : H256 → Option Header
get_header hash = some (header_at hash)

-- Fifty uncles up to the last block of the epoch.
abbrev uncles : H256 → Option ℕ
uncles hash = some (if hash == 1249 then 50 else 0)

abbrev second_epoch : EpochExt
second_epoch = record {
  number = 1;
  block_reward = 70_067_264_573;
  remainder_reward = 1768;
  last_block_hash_in_previous_epoch = 1249;
  start_number = 1250;
  length = 1784;
  difficulty = 1000;
}

second_epoch_begins :
    next_epoch_ext arithmetic consensus genesis_epoch (header_at 1249) get_header uncles
    ≡ ok (some second_epoch)
unfolding next_epoch_ext
second_epoch_begins = refl

next_epoch_ext-Next_example : Next consensus genesis_epoch (header_at 1249) second_epoch
next_epoch_ext-Next_example =
    next_epoch_ext-Next arithmetic consensus genesis_epoch (header_at 1249) get_header uncles
      second_epoch (omega arith) (omega arith) second_epoch_begins

next_epoch_ext-issued_example : issued second_epoch 1784 ≡ ok 125_000_000_000_000
next_epoch_ext-issued_example =
    next_epoch_ext-issued arithmetic consensus genesis_epoch (header_at 1249) get_header uncles
      second_epoch (omega arith) (omega arith) (omega arith) (omega arith) second_epoch_begins

products_fit : Fits consensus genesis_epoch (header_at 1249) (50 - 0) (12_490_000 - 0)
products_fit = record {
  some_blocks = omega arith;
  some_target = omega arith;
  some_recip = omega arith;
  scaled = omega arith;
  expected = omega arith;
  weighted = omega arith;
  doubled = omega arith;
}

next_epoch_ext-returns_example :
    (e : EpochExt) × (next_epoch_ext arithmetic consensus genesis_epoch
        (header_at 1249)
        get_header
        uncles
      ≡ ok (some e))
    × Next consensus genesis_epoch (header_at 1249) e
next_epoch_ext-returns_example =
    next_epoch_ext-returns arithmetic consensus genesis_epoch (header_at 1249) (header_at 0)
      get_header uncles 0 50 refl (omega arith) (omega arith) refl refl refl (omega arith)
      (omega arith) (omega arith) products_fit
