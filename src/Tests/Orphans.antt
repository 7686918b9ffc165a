-- ===== src/Tests/Orphans.antt =====
-- The orphan pool.
use ckb_miner_opt.Base.{◌≡◌, refl, Option, none, some, [], ◌∷◌, arith, ℕ_discrete}
use ckb_miner_opt.Base.Maps.{get}
use ckb_miner_opt.Base.Outcome.{ok}
use ckb_miner_opt.Core.Transaction.{new_cell, OutPoint-discrete, from_tx_hash}
use ckb_miner_opt.Pool.Types.{DefectEntry}
use ckb_miner_opt.Pool.Orphan.{OrphanPool, no_orphans, add_orphan, remove_by_ancestor}
use ckb_miner_opt.Pool.Orphan.Removal.{Positive}
use ckb_miner_opt.Pool.Orphan.Release.{Ends, add_orphan-Positive, remove_by_ancestor-Ends}
use ckb_miner_opt.Tests.Data.{first, second, hash_of}
use ckb_miner_opt.Base.Maps.{get, insert, remove}

none-some : (e : DefectEntry) → ◌≡◌ {A = Option DefectEntry} none (some e) → ⊥
none-some e h = cc

no_orphans-Positive : Positive no_orphans.vertices
unfolding get
no_orphans-Positive id e h = absurd (none-some e h)

-- `second` waits for the output of `first`.
abbrev waiting : OrphanPool
waiting = (add_orphan none 100 second (new_cell (hash_of 2) 0 ∷ []) no_orphans).0

waiting-Positive : Positive waiting.vertices
waiting-Positive =
    add_orphan-Positive none 100 second (new_cell (hash_of 2) 0 ∷ []) no_orphans (omega arith)
      no_orphans-Positive

remove_by_ancestor-Ends_example : Ends (remove_by_ancestor first waiting)
remove_by_ancestor-Ends_example = remove_by_ancestor-Ends first waiting waiting-Positive

first_releases :
    remove_by_ancestor first waiting
    ≡ ok (record {
      pool = no_orphans;
      queue = [];
      txs = record { transaction = second; refs_count = 0; cycles = none; size = 100 } ∷ [];
    })
unfolding remove_by_ancestor get add_orphan insert OutPoint-discrete ℕ_discrete remove from_tx_hash
first_releases = refl
