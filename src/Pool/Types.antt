-- ===== src/Pool/Types.antt =====
-- shared/src/tx_pool/types.rs: the entries of the pools. A `LinkedHashMap` (a git dependency) keyed
-- by short ids is the list of its entries in iteration order: `get` and `remove` go by the key.
-- Where `insert` puts an entry is a parameter of the pools that insert.
use ckb_miner_opt.Base.{ℕ, ◌≡◌, Option, some, List, ite, ℕ_discrete}
use ckb_miner_opt.Base.Maps.{get, insert, get-insert, nat_key}
use ckb_miner_opt.Core.Capacity.{Capacity}
use ckb_miner_opt.Core.Transaction.{ProposalShortId, Transaction}

-- An entry of the orphan pool or of the conflict cache.
pub record DefectEntry : Type 0 where
  pub transaction : Transaction
  pub refs_count : ℕ
  pub cycles : Option ℕ
  pub size : ℕ

pub record PendingEntry : Type 0 where
  pub transaction : Transaction
  pub cycles : Option ℕ
  pub size : ℕ

pub record ProposedEntry : Type 0 where
  pub transaction : Transaction
  pub refs_count : ℕ
  pub cycles : ℕ
  pub fee : Capacity
  pub size : ℕ

abbrev pub Entries : Type 0 → Type 0
Entries V = List (ProposalShortId × V)

-- `LinkedHashMap::insert`: afterwards the key has the new value, and the others have theirs.
pub record Insertion (V : Type 0) : Type 0 where
  pub place : ProposalShortId → V → Entries V → Entries V
  pub get-place :
      (k j : ProposalShortId) (v : V) (m : Entries V)
      → get (place k v m) j ≡ ite (ℕ_discrete k j) (some v) (get m j)

-- One that keeps the place of a key that is there.
abbrev pub in_place : (V : Type 0) → Insertion V
in_place V = record { place = insert; get-place = get-insert }
