-- ===== src/Sync/Inflight.antt =====
-- `InflightBlocks` of sync/src/types.rs: which peer was asked for which block, by peer and by block. `now` is
-- the clock; a timestamp and the timeout together stay below 2^64.
pub mod Asked
pub mod Once
pub mod Valid
use ckb_miner_opt.Base.{
  ℕ, ◌+◌, Bool, true, false, not, Option, none, some, List, [], ◌∷◌, leb, ltb, length,
  if◌then◌else◌,
}
use ckb_miner_opt.Base.Maps.{get, insert, remove, contains, set_insert, set_remove, nat_key}
use ckb_miner_opt.Core.Transaction.{H256}

-- `MAX_PEERS_PER_BLOCK` and `BLOCK_DOWNLOAD_TIMEOUT` of sync/src/lib.rs
abbrev pub max_peers_per_block : ℕ
max_peers_per_block = 2

abbrev pub block_download_timeout : ℕ
block_download_timeout = 30_000

abbrev pub PeerIndex : Type 0
PeerIndex = ℕ

pub record InflightState : Type 0 where
  pub peers : List PeerIndex
  pub timestamp : ℕ

abbrev pub Blocks : Type 0
Blocks = List (PeerIndex × List H256)

abbrev pub States : Type 0
States = List (H256 × InflightState)

pub record InflightBlocks : Type 0 where
  pub blocks : Blocks
  pub states : States

abbrev pub none_inflight : InflightBlocks
none_inflight = record { blocks = []; states = [] }

abbrev pub hashes_of : Option (List H256) → List H256
hashes_of none = []
hashes_of (some hashes) = hashes

unfoldable pub peer_inflight_count : InflightBlocks → PeerIndex → ℕ
peer_inflight_count f peer = length (hashes_of (get f.blocks peer))

abbrev pub state_or_new : ℕ → Option InflightState → InflightState
state_or_new now none = record { peers = []; timestamp = now }
state_or_new now (some state) = state

-- `insert`, with its Boolean result.
unfoldable pub insert_inflight : ℕ → PeerIndex → H256 → InflightBlocks → InflightBlocks × Bool
insert_inflight now peer hash f =
    let state = state_or_new now (get f.states hash) in
    let own = hashes_of (get f.blocks peer) in
    let asked = record state { peers = set_insert peer state.peers } in
    if leb max_peers_per_block (length state.peers)
    then (record { blocks = f.blocks; states = insert hash state f.states }, false)
    else if contains own hash
    then (record { blocks = insert peer own f.blocks; states = insert hash state f.states }, false)
    else (
      record { blocks = insert peer (hash ∷ own) f.blocks; states = insert hash asked f.states },
      true,
    )

-- `get_mut(peer).map(|set| set.remove(hash))`
unfoldable pub forget : PeerIndex → H256 → Blocks → Blocks
forget peer hash m = elim (get m peer) [
  | none ↦ m
  | some hashes ↦ insert peer (set_remove hash hashes) m
]

unfoldable pub forget_each : List PeerIndex → H256 → Blocks → Blocks
forget_each [] hash m = m
forget_each (peer ∷ peers) hash m = forget_each peers hash (forget peer hash m)

unfoldable pub leave : PeerIndex → H256 → States → States
leave peer hash m = elim (get m hash) [
  | none ↦ m
  | some state ↦ insert hash (record state { peers = set_remove peer state.peers }) m
]

unfoldable pub leave_each : PeerIndex → List H256 → States → States
leave_each peer [] m = m
leave_each peer (hash ∷ hashes) m = leave_each peer hashes (leave peer hash m)

abbrev pub is_outdated : ℕ → InflightState → Bool
is_outdated now state = ltb (state.timestamp + block_download_timeout) now

-- `retain` with its closure.
unfoldable pub retain : ℕ → States → Blocks → States × Blocks
retain now [] blocks = ([], blocks)
retain now ((hash, state) ∷ states) blocks =
    let gone = retain now states (forget_each state.peers hash blocks) in
    let kept = retain now states blocks in
    if is_outdated now state then gone else ((hash, state) ∷ kept.0, kept.1)

unfoldable pub prune : ℕ → InflightBlocks → InflightBlocks
prune now f =
    let (states, blocks) = retain now f.states f.blocks in
    record { blocks = blocks; states = states }

unfoldable pub remove_by_peer : PeerIndex → InflightBlocks → InflightBlocks × Bool
remove_by_peer peer f = elim (get f.blocks peer) [
  | none ↦ (f, false)
  | some hashes ↦
      (record { blocks = remove peer f.blocks; states = leave_each peer hashes f.states }, true)
]

unfoldable pub remove_by_block : H256 → InflightBlocks → InflightBlocks × Bool
remove_by_block hash f = elim (get f.states hash) [
  | none ↦ (f, false)
  | some state ↦ (
    record { blocks = forget_each state.peers hash f.blocks; states = remove hash f.states },
    true,
  )
]
