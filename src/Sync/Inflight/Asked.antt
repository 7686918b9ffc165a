-- ===== src/Sync/Inflight/Asked.antt =====
-- Which peer is asked for which block by each of the two maps of `InflightBlocks` (sync/src/types.rs), and what the
-- operations on them change.
use ckb_miner_opt.Base.{
  ℕ, ◌≡◌, refl, Bool, true, false, Option, none, some, List, [], ◌∷◌, arith, ite, ℕ_discrete,
  if◌then◌else◌, Option-cases, inl, inr,
}
use ckb_miner_opt.Base.Maps.{
  get, insert, contains, set_insert, set_remove, nat_key, get-insert, contains-set_remove,
}
use ckb_miner_opt.Core.Transaction.{H256}
use ckb_miner_opt.Sync.Inflight.{
  PeerIndex, InflightState, Blocks, States, hashes_of, state_or_new, forget, forget_each, leave,
  leave_each,
}

abbrev pub peers_of : Option InflightState → List PeerIndex
peers_of none = []
peers_of (some state) = state.peers

-- Whether a map says that a peer was asked for a block.
unfoldable pub asks : Blocks → PeerIndex → H256 → Bool
asks m peer hash = contains (hashes_of (get m peer)) hash

unfoldable pub asked : States → H256 → PeerIndex → Bool
asked m hash peer = contains (peers_of (get m hash)) peer

pub asks-forget :
    (p : PeerIndex) (h : H256) (m : Blocks) (q : PeerIndex) (k : H256)
    → asks (forget p h m) q k
      ≡ ite (ℕ_discrete p q) (ite (ℕ_discrete h k) false (asks m q k)) (asks m q k)
unfolding asks forget contains
asks-forget p h m q k = elim (Option-cases (get m p)) [
  | inl e ↦ ground (arith)
  | inr (hashes, e) ↦
      ground (arith, get-insert p q (set_remove h hashes) m, contains-set_remove h k hashes)
]

pub asks-forget_each :
    (ps : List PeerIndex) (h : H256) (m : Blocks) (q : PeerIndex) (k : H256)
    → asks (forget_each ps h m) q k
      ≡ ite (ℕ_discrete h k) (if contains ps q then false else asks m q k) (asks m q k)
unfolding forget_each contains
asks-forget_each [] h m q k = ground arith
asks-forget_each (p ∷ ps) h m q k =
    ground (arith, asks-forget_each ps h (forget p h m) q k, asks-forget p h m q k)

pub asked-leave :
    (p : PeerIndex) (h : H256) (m : States) (k : H256) (q : PeerIndex)
    → asked (leave p h m) k q
      ≡ ite (ℕ_discrete h k) (ite (ℕ_discrete p q) false (asked m k q)) (asked m k q)
unfolding asked leave contains
asked-leave p h m k q = elim (Option-cases (get m h)) [
  | inl e ↦ ground (arith)
  | inr (state, e) ↦ ground (
    arith,
    get-insert h k (record state { peers = set_remove p state.peers }) m,
    contains-set_remove p q state.peers,
  )
]

pub asked-leave_each :
    (p : PeerIndex) (hs : List H256) (m : States) (k : H256) (q : PeerIndex)
    → asked (leave_each p hs m) k q
      ≡ ite (ℕ_discrete p q) (if contains hs k then false else asked m k q) (asked m k q)
unfolding leave_each contains
asked-leave_each p [] m k q = ground arith
asked-leave_each p (h ∷ hs) m k q =
    ground (arith, asked-leave_each p hs (leave p h m) k q, asked-leave p h m k q)

pub asks-insert :
    (p : PeerIndex) (hs : List H256) (m : Blocks) (q : PeerIndex) (k : H256)
    → asks (insert p hs m) q k ≡ ite (ℕ_discrete p q) (contains hs k) (asks m q k)
unfolding asks
asks-insert p hs m q k = ground (arith, get-insert p q hs m)

pub asked-insert :
    (h : H256) (state : InflightState) (m : States) (k : H256) (q : PeerIndex)
    → asked (insert h state m) k q ≡ ite (ℕ_discrete h k) (contains state.peers q) (asked m k q)
unfolding asked
asked-insert h state m k q = ground (arith, get-insert h k state m)

pub contains-set_insert :
    (p q : PeerIndex) (s : List PeerIndex)
    → contains (set_insert p s) q ≡ ite (ℕ_discrete p q) true (contains s q)
unfolding contains
contains-set_insert p q s = ground arith

pub own_asks :
    (m : Blocks) (p : PeerIndex) (k : H256) → contains (hashes_of (get m p)) k ≡ asks m p k
unfolding asks
own_asks m p k = refl

pub asked-state_or_new :
    (now : ℕ) (m : States) (h : H256) (q : PeerIndex)
    → contains (state_or_new now (get m h)).peers q ≡ asked m h q
unfolding asked
asked-state_or_new now m h q = elim (Option-cases (get m h)) [
  | inl e ↦ ground arith
  | inr (state, e) ↦ ground arith
]
