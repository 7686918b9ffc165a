-- ===== src/Sync/Inflight/Valid.antt =====
-- The two maps of `InflightBlocks` (sync/src/types.rs) agree after any operations.
use ckb_miner_opt.Base.{
  if-ind, option-ind, ℕ, ◌≡◌, refl, Bool, true, false, ◌∷◌, arith, leb, length,
}
use ckb_miner_opt.Base.Maps.{get, remove, contains, set_insert, nat_key, get-remove}
use ckb_miner_opt.Core.Transaction.{H256}
use ckb_miner_opt.Sync.Inflight.{
  PeerIndex, InflightBlocks, none_inflight, hashes_of, state_or_new, insert_inflight, forget_each,
  leave_each, retain, prune, remove_by_peer, remove_by_block, max_peers_per_block,
}
use ckb_miner_opt.Sync.Inflight.Asked.{
  asks, asked, asks-forget_each, asked-leave_each, asks-insert, asked-insert, contains-set_insert,
  own_asks, asked-state_or_new,
}
use ckb_miner_opt.Sync.Inflight.Once.{
  Unique, insert-Unique, remove-Unique, retain-get, retain-Unique, leave_each-Unique, asks-retain,
  Bounded, insert-Bounded, remove-Bounded, retain-Bounded, leave_each-Bounded, state_or_new-Bounded,
}

-- The maps agree: a peer is asked for a block by the one exactly if it is by the other; each block has
-- one state, with at most `MAX_PEERS_PER_BLOCK` peers.
pub record IsValid (f : InflightBlocks) : Type 0 where
  pub agree : (peer : PeerIndex) (hash : H256) → asks f.blocks peer hash ≡ asked f.states hash peer
  pub unique : Unique f.states
  pub bounded : Bounded f.states

none_inflight-IsValid : IsValid none_inflight
unfolding asks asked contains get
none_inflight-IsValid = record {
  agree = λ peer hash. refl;
  unique = tt;
  bounded = λ hash state e. cc;
}

prune-IsValid : (now : ℕ) (f : InflightBlocks) → IsValid f → IsValid (prune now f)
unfolding prune asked contains
prune-IsValid now f v = record {
  agree = λ peer hash.
      let both : asks (retain now f.states f.blocks).1 peer hash
          ≡ asked (retain now f.states f.blocks).0 hash peer =
        ground (
          arith,
          asks-retain now f.states f.blocks peer hash v.unique,
          retain-get now f.states f.blocks hash v.unique,
          v.agree peer hash,
        ) in
      both;
  unique = retain-Unique now f.states f.blocks v.unique;
  bounded = retain-Bounded now f.states f.blocks v.unique v.bounded;
}

remove_by_block-IsValid :
    (hash : H256) (f : InflightBlocks) → IsValid f → IsValid (remove_by_block hash f).0
unfolding remove_by_block asked contains
remove_by_block-IsValid hash f v =
    option-ind (λ (r : InflightBlocks × Bool). IsValid r.0) (get f.states hash) (f, false)
      (λ state. (
        record { blocks = forget_each state.peers hash f.blocks; states = remove hash f.states },
        true,
      ))
      v
      (λ state found. record {
        agree = λ peer k.
            let both : asks (forget_each state.peers hash f.blocks) peer k
                ≡ asked (remove hash f.states) k peer =
              ground (
                arith,
                asks-forget_each state.peers hash f.blocks peer k,
                get-remove hash k f.states,
                v.agree peer k,
              ) in
            both;
        unique = remove-Unique hash f.states v.unique;
        bounded = remove-Bounded hash f.states v.bounded;
      })

remove_by_peer-IsValid :
    (peer : PeerIndex) (f : InflightBlocks) → IsValid f → IsValid (remove_by_peer peer f).0
unfolding remove_by_peer asks contains
remove_by_peer-IsValid peer f v =
    option-ind (λ (r : InflightBlocks × Bool). IsValid r.0) (get f.blocks peer) (f, false)
      (λ hashes.
        (record { blocks = remove peer f.blocks; states = leave_each peer hashes f.states }, true))
      v
      (λ hashes found. record {
        agree = λ q k.
            let both : asks (remove peer f.blocks) q k
                ≡ asked (leave_each peer hashes f.states) k q =
              ground (
                arith,
                asked-leave_each peer hashes f.states k q,
                get-remove peer q f.blocks,
                v.agree q k,
              ) in
            both;
        unique = leave_each-Unique peer hashes f.states v.unique;
        bounded = leave_each-Bounded peer hashes f.states v.bounded;
      })

insert_inflight-IsValid :
    (now : ℕ) (peer : PeerIndex) (hash : H256) (f : InflightBlocks)
    → IsValid f
    → IsValid (insert_inflight now peer hash f).0
unfolding insert_inflight contains
insert_inflight-IsValid now peer hash f v =
    let state = state_or_new now (get f.states hash) in
    let own = hashes_of (get f.blocks peer) in
    let asked_more = record state { peers = set_insert peer state.peers } in
    let few = state_or_new-Bounded now f.states hash v.bounded in
    if-ind (λ (r : InflightBlocks × Bool). IsValid r.0)
      (leb max_peers_per_block (length state.peers)) _ _
      (λ full. record {
        agree = λ q k. ground (
          arith,
          asked-insert hash state f.states k q,
          asked-state_or_new now f.states hash q,
          v.agree q k,
        );
        unique = insert-Unique hash state f.states v.unique;
        bounded = insert-Bounded hash state f.states few v.bounded;
      })
      (λ room.
        if-ind (λ (r : InflightBlocks × Bool). IsValid r.0) (contains own hash) _ _
          (λ known. record {
            agree = λ q k. ground (
              arith,
              own_asks f.blocks peer k,
              asks-insert peer own f.blocks q k,
              asked-insert hash state f.states k q,
              asked-state_or_new now f.states hash q,
              v.agree q k,
            );
            unique = insert-Unique hash state f.states v.unique;
            bounded = insert-Bounded hash state f.states few v.bounded;
          })
          (λ new. record {
            agree = λ q k. ground (
              arith,
              own_asks f.blocks peer k,
              asks-insert peer (hash ∷ own) f.blocks q k,
              asked-insert hash asked_more f.states k q,
              contains-set_insert peer q state.peers,
              asked-state_or_new now f.states hash q,
              v.agree q k,
            );
            unique = insert-Unique hash asked_more f.states v.unique;
            bounded = insert-Bounded hash asked_more f.states (ground arith) v.bounded;
          }))

-- What the operations make of nothing in flight, in any order and at any times.
pub data Reached : InflightBlocks → Type 0 where
  nothing : Reached none_inflight
  after_insert :
      {f : InflightBlocks} (now : ℕ) (peer : PeerIndex) (hash : H256)
      → Reached f
      → Reached (insert_inflight now peer hash f).0
  after_prune : {f : InflightBlocks} (now : ℕ) → Reached f → Reached (prune now f)
  after_remove_by_peer :
      {f : InflightBlocks} (peer : PeerIndex) → Reached f → Reached (remove_by_peer peer f).0
  after_remove_by_block :
      {f : InflightBlocks} (hash : H256) → Reached f → Reached (remove_by_block hash f).0

-- After any insertions, prunings and removals the two maps of `InflightBlocks` agree on which peer was asked
-- for which block, each block has one state, and no block is asked of more than two peers.
pub Reached-IsValid : (f : InflightBlocks) → Reached f → IsValid f
Reached-IsValid _ nothing = none_inflight-IsValid
Reached-IsValid _ (after_insert {f = f} now peer hash r) =
    insert_inflight-IsValid now peer hash f (Reached-IsValid f r)
Reached-IsValid _ (after_prune {f = f} now r) = prune-IsValid now f (Reached-IsValid f r)
Reached-IsValid _ (after_remove_by_peer {f = f} peer r) =
    remove_by_peer-IsValid peer f (Reached-IsValid f r)
Reached-IsValid _ (after_remove_by_block {f = f} hash r) =
    remove_by_block-IsValid hash f (Reached-IsValid f r)
