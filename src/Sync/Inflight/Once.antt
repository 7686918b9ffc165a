-- ===== src/Sync/Inflight/Once.antt =====
-- The states of `InflightBlocks` (sync/src/types.rs): one for a block, with few peers, and what `retain` keeps.
use ckb_miner_opt.Base.{
  ite-ind, if-ind, option-ind, ℕ, ◌≤◌, ◌≡◌, refl, sym, subst, if_neg, ◌∙◌, false, none, some, List,
  [], ◌∷◌, arith, length, ℕ_discrete, if◌then◌else◌, Option-cases, inl, inr,
}
use ckb_miner_opt.Base.Maps.{
  get, insert, remove, contains, set_remove, nat_key, get-insert, get-remove,
}
use ckb_miner_opt.Core.Transaction.{H256}
use ckb_miner_opt.Sync.Inflight.{
  PeerIndex, InflightState, Blocks, States, state_or_new, forget_each, leave, leave_each,
  is_outdated, retain, max_peers_per_block,
}
use ckb_miner_opt.Sync.Inflight.Asked.{asks, asks-forget_each}

-- Each key is there once.
abbrev pub Unique : States → Type 0
Unique [] = Unit
Unique ((hash, state) ∷ m) = (get m hash ≡ none) × Unique m

pub insert-Unique :
    (k : H256) (state : InflightState) (m : States) → Unique m → Unique (insert k state m)
unfolding insert get
insert-Unique k state [] u = (refl, tt)
insert-Unique k state ((h, s) ∷ m) u =
    ite-ind Unique (ℕ_discrete h k) ((k, state) ∷ m) ((h, s) ∷ insert k state m)
      (λ e. (subst (λ x. get m x ≡ none) e u.0, u.1))
      (λ n. (
        get-insert k h state m ∙ (if_neg (ℕ_discrete k h) (λ e. n (sym e)) _ _ ∙ u.0),
        insert-Unique k state m u.1,
      ))

pub remove-Unique : (k : H256) (m : States) → Unique m → Unique (remove k m)
unfolding remove
remove-Unique k [] u = tt
remove-Unique k ((h, s) ∷ m) u =
    ite-ind Unique (ℕ_discrete h k) (remove k m) ((h, s) ∷ remove k m) (λ e. remove-Unique k m u.1)
      (λ n. (
        get-remove k h m ∙ (if_neg (ℕ_discrete k h) (λ e. n (sym e)) _ _ ∙ u.0),
        remove-Unique k m u.1,
      ))

pub length-set_remove-le : (k : PeerIndex) (s : List PeerIndex) → length (set_remove k s) ≤ length s
unfolding set_remove
length-set_remove-le k [] = omega arith
length-set_remove-le k (j ∷ s) = ground (arith, length-set_remove-le k s)

-- The states that `retain` keeps, and the blocks that it forgets.
pub retain-get :
    (now : ℕ) (m : States) (blocks : Blocks) (h : H256)
    → Unique m
    → get (retain now m blocks).0 h
      ≡ elim (get m h) [ none ↦ none | some s ↦ if is_outdated now s then none else some s ]
unfolding retain get
retain-get now [] blocks h u = refl
retain-get now ((k, s) ∷ m) blocks h u =
    ground
      (arith, retain-get now m blocks h u.1, retain-get now m (forget_each s.peers k blocks) h u.1)

pub retain-Unique :
    (now : ℕ) (m : States) (blocks : Blocks) → Unique m → Unique (retain now m blocks).0
unfolding retain
retain-Unique now [] blocks u = tt
retain-Unique now ((k, s) ∷ m) blocks u =
    if-ind (λ (r : States × Blocks). Unique r.0) (is_outdated now s)
      (retain now m (forget_each s.peers k blocks))
      ((k, s) ∷ (retain now m blocks).0, (retain now m blocks).1)
      (λ _. retain-Unique now m (forget_each s.peers k blocks) u.1)
      (λ _. (ground (arith, retain-get now m blocks k u.1, u.0), retain-Unique now m blocks u.1))

pub leave_each-Unique :
    (p : PeerIndex) (hs : List H256) (m : States) → Unique m → Unique (leave_each p hs m)
unfolding leave_each leave
leave_each-Unique p [] m u = u
leave_each-Unique p (h ∷ hs) m u = leave_each-Unique p hs (leave p h m) (
    option-ind Unique (get m h) m
      (λ state. insert h (record state { peers = set_remove p state.peers }) m) u
      (λ state e. insert-Unique h (record state { peers = set_remove p state.peers }) m u))

-- What `retain` forgets of the blocks.
pub asks-retain :
    (now : ℕ) (m : States) (blocks : Blocks) (q : PeerIndex) (k : H256)
    → Unique m
    → asks (retain now m blocks).1 q k ≡ elim (get m k) [
      | none ↦ asks blocks q k
      | some s ↦
          if is_outdated now s
          then if contains s.peers q then false else asks blocks q k
          else asks blocks q k
    ]
unfolding retain get
asks-retain now [] blocks q k u = refl
asks-retain now ((h, s) ∷ m) blocks q k u = ground (
  arith,
  asks-retain now m blocks q k u.1,
  asks-retain now m (forget_each s.peers h blocks) q k u.1,
  asks-forget_each s.peers h blocks q k,
  u.0,
)

-- No block is asked of more peers than `MAX_PEERS_PER_BLOCK`.
abbrev pub Bounded : States → Type 0
Bounded m =
    (hash : H256) (state : InflightState)
    → get m hash ≡ some state
    → length state.peers ≤ max_peers_per_block

pub insert-Bounded :
    (k : H256) (state : InflightState) (m : States)
    → length state.peers ≤ max_peers_per_block
    → Bounded m
    → Bounded (insert k state m)
insert-Bounded k state m le b h s e = ground (arith, get-insert k h state m, b h s)

pub remove-Bounded : (k : H256) (m : States) → Bounded m → Bounded (remove k m)
remove-Bounded k m b h s e = ground (arith, get-remove k h m, b h s)

pub retain-Bounded :
    (now : ℕ) (m : States) (blocks : Blocks)
    → Unique m
    → Bounded m
    → Bounded (retain now m blocks).0
retain-Bounded now m blocks u b h s e = ground (arith, retain-get now m blocks h u, b h s)

pub leave_each-Bounded :
    (p : PeerIndex) (hs : List H256) (m : States) → Bounded m → Bounded (leave_each p hs m)
unfolding leave_each leave
leave_each-Bounded p [] m b = b
leave_each-Bounded p (h ∷ hs) m b = leave_each-Bounded p hs (leave p h m) (
    option-ind Bounded (get m h) m
      (λ state. insert h (record state { peers = set_remove p state.peers }) m) b
      (λ state e.
        insert-Bounded h (record state { peers = set_remove p state.peers }) m
          (omega (arith, b h state e, length-set_remove-le p state.peers)) b))

pub state_or_new-Bounded :
    (now : ℕ) (m : States) (h : H256)
    → Bounded m
    → length (state_or_new now (get m h)).peers ≤ max_peers_per_block
state_or_new-Bounded now m h b = elim (Option-cases (get m h)) [
  | inl e ↦ ground arith
  | inr (state, e) ↦ ground (arith, b h state e)
]
