-- ===== src/Pool/Orphan/Release.antt =====
-- What `remove_by_ancestor` of shared/src/tx_pool/orphan.rs returns, and that it ends.
use ckb_miner_opt.Base.{
  ℕ, zero, suc, ◌+◌, ◌-◌, ◌≤◌, ◌<◌, ◌≡◌, refl, ap, ◌∙◌, ◌⊎◌, inl, inr, Option, none, some, List, [],
  ◌∷◌, ◌++◌, arith, length, length-append, All, All-append, Bool-cases, ℕ_discrete, ◌==◌,
}
use ckb_miner_opt.Base.Maps.{get, insert, remove, length-remove-lt, get-insert, nat_key}
use ckb_miner_opt.Base.Outcome.{ok, ◌>>=◌}
use ckb_miner_opt.Core.Transaction.{
  OutPoint, ProposalShortId, Transaction, input_pts, output_pts, out_point_key, proposal_short_id,
}
use ckb_miner_opt.Pool.Types.{DefectEntry, Entries}
use ckb_miner_opt.Pool.Edges.{or_empty}
use ckb_miner_opt.Pool.Orphan.{
  OrphanPool, add_orphan, remove_conflict, Released, Releasing, release_one, release_entry,
  release_ids, release_outputs, release_all, remove_by_ancestor,
}
use ckb_miner_opt.Pool.Orphan.Removal.{Positive, Positive-remove, remove_conflicts-Dropped}

length-insert_present :
    (k : ProposalShortId) (v w : DefectEntry) (m : Entries DefectEntry)
    → get m k ≡ some w
    → length (insert k v m) ≡ length m
unfolding get insert
length-insert_present k v w [] h = cc
length-insert_present k v w ((j, x) ∷ m) h = ground (arith, length-insert_present k v w m)

-- The lists of outputs still to come, and the vertices that may add one.
abbrev pub work : Released → ℕ
work s = length s.queue + length s.pool.vertices

-- Every orphan waits for an output, and what was released waits for none.
abbrev pub Sound : Released → Type 0
Sound s = Positive s.pool.vertices × All (λ e. e.refs_count ≡ 0) s.txs

-- From a sound state, a step ends in a sound state with no more work.
abbrev pub Steps : Released → Releasing Released → Type 0
Steps s m = (s' : Released) × (m ≡ ok s') × (work s' ≤ work s) × Sound s'

Steps-chain :
    (s : Released) (m : Releasing Released) (f : Released → Releasing Released)
    → Steps s m
    → ((s' : Released) → Sound s' → Steps s' (f s'))
    → Steps s (m >>= f)
Steps-chain s m f (s', ran, less, sound) rest =
    let (s'', ran', less', sound') = rest s' sound in
    (s'', ap (λ x. x >>= f) ran ∙ ran', omega arith, sound')

pub Positive-insert :
    (cid : ProposalShortId) (entry : DefectEntry) (vs : Entries DefectEntry)
    → 0 < entry.refs_count
    → Positive vs
    → Positive (insert cid entry vs)
Positive-insert cid entry vs more h id e found = elim (ℕ_discrete cid id) [
  | yes same ↦ ground (arith, get-insert cid id entry vs)
  | no other ↦ h id e (ground (arith, get-insert cid id entry vs))
]

release_entry-Steps :
    (cid : ProposalShortId) (s : Released) (entry : DefectEntry)
    → get s.pool.vertices cid ≡ some entry
    → Sound s
    → Steps s (release_entry cid s entry)
unfolding release_entry
release_entry-Steps cid s entry found (positive, complete) =
    let some_left = positive cid entry found in
    let entry' = record entry { refs_count = entry.refs_count - 1 } in
    elim (Bool-cases (entry'.refs_count == 0)) [
      | inl last ↦
          let s' : Released = record {
            pool = record s.pool { vertices = remove cid s.pool.vertices };
            queue = s.queue ++ output_pts entry.transaction ∷ [];
            txs = s.txs ++ entry' ∷ [];
          } in
          (
            s',
            ground arith,
            omega (
              arith,
              length-append s.queue (output_pts entry.transaction ∷ []),
              length-remove-lt cid s.pool.vertices entry found,
            ),
            (
              Positive-remove cid s.pool.vertices positive,
              All-append (λ e. e.refs_count ≡ 0) s.txs (entry' ∷ []) complete (ground arith, tt),
            ),
          )
      | inr more ↦ (
        record s { pool = record s.pool { vertices = insert cid entry' s.pool.vertices } },
        ground arith,
        omega (arith, length-insert_present cid entry' entry s.pool.vertices found),
        (Positive-insert cid entry' s.pool.vertices (ground arith) positive, complete),
      )
    ]

release_one-Steps : (cid : ProposalShortId) (s : Released) → Sound s → Steps s (release_one cid s)
unfolding release_one
release_one-Steps cid s sound = go (get s.pool.vertices cid) refl
  where
    go :
        (o : Option DefectEntry)
        → get s.pool.vertices cid ≡ o
        → Steps s (elim o [ none ↦ ok s | some entry ↦ release_entry cid s entry ])
    go none absent = (s, refl, omega arith, sound)
    go (some entry) found = release_entry-Steps cid s entry found sound

release_ids-Steps :
    (cids : List ProposalShortId) (s : Released) → Sound s → Steps s (release_ids cids s)
unfolding release_ids
release_ids-Steps [] s sound = (s, refl, omega arith, sound)
release_ids-Steps (cid ∷ cids) s sound =
    Steps-chain s (release_one cid s) (release_ids cids) (release_one-Steps cid s sound)
      (release_ids-Steps cids)

release_outputs-Steps :
    (os : List OutPoint) (s : Released) → Sound s → Steps s (release_outputs os s)
unfolding release_outputs
release_outputs-Steps [] s sound = (s, refl, omega arith, sound)
release_outputs-Steps (o ∷ os) s sound =
    let s' = record s { pool = record s.pool { edges = remove o s.pool.edges } } in
    Steps-chain s (release_ids (or_empty (get s.pool.edges o)) s') (release_outputs os)
      (release_ids-Steps (or_empty (get s.pool.edges o)) s' sound) (release_outputs-Steps os)

-- The loop over the queue ends with a sound state and an empty queue.
abbrev pub Ends : Releasing Released → Type 0
Ends m = (s : Released) × (m ≡ ok s) × (s.queue ≡ []) × Sound s

release_all-nil : (fuel : ℕ) (s : Released) → s.queue ≡ [] → release_all fuel s ≡ ok s
unfolding release_all
release_all-nil zero s e = ground arith
release_all-nil (suc fuel) s e = ground arith

release_all-cons :
    (fuel : ℕ) (s : Released) (os : List OutPoint) (queue : List (List OutPoint))
    → s.queue ≡ os ∷ queue
    → release_all (suc fuel) s
      ≡ (release_outputs os (record s { queue = queue }) >>= release_all fuel)
unfolding release_all
release_all-cons fuel s os queue e = rw e

queue_cases :
    (q : List (List OutPoint))
    → (q ≡ []) ⊎ ((os : List OutPoint) × (queue : List (List OutPoint)) × (q ≡ os ∷ queue))
queue_cases [] = inl refl
queue_cases (os ∷ queue) = inr (os, queue, refl)

release_all-Ends : (fuel : ℕ) (s : Released) → work s ≤ fuel → Sound s → Ends (release_all fuel s)
release_all-Ends zero s h sound = elim (queue_cases s.queue) [
  | inl e ↦ (s, release_all-nil zero s e, e, sound)
  | inr (os, queue, e) ↦ absurd (omega (arith, ap length e))
]
release_all-Ends (suc fuel) s h sound = elim (queue_cases s.queue) [
  | inl e ↦ (s, release_all-nil (suc fuel) s e, e, sound)
  | inr (os, queue, e) ↦
      let s₁ = record s { queue = queue } in
      let (s₂, ran, less, sound') = release_outputs-Steps os s₁ sound in
      let (s₃, ended, empty, sound'') =
        release_all-Ends fuel s₂ (omega (arith, ap length e)) sound' in
      (
        s₃,
        release_all-cons fuel s os queue e ∙ (ap (λ m. m >>= release_all fuel) ran ∙ ended),
        empty,
        sound'',
      )
]

-- `remove_by_ancestor` ends and does not panic when each orphan waits for at least one output: one
-- round more than there are orphans is enough. Afterwards each orphan still waits for at least one
-- output, and each entry that is returned waits for none.
pub remove_by_ancestor-Ends :
    (tx : Transaction) (p : OrphanPool) → Positive p.vertices → Ends (remove_by_ancestor tx p)
unfolding remove_by_ancestor remove_conflict
remove_by_ancestor-Ends tx p positive =
    let (p', dropped, kept) = remove_conflicts-Dropped (input_pts tx) p in
    let start : Released = record { pool = p'; queue = output_pts tx ∷ []; txs = [] } in
    let (s, ran, empty, sound) =
      release_all-Ends (suc (length p'.vertices)) start (omega arith) (kept positive, tt) in
    (s, ground (arith, dropped, ran), empty, sound)

-- An orphan that is added with an unknown output waits, and the others wait as they did.
pub add_orphan-Positive :
    (cycles : Option ℕ) (size : ℕ) (tx : Transaction) (unknown : List OutPoint) (p : OrphanPool)
    → 0 < length unknown
    → Positive p.vertices
    → Positive (add_orphan cycles size tx unknown p).0.vertices
unfolding add_orphan
add_orphan-Positive cycles size tx unknown p some_unknown positive =
    Positive-insert (proposal_short_id tx) _ p.vertices some_unknown positive
