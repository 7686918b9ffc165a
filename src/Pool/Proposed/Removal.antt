-- ===== src/Pool/Proposed/Removal.antt =====
-- Removing a vertex of the proposed pool and all that hangs on it.
use ckb_miner_opt.Base.{
  ℕ, zero, suc, ◌≤◌, ◌≡◌, refl, sym, ap, ◌∙◌, subst, ◌⊎◌, inl, inr, Option, none, some, List, [],
  ◌∷◌, ◌++◌, arith, length, All, Any, Option-cases,
}
use ckb_miner_opt.Base.Maps.{get, remove, length-remove-lt, get-remove, get-remove_self, nat_key}
use ckb_miner_opt.Core.Transaction.{ProposalShortId, out_point_key}
use ckb_miner_opt.Pool.Types.{ProposedEntry, Entries}
use ckb_miner_opt.Pool.Proposed.{
  ProposedPool, Removed, drain, drop_vertex, remove_vertex, with_entry,
}

drain-nil : (fuel : ℕ) (p : ProposedPool) → drain fuel [] p ≡ some (p, [])
unfolding drain
drain-nil fuel p = refl

drain-absent :
    (fuel : ℕ) (id : ProposalShortId) (queue : List ProposalShortId) (p : ProposedPool)
    → get p.vertices id ≡ none
    → drain fuel (id ∷ queue) p ≡ drain fuel queue p
unfolding drain
drain-absent zero id queue p h = rw (h, drain)
drain-absent (suc fuel) id queue p h = rw (h, drain)

drain-found :
    (fuel : ℕ) (id : ProposalShortId) (queue : List ProposalShortId) (p : ProposedPool)
    (e : ProposedEntry)
    → get p.vertices id ≡ some e
    → drain (suc fuel) (id ∷ queue) p
      ≡ with_entry e (drain fuel (queue ++ (drop_vertex id e p).1) (drop_vertex id e p).0)
unfolding drain
drain-found fuel id queue p e h = rw (h, drain)

vertices-drop_vertex :
    (id : ProposalShortId) (e : ProposedEntry) (p : ProposedPool)
    → (drop_vertex id e p).0.vertices ≡ remove id p.vertices
unfolding drop_vertex
vertices-drop_vertex id e p = refl

get_nil : (vs : Entries ProposedEntry) (id : ProposalShortId) → length vs ≤ 0 → get vs id ≡ none
unfolding get
get_nil [] id h = refl
get_nil (v ∷ vs) id h = absurd (omega arith)

-- The fuel suffices: each removal makes the map of vertices smaller.
pub drain-total :
    (fuel : ℕ) (queue : List ProposalShortId) (p : ProposedPool)
    → length p.vertices ≤ fuel
    → (r : Removed) × (drain fuel queue p ≡ some r)
drain-total fuel [] p h = ((p, []), drain-nil fuel p)
drain-total zero (id ∷ queue) p h =
    let (r, ran) = drain-total zero queue p h in
    (r, drain-absent zero id queue p (get_nil p.vertices id h) ∙ ran)
drain-total (suc fuel) (id ∷ queue) p h = elim (Option-cases (get p.vertices id)) [
  | inl absent ↦
      let (r, ran) = drain-total (suc fuel) queue p h in
      (r, drain-absent (suc fuel) id queue p absent ∙ ran)
  | inr (e, found) ↦
      let (r, ran) = drain-total fuel (queue ++ (drop_vertex id e p).1) (drop_vertex id e p).0 (
        omega (
          arith,
          length-remove-lt id p.vertices e found,
          ap length (vertices-drop_vertex id e p),
        )) in
      ((r.0, e ∷ r.1), drain-found fuel id queue p e found ∙ ap (with_entry e) ran)
]

-- `remove` ends: as many removals as there are vertices are enough for the loop over the queue.
pub remove_vertex-total :
    (id : ProposalShortId) (p : ProposedPool) → (r : Removed) × (remove_vertex id p ≡ some r)
unfolding remove_vertex
remove_vertex-total id p = drain-total (length p.vertices) (id ∷ []) p (omega arith)

none_ne : {r : Removed} → ◌≡◌ {A = Option Removed} none (some r) → ⊥
none_ne h = cc

-- What a removal leaves: no key gains an entry, and every vertex that is gone was returned.
pub record Leaves (p : ProposedPool) (r : Removed) : Type 0 where
  pub kept :
      (j : ProposalShortId) → (get r.0.vertices j ≡ get p.vertices j) ⊎ (get r.0.vertices j ≡ none)
  pub returned :
      (j : ProposalShortId) (e : ProposedEntry)
      → get p.vertices j ≡ some e
      → (get r.0.vertices j ≡ some e) ⊎ Any (λ e'. e' ≡ e) r.1

Leaves-refl : (p : ProposedPool) → Leaves p (p, [])
Leaves-refl p = record { kept = λ j. inl refl; returned = λ j e h. inl h }

Leaves-drop :
    (id : ProposalShortId) (e : ProposedEntry) (p : ProposedPool) (r : Removed)
    → get p.vertices id ≡ some e
    → Leaves (drop_vertex id e p).0 r
    → Leaves p (r.0, e ∷ r.1)
Leaves-drop id e p r found l = record {
  kept = λ j. ground (arith, l.kept j, get-remove id j p.vertices, vertices-drop_vertex id e p);
  returned = λ j e' h.
      ground (arith, l.returned j e', get-remove id j p.vertices, vertices-drop_vertex id e p);
}

with_entry-eq_some :
    (e : ProposedEntry) (o : Option Removed) {r : Removed}
    → with_entry e o ≡ some r
    → (r' : Removed) × (o ≡ some r') × (r ≡ (r'.0, e ∷ r'.1))
with_entry-eq_some e none h = cc
with_entry-eq_some e (some r') h = (r', refl, ground arith)

-- Everything in the queue is gone afterwards, what is gone was returned, the rest is as it was.
abbrev pub Drained : List ProposalShortId → ProposedPool → Removed → Type 0
Drained queue p r = All (λ id. get r.0.vertices id ≡ none) queue × Leaves p r

absent_stays :
    (id : ProposalShortId) (p : ProposedPool) (r : Removed)
    → get p.vertices id ≡ none
    → Leaves p r
    → get r.0.vertices id ≡ none
absent_stays id p r absent l = ground (arith, l.kept id)

dropped_stays :
    (id : ProposalShortId) (e : ProposedEntry) (p : ProposedPool) (r : Removed)
    → Leaves (drop_vertex id e p).0 r
    → get r.0.vertices id ≡ none
dropped_stays id e p r l =
    absent_stays id (drop_vertex id e p).0 r
      (ap (λ vs. get vs id) (vertices-drop_vertex id e p) ∙ get-remove_self id p.vertices) l

All-prefix :
    (P : ProposalShortId → Type 0) (xs ys : List ProposalShortId) → All P (xs ++ ys) → All P xs
All-prefix P [] ys h = tt
All-prefix P (x ∷ xs) ys h = (h.0, All-prefix P xs ys h.1)

drain-zero_found :
    (id : ProposalShortId) (queue : List ProposalShortId) (p : ProposedPool) (e : ProposedEntry)
    → get p.vertices id ≡ some e
    → drain zero (id ∷ queue) p ≡ none
unfolding drain
drain-zero_found id queue p e h = rw (h, drain)

pub drain-Drained :
    (fuel : ℕ) (queue : List ProposalShortId) (p : ProposedPool) {r : Removed}
    → drain fuel queue p ≡ some r
    → Drained queue p r
drain-Drained fuel [] p {r} h =
    let same : (p, []) ≡ r = ground (arith, drain-nil fuel p) in
    (tt, subst (Leaves p) same (Leaves-refl p))
drain-Drained zero (id ∷ queue) p {r} h = elim (Option-cases (get p.vertices id)) [
  | inl absent ↦
      let (gone, l) = drain-Drained zero queue p (sym (drain-absent zero id queue p absent) ∙ h) in
      ((absent_stays id p r absent l, gone), l)
  | inr (e, found) ↦ absurd (none_ne (sym (drain-zero_found id queue p e found) ∙ h))
]
drain-Drained (suc fuel) (id ∷ queue) p {r} h = elim (Option-cases (get p.vertices id)) [
  | inl absent ↦
      let (gone, l) =
        drain-Drained (suc fuel) queue p (sym (drain-absent (suc fuel) id queue p absent) ∙ h) in
      ((absent_stays id p r absent l, gone), l)
  | inr (e, found) ↦
      let (r', ran, same) =
        with_entry-eq_some e _ (sym (drain-found fuel id queue p e found) ∙ h) in
      let (gone, l) = drain-Drained fuel (queue ++ (drop_vertex id e p).1) _ ran in
      subst (Drained (id ∷ queue) p) (sym same) (
        (dropped_stays id e p r' l, All-prefix _ queue (drop_vertex id e p).1 gone),
        Leaves-drop id e p r' found l,
      )
]

-- After `remove`, the transaction is not in the pool; no vertex has changed but for those that are
-- gone, and each of those was returned.
pub remove_vertex-Leaves :
    (id : ProposalShortId) (p : ProposedPool) {r : Removed}
    → remove_vertex id p ≡ some r
    → (get r.0.vertices id ≡ none) × Leaves p r
unfolding remove_vertex
remove_vertex-Leaves id p h =
    let (gone, l) = drain-Drained (length p.vertices) (id ∷ []) p h in (gone.0, l)
