-- ===== src/Core/Cell/Resolve/Spending.antt =====
-- What the set of seen inputs is for: no out point is spent twice, and no dep is spent.
use ckb_miner_opt.Base.{
  ◌≡◌, refl, sym, ap, ◌∙◌, subst, true, false, List, [], ◌∷◌, ◌++◌, arith, if◌then◌else◌,
}
use ckb_miner_opt.Base.Outcome.{Outcome, ok, expect, >>=-eq-ok}
use ckb_miner_opt.Base.Maps.{contains, Distinct}
use ckb_miner_opt.Core.Transaction.{OutPoint, Transaction, is_issuing_dao, out_point_key}
use ckb_miner_opt.Core.Cell.{
  CellStatus, HeaderStatus, CellProvider, HeaderProvider, ResolvedOutPoint, ResolvedTransaction,
  UnresolvableError,
}
use ckb_miner_opt.Core.Cell.Resolve.{
  Progress, settle_input, settle_dep, resolve_input, resolve_inputs, resolve_dep, resolve_deps,
  spending_inputs, finish, resolve_transaction, resolve_all,
}

-- The out points that a list of inputs spends: the inputs that issue DAO interest spend nothing.
abbrev pub spent : List OutPoint → List OutPoint
spent [] = []
spent (o ∷ os) = if is_issuing_dao o then spent os else o ∷ spent os

-- The inputs in the order in which they are met, each new to what was seen before it.
abbrev pub Fresh : List OutPoint → List OutPoint → Type 0
Fresh [] seen = Unit
Fresh (o ∷ os) seen = (contains seen o ≡ false) × Fresh os (o ∷ seen)

-- The set after the inputs were met.
abbrev pub after : List OutPoint → List OutPoint → List OutPoint
after [] seen = seen
after (o ∷ os) seen = after os (o ∷ seen)

pub settle_input-seen :
    (o : OutPoint) (c : CellStatus) (h : HeaderStatus) (p : Progress) {q : Progress}
    → settle_input o c h p ≡ ok q
    → q.seen ≡ p.seen
unfolding settle_input
settle_input-seen o c h p e = ground arith

pub settle_dep-seen :
    (o : OutPoint) (c : CellStatus) (h : HeaderStatus) (p : Progress) {q : Progress}
    → settle_dep o c h p ≡ ok q
    → q.seen ≡ p.seen
unfolding settle_dep
settle_dep-seen o c h p e = ground arith

module _ (cells : CellProvider) (headers : HeaderProvider) where
  resolve_input-Fresh :
      (o : OutPoint) (p : Progress) {q : Progress}
      → resolve_input cells headers o p ≡ ok q
      → Fresh (spent (o ∷ [])) p.seen × (q.seen ≡ after (spent (o ∷ [])) p.seen)
  unfolding resolve_input settle_input
  resolve_input-Fresh o p e = ground arith

  resolve_inputs-Fresh :
      (os : List OutPoint) (p : Progress) {q : Progress}
      → resolve_inputs cells headers os p ≡ ok q
      → Fresh (spent os) p.seen × (q.seen ≡ after (spent os) p.seen)
  unfolding resolve_inputs
  resolve_inputs-Fresh [] p e = ground arith
  resolve_inputs-Fresh (o ∷ os) p e =
      let (r, now, later) = >>=-eq-ok (resolve_input cells headers o p) _ e in
      ground (arith, resolve_input-Fresh o p now, resolve_inputs-Fresh os r later)

  pub resolve_dep-seen :
      (o : OutPoint) (p : Progress) {q : Progress}
      → resolve_dep cells headers o p ≡ ok q
      → q.seen ≡ p.seen
  unfolding resolve_dep
  resolve_dep-seen o p e =
      let (c, _, settled) = >>=-eq-ok (expect (cells o)) _ e in
      settle_dep-seen o c (headers o) p settled

  pub resolve_deps-seen :
      (os : List OutPoint) (p : Progress) {q : Progress}
      → resolve_deps cells headers os p ≡ ok q
      → q.seen ≡ p.seen
  unfolding resolve_deps
  resolve_deps-seen [] p e = ground arith
  resolve_deps-seen (o ∷ os) p e =
      let (r, now, later) = >>=-eq-ok (resolve_dep cells headers o p) _ e in
      ground (arith, resolve_dep-seen o p now, resolve_deps-seen os r later)

  finish-seen :
      (tx : Transaction) (us seen : List OutPoint) (is ds : List ResolvedOutPoint)
      {rtx : ResolvedTransaction} {seen' : List OutPoint}
      → finish cells headers tx us is ds seen ≡ ok (rtx, seen')
      → seen' ≡ seen
  finish-seen tx us seen is ds e = ground arith

  -- One transaction: its inputs are new, and they are what the set gains.
  pub resolve_transaction-Fresh :
      (tx : Transaction) (seen : List OutPoint) {rtx : ResolvedTransaction} {seen' : List OutPoint}
      → resolve_transaction cells headers tx seen ≡ ok (rtx, seen')
      → Fresh (spent (spending_inputs cells headers tx)) seen
        × (seen' ≡ after (spent (spending_inputs cells headers tx)) seen)
  unfolding resolve_transaction
  resolve_transaction-Fresh tx seen e =
      let (p, inputs, rest) =
        >>=-eq-ok (resolve_inputs cells headers (spending_inputs cells headers tx) _) _ e in
      let (q, deps, done) = >>=-eq-ok (resolve_deps cells headers tx.deps _) _ rest in
      let (new, grown) = resolve_inputs-Fresh _ _ inputs in
      (
        new,
        finish-seen tx q.unknown q.seen p.resolved q.resolved done
            ∙ (resolve_deps-seen tx.deps _ deps ∙ grown),
      )

  -- Everything that the transactions of a block spend, in order.
  abbrev pub all_spent : List Transaction → List OutPoint
  all_spent [] = []
  all_spent (tx ∷ txs) = spent (spending_inputs cells headers tx) ++ all_spent txs

Fresh-append :
    (xs ys seen : List OutPoint) → Fresh xs seen → Fresh ys (after xs seen) → Fresh (xs ++ ys) seen
Fresh-append [] ys seen h k = k
Fresh-append (x ∷ xs) ys seen h k = (h.0, Fresh-append xs ys (x ∷ seen) h.1 k)

after-append : (xs ys seen : List OutPoint) → after (xs ++ ys) seen ≡ after ys (after xs seen)
after-append [] ys seen = refl
after-append (x ∷ xs) ys seen = after-append xs ys (x ∷ seen)

Fresh-contains :
    (os seen : List OutPoint) (k : OutPoint)
    → Fresh os seen
    → contains seen k ≡ true
    → contains os k ≡ false
unfolding contains
Fresh-contains [] seen k h c = refl
Fresh-contains (o ∷ os) seen k h c = ground (arith, Fresh-contains os (o ∷ seen) k h.1)

pub Fresh-Distinct : (os seen : List OutPoint) → Fresh os seen → Distinct os
unfolding contains
Fresh-Distinct [] seen h = tt
Fresh-Distinct (o ∷ os) seen h =
    ground (arith, Fresh-contains os (o ∷ seen) o h.1, Fresh-Distinct os (o ∷ seen) h.1)

Fresh-chain :
    (xs ys seen mid last : List OutPoint)
    → Fresh xs seen × (mid ≡ after xs seen)
    → Fresh ys mid × (last ≡ after ys mid)
    → Fresh (xs ++ ys) seen × (last ≡ after (xs ++ ys) seen)
Fresh-chain xs ys seen mid last (h, e) (k, f) = (
  Fresh-append xs ys seen h (subst (Fresh ys) e k),
  f ∙ (ap (after ys) e ∙ sym (after-append xs ys seen)),
)

ok-seen :
    {r r' : List ResolvedTransaction} {s s' : List OutPoint}
    → ◌≡◌ {A = Outcome UnresolvableError (List ResolvedTransaction × List OutPoint)}
        (ok (r, s))
        (ok (r', s'))
    → s' ≡ s
ok-seen e = ground arith

module _ (cells : CellProvider) (headers : HeaderProvider) where
  resolve_all-Fresh :
      (txs : List Transaction) (seen : List OutPoint) {rtxs : List ResolvedTransaction}
      {seen' : List OutPoint}
      → resolve_all cells headers txs seen ≡ ok (rtxs, seen')
      → Fresh (all_spent cells headers txs) seen
        × (seen' ≡ after (all_spent cells headers txs) seen)
  unfolding resolve_all
  resolve_all-Fresh [] seen e = ground arith
  resolve_all-Fresh (tx ∷ txs) seen {rtxs} {seen'} e =
      let (now, one, rest) = >>=-eq-ok (resolve_transaction cells headers tx seen) _ e in
      let (later, more, done) = >>=-eq-ok (resolve_all cells headers txs now.1) _ rest in
      let (news, grown) = resolve_all-Fresh txs now.1 more in
      Fresh-chain _ (all_spent cells headers txs) seen now.1 seen'
        (resolve_transaction-Fresh cells headers tx seen one) (news, ok-seen done ∙ grown)

  -- When all transactions of a block resolve, starting from no seen inputs, no out point is spent
  -- twice, neither within one transaction nor by two of them, whatever the providers say.
  pub resolve_all-Distinct :
      (txs : List Transaction) {rtxs : List ResolvedTransaction} {seen : List OutPoint}
      → resolve_all cells headers txs [] ≡ ok (rtxs, seen)
      → Distinct (all_spent cells headers txs)
  resolve_all-Distinct txs e =
      Fresh-Distinct (all_spent cells headers txs) [] (resolve_all-Fresh txs [] e).0
