-- ===== src/Chain/Service/Better.antt =====
-- What `insert_block` of chain/src/chain.rs does to the tip, block after block.
use ckb_miner_opt.Base.{
  length, ◌≢◌, ℕ, ◌≤◌, ◌<◌, ◌≡◌, refl, sym, ap, subst, ◌⊎◌, inl, inr, Bool, true, false, Option,
  none, some, List, [], ◌∷◌, arith, ltb, Bool-cases, if◌then◌else◌,
}
use ckb_miner_opt.Base.Outcome.{
  Outcome, ok, map_err, map_err-eq-ok, expect, expect-eq-ok, add_u64, >>=-eq-ok,
}
use ckb_miner_opt.Core.Transaction.{H256, Bytes}
use ckb_miner_opt.Core.Block.{Header, Block}
use ckb_miner_opt.Core.Extras.{BlockExt}
use ckb_miner_opt.Core.Cell.{ResolvedTransaction}
use ckb_miner_opt.CellSet.{NewOutputs}
use ckb_miner_opt.CellSet.Update.{update_cells}
use ckb_miner_opt.Epoch.{U256Arithmetic, EpochExt}
use ckb_miner_opt.Proposal.{finalize}
use ckb_miner_opt.Dao.{calculate_dao_data}
use ckb_miner_opt.Verify.Error.{TransactionError}
use ckb_miner_opt.Verify.Block.{BlockRules}
use ckb_miner_opt.Verify
use ckb_miner_opt.Verify.Uncles.{UncleRules}
use ckb_miner_opt.Verify.Contextual.{Cache}
use ckb_miner_opt.Chain.Store.{ChainStore, Consensus}
use ckb_miner_opt.Chain.Provider.{get_block_epoch, next_epoch_ext}
use ckb_miner_opt.Chain.State.{ChainState, update_proposal_ids}
use ckb_miner_opt.Chain.Fork.{ForkChanges, no_changes, find_fork, verified_len, GlobalIndex}
use ckb_miner_opt.Chain.Reconcile.{Progress, drop, build_verify_context, reconcile_main_chain}
use ckb_miner_opt.Chain.Reconcile.Verified.{Passes, reconcile_main_chain-Passes}
use ckb_miner_opt.Chain.Service.{
  InsertError, bad_chain, Write, Inserted, block_store, is_new_best, check_parent, adopt, settle,
  keep, new_ext, insert_block, bad_block, bad_dao, verify_block, unwrap_or, is_some, stored_writes,
}

-- A better tip has a greater total difficulty, or the same one and a smaller hash.
abbrev pub Better : ℕ → H256 → ChainState → Type 0
Better total hash state =
    (state.total_difficulty < total)
    ⊎ ((state.total_difficulty ≡ total) × (hash < state.tip_header.hash))

is_new_best-Better :
    (total : ℕ) (hash : H256) (state : ChainState)
    → is_new_best total hash state ≡ true
    → Better total hash state
unfolding is_new_best
is_new_best-Better total hash state h = elim (Bool-cases (ltb state.total_difficulty total)) [
  | inl greater ↦ inl (ground arith)
  | inr not_greater ↦ inr (ground arith)
]

is_new_best-false :
    (total : ℕ) (hash : H256) (state : ChainState)
    → is_new_best total hash state ≡ false
    → ¬ (Better total hash state)
unfolding is_new_best
is_new_best-false total hash state h (inl lt) = ground arith
is_new_best-false total hash state h (inr (e, lt)) = ground arith

if-true {ℓ} :
    {A : Type ℓ} (t : Bool) (x y : A) {z : A} → (if t then x else y) ≡ z → t ≡ true → x ≡ z
if-true true x y h e = h
if-true false x y h e = cc

if-false {ℓ} :
    {A : Type ℓ} (t : Bool) (x y : A) {z : A} → (if t then x else y) ≡ z → t ≡ false → y ≡ z
if-false false x y h e = h
if-false true x y h e = cc

check_parent-passed : (v : Option Bool) {x : Unit {0}} → check_parent v ≡ ok x → v ≢ some false
check_parent-passed none h e = cc
check_parent-passed (some true) h e = cc
check_parent-passed (some false) h e = cc

module _ (u : U256Arithmetic) (add : ℕ → ℕ → ℕ) (from_slice : Bytes → Option H256)
    (block_rules : BlockRules) (rules : UncleRules)
    (scripts : ResolvedTransaction → ℕ → Outcome TransactionError ℕ)
    (remember : H256 → ℕ → Cache → Cache) (lookup : H256 → Option NewOutputs) (s : ChainStore)
    (c : Consensus) (now : ℕ) where
  abbrev inserts : Block → Bool → ChainState → Cache → Outcome InsertError Inserted
  inserts = insert_block u add from_slice block_rules rules scripts remember lookup s c now

  abbrev adopts :
      Bool
      → Block
      → BlockExt
      → EpochExt
      → Bool
      → List Write
      → ChainState
      → Cache
      → Outcome InsertError Inserted
  adopts = adopt u add from_slice block_rules rules scripts remember lookup s c now

  -- All blocks that join the main chain and were not verified before have passed all checks.
  abbrev pub AllPass : ChainState → Cache → ForkChanges → Type 0
  AllPass state cache fork =
      (count : ℕ) × (end : Progress) × (verified_len fork ≡ some count)
      × Passes u from_slice rules scripts remember s c state.cell_set fork.detached_blocks
          (build_verify_context count fork cache) (drop count fork.attached_blocks) end

  -- The block is the new tip, and what `find_fork` returns tells what joined and left.
  abbrev pub Adopted : Block → BlockExt → ChainState → Cache → Inserted → Type 0
  Adopted block ext state cache r =
      (r.state.tip_header ≡ block.header)
      × (r.state.total_difficulty ≡ ext.total_difficulty)
      × ((index : GlobalIndex) × (fork : ForkChanges) × (find_fork (block_store s)
              state.tip_header.number block ext no_changes
            ≡ some (index, fork))
          × (r.new_uncles ≡ fork.detached_blocks)
          × AllPass state cache fork)

  adopt-Adopted :
      (block : Block) (ext : BlockExt) (epoch : EpochExt) (new_epoch : Bool) (stored : List Write)
      (state : ChainState) (cache : Cache) (r : Inserted)
      → adopts true block ext epoch new_epoch stored state cache ≡ ok r
      → Adopted block ext state cache r
  unfolding adopt
  adopt-Adopted block ext epoch new_epoch stored state cache r h =
      let ((index, fork), found, h₁) =
        >>=-eq-ok (expect (find_fork (block_store s) state.tip_header.number block ext no_changes))
          _ h in
      let reconciled =
        reconcile_main_chain u from_slice rules scripts remember s c state.cell_set
          fork.detached_blocks true fork cache in
      let ((diff, exts, cache'), passed, h₂) = >>=-eq-ok (map_err bad_chain reconciled) _ h₁ in
      let proposals =
        update_proposal_ids fork.detached_blocks fork.attached_blocks state.proposal_ids in
      let ((table, ids), finalized, h₃) =
        >>=-eq-ok (expect (finalize block.header.number proposals)) _ h₂ in
      let ((cells, cell_writes), updated, h₄) =
        >>=-eq-ok (expect (update_cells lookup diff state.cell_set)) _ h₃ in
      let (count, end, len, passes, _, _, _, _) =
        reconcile_main_chain-Passes u from_slice rules scripts remember s c state.cell_set
          fork.detached_blocks fork cache cache' diff exts
          (map_err-eq-ok bad_chain reconciled passed) in
      (
        cc,
        cc,
        (
          index,
          fork,
          expect-eq-ok (find_fork (block_store s) state.tip_header.number block ext no_changes)
              found,
          cc,
          (count, end, len, passes),
        ),
      )

  insert_block-settle :
      (block : Block) (need_verify : Bool) (state : ChainState) (cache : Cache) (r : Inserted)
      → inserts block need_verify state cache ≡ ok r
      → (parent : BlockExt) × (ext : BlockExt) × (epoch : EpochExt) × (new_epoch : Bool)
        × (stored : List Write) × (s.get_block_ext block.header.parent_hash ≡ some parent)
        × (parent.verified ≢ some false)
        × (ext.total_difficulty ≡ add parent.total_difficulty block.header.difficulty)
        × (verify_block u add from_slice block_rules rules scripts remember lookup s c now
              need_verify block
            ≡ ok tt)
        × (settle u add from_slice block_rules rules scripts remember lookup s c now need_verify
              block ext epoch new_epoch stored state cache
            ≡ ok r)
  unfolding insert_block
  insert_block-settle block need_verify state cache r h =
      let (_, checked, h₁) =
        >>=-eq-ok
          (map_err bad_block (
            verify_block u add from_slice block_rules rules scripts remember lookup s c now
              need_verify block))
          _ h in
      let (parent_ext, ext_found, h₂) =
        >>=-eq-ok (expect (s.get_block_ext block.header.parent_hash)) _ h₁ in
      let (parent_header, header_found, h₃) =
        >>=-eq-ok (expect (s.get_block_header block.header.parent_hash)) _ h₂ in
      let (_, parent_checked, h₄) = >>=-eq-ok (check_parent parent_ext.verified) _ h₃ in
      let (parent_epoch, epoch_found, h₅) =
        >>=-eq-ok (expect (get_block_epoch s parent_header.hash)) _ h₄ in
      let (next, next_is, h₆) =
        >>=-eq-ok (map_err (λ (e : ⊥). absurd e) (next_epoch_ext u s c parent_epoch parent_header))
          _ h₅ in
      let (dao, dao_is, h₇) =
        >>=-eq-ok
          (map_err bad_dao (
            calculate_dao_data parent_header.number parent_epoch parent_ext.dao_stats
              c.secondary_epoch_reward))
          _ h₆ in
      let (uncles, counted, h₈) =
        >>=-eq-ok (add_u64 parent_ext.total_uncles_count (length block.uncles)) _ h₇ in
      let epoch = unwrap_or parent_epoch next in
      (
        parent_ext,
        new_ext u add from_slice block_rules rules scripts remember lookup s c now parent_ext block
            uncles dao,
        epoch,
        is_some next,
        stored_writes u add from_slice block_rules rules scripts remember lookup s c now block
            epoch,
        expect-eq-ok (s.get_block_ext block.header.parent_hash) ext_found,
        check_parent-passed parent_ext.verified parent_checked,
        refl,
        map_err-eq-ok bad_block
            (verify_block u add from_slice block_rules rules scripts remember lookup s c now
              need_verify block)
            checked,
        h₈,
      )

  -- When `insert_block` with verification succeeds, the block passes the block verifier, its parent is
  -- stored and not marked invalid, and with the sum of the parent's total difficulty and its own difficulty
  -- there are two cases. Either that is greater than the tip's total difficulty, or it is the same and the block's hash is
  -- smaller: then the block is the new tip, with that total difficulty, the blocks that `find_fork` has leave are
  -- notified as uncles, and those that it has join, and that were not verified before, pass all
  -- checks. Or it is not: then the chain state does not change, and the block is notified as an uncle.
  pub insert_block-Adopted :
      (block : Block) (state : ChainState) (cache : Cache) (r : Inserted)
      → inserts block true state cache ≡ ok r
      → (parent ext : BlockExt) × (Verify.Block.verify block_rules block ≡ ok tt)
        × (s.get_block_ext block.header.parent_hash ≡ some parent)
        × (parent.verified ≢ some false)
        × (ext.total_difficulty ≡ add parent.total_difficulty block.header.difficulty)
        × ((Better ext.total_difficulty block.header.hash state × Adopted block ext state cache r)
            ⊎ ((¬ Better ext.total_difficulty block.header.hash state)
                × (r.state ≡ state)
                × (r.new_uncles ≡ block ∷ [])))
  insert_block-Adopted block state cache r h =
      let (parent, ext, epoch, new_epoch, stored, found, valid, sum, passed, settled) =
        insert_block-settle block true state cache r h in
      (
        parent,
        ext,
        passed,
        found,
        valid,
        sum,
        elim (Bool-cases (is_new_best ext.total_difficulty block.header.hash state)) [
          | inl better ↦ inl (
            is_new_best-Better ext.total_difficulty block.header.hash state better,
            adopt-Adopted block ext epoch new_epoch stored state cache r (
                if-true (is_new_best ext.total_difficulty block.header.hash state) _ _ settled
                  better),
          )
          | inr worse ↦
              let kept : ok (
                    keep u add from_slice block_rules rules scripts remember lookup s c now block
                      ext stored state cache)
                  ≡ ok r =
                if-false (is_new_best ext.total_difficulty block.header.hash state) _ _ settled
                  worse in
              let same : keep u add from_slice block_rules rules scripts remember lookup s c now
                    block ext stored state cache
                  ≡ r =
                cc in
              inr (
                is_new_best-false ext.total_difficulty block.header.hash state worse,
                ap (λ x. x.state) (sym same),
                ap (λ x. x.new_uncles) (sym same),
              )
        ],
      )

-- The states that follow each other as blocks are inserted, or refused. The store, the
-- parameters and the clock may be others at each block.
pub data Follows : ChainState → ChainState → Type 0 where
  start : {state : ChainState} → Follows state state
  inserted :
      {old state : ChainState} (u : U256Arithmetic) (add : ℕ → ℕ → ℕ)
      (from_slice : Bytes → Option H256) (block_rules : BlockRules) (rules : UncleRules)
      (scripts : ResolvedTransaction → ℕ → Outcome TransactionError ℕ)
      (remember : H256 → ℕ → Cache → Cache) (lookup : H256 → Option NewOutputs) (s : ChainStore)
      (c : Consensus) (now : ℕ) (block : Block) (cache : Cache) (r : Inserted)
      → Follows old state
      → insert_block u add from_slice block_rules rules scripts remember lookup s c now block true
          state cache
        ≡ ok r
      → Follows old r.state

abbrev pub NotWorse : ChainState → ChainState → Type 0
NotWorse old state =
    (old.total_difficulty < state.total_difficulty)
    ⊎ ((old.total_difficulty ≡ state.total_difficulty)
        × (state.tip_header.hash ≤ old.tip_header.hash))

NotWorse-trans : (a b c : ChainState) → NotWorse a b → NotWorse b c → NotWorse a c
NotWorse-trans a b c (inl h) (inl k) = inl (omega arith)
NotWorse-trans a b c (inl h) (inr (e, k)) = inl (omega arith)
NotWorse-trans a b c (inr (e, h)) (inl k) = inl (omega arith)
NotWorse-trans a b c (inr (e, h)) (inr (e', k)) = inr (omega arith, omega arith)

Better-NotWorse :
    (total : ℕ) (header : Header) (state r : ChainState)
    → Better total header.hash state
    → r.tip_header ≡ header
    → r.total_difficulty ≡ total
    → NotWorse state r
Better-NotWorse total header state r (inl h) tip sum = inl (omega (arith, sum))
Better-NotWorse total header state r (inr (e, h)) tip sum =
    let hash : r.tip_header.hash ≡ header.hash = ap (λ x. x.hash) tip in
    inr (omega (arith, sum), omega (arith, hash))

-- Blocks that are inserted with verification never make the tip worse: its total difficulty
-- never falls, and while it stays the same the hash of the tip never grows.
pub insert_block-Follows : (old state : ChainState) → Follows old state → NotWorse old state
insert_block-Follows old _ start = inr (refl, omega arith)
insert_block-Follows old _
      (inserted {state = state} u add from_slice block_rules rules scripts remember lookup s c now
        block cache r before h) =
    let (parent, ext, _, _, _, _, step) =
      insert_block-Adopted u add from_slice block_rules rules scripts remember lookup s c now block
        state cache r h in
    NotWorse-trans old state r.state (insert_block-Follows old state before) (elim step [
      | inl (better, adopted) ↦
          Better-NotWorse ext.total_difficulty block.header state r.state better adopted.0 adopted.1
      | inr (_, same, _) ↦ subst (NotWorse state) (sym same) (inr (refl, omega arith))
    ])
