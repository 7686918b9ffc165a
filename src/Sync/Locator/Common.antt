-- ===== src/Sync/Locator/Common.antt =====
-- What a peer finds by a locator: `locate_latest_common_block` of sync/src/types.rs.
use ckb_miner_opt.Base.{
  ℕ, ◌+◌, ◌≤◌, ◌<◌, ◌≡◌, refl, ap, ◌∙◌, sym, true, false, some, List, [], ◌∷◌, map, arith, ltb,
  ◌==◌, get_elem?, take, if◌then◌else◌, Bool-cases, inl, inr, if_pos, ℕ_discrete,
}
use mathlib.Core.Path.{fun_ext}
use ckb_miner_opt.Core.Transaction.{H256}
use ckb_miner_opt.Core.Block.{Header}
use ckb_miner_opt.Sync.Locator.{
  MainIndex, last, find_from, settle, get_locator, locate_latest_common_block,
}
use ckb_miner_opt.Sync.Locator.Falling.{
  Falling, bottom, below, count_down, quarter, get_locator-Falling,
}
use ckb_miner_opt.Sync.Locator.Branch.{
  Branch, meets, hash_at, find_from-Falling, last-Falling, refine_before-fork,
}
use ckb_miner_opt.Sync.HeaderView.{HeaderMap, view_hash, get_header_view}
use ckb_miner_opt.Sync.HeaderView.Skip.{SkipChain}

module _ (s : MainIndex) (top fork : ℕ) (branch : Branch s top fork) where
  abbrev at : ℕ → H256
  at = hash_at s top fork branch

  locate-settle :
      (locator : List H256) (index number : ℕ)
      → last locator ≡ some (at 0)
      → find_from s 0 locator ≡ some (index, number)
      → locate_latest_common_block s locator ≡ settle s locator index number
  unfolding locate_latest_common_block
  locate-settle locator index number ends found =
      rw (locate_latest_common_block, ends, found)
        (if_pos (ℕ_discrete (at 0) s.genesis_hash) (sym branch.genesis) _ _)

  settle_first : (locator : List H256) (number : ℕ) → settle s locator 0 number ≡ some (some number)
  unfolding settle
  settle_first locator number = refl

  settle_later :
      (locator : List H256) (p number before : ℕ)
      → number ≤ fork
      → fork < before
      → before ≤ top
      → get_elem? locator p ≡ some (at before)
      → settle s locator (1 + p) number ≡ some (some (if ltb 0 number then fork else 0))
  unfolding settle
  settle_later locator p number before small off known entry =
      let later : (1 + p == 0) ≡ false = ground arith in
      elim (Bool-cases (number == 0)) [
        | inl genesis ↦
            let none_above : ltb 0 number ≡ false = ground arith in
            rw (settle, later, genesis, none_above) (ap (λ (n : ℕ). some (some n)) (ground arith))
        | inr other ↦
            let above : ltb 0 number ≡ true = ground arith in
            rw (
              settle,
              later,
              other,
              above,
              refine_before-fork s top fork branch locator p number before off known entry,
            )
      ]

  -- By the locator of a chain, taken from a height not below the fork, the node finds the fork if the
  -- locator has a height on its main chain other than the genesis block, and otherwise the genesis block.
  pub locate_latest_common_block-Falling :
      (start : ℕ) (heights : List ℕ)
      → fork ≤ start
      → start ≤ top
      → Falling start heights
      → locate_latest_common_block s (map at heights)
        ≡ some (some (if meets fork heights then fork else 0))
  unfolding find_from
  locate_latest_common_block-Falling start heights low known bottom =
      locate-settle (at 0 ∷ []) 0 0 refl (rw (find_from, branch.on_main 0 (omega arith)))
      ∙ settle_first (at 0 ∷ []) 0
  locate_latest_common_block-Falling start heights low known
        (below {low = next} {rest = rest} lt falling) =
      let locator : List H256 = at start ∷ map at rest in
      let ends = last-Falling s top fork branch (below lt falling) in
      elim (ℕ_discrete start fork) [
        | yes here ↦
            let met : meets fork (start ∷ rest) ≡ true = ground arith in
            locate-settle locator 0 start ends (rw (find_from, branch.on_main start (omega arith)))
            ∙ (settle_first locator start ∙ rw met (ap (λ (n : ℕ). some (some n)) here))
        | no other ↦
            let off : fork < start = omega (arith, other) in
            let (p, number, before, found, small, met, apart, entry_known, entry) =
              find_from-Falling s top fork branch 1 start next rest off known lt falling in
            let same =
              locate-settle locator (1 + p) number ends
                (rw (find_from, branch.off_main start off known) found) in
            let answer : meets fork (start ∷ rest) ≡ ltb 0 number = ground (arith, met) in
            same ∙ rw answer (settle_later locator p number before small apart entry_known entry)
      ]

-- Take a node that has all headers of a peer's chain, and a locator of the peer, from a height that is
-- below 2^62 and not below the fork. The locator is there: it holds the hashes at falling heights, first
-- the start and the nine heights below it, or all there are, and last the genesis block's. If one of these heights is on the
-- node's main chain and is not the genesis block's, the node learns where the peer's chain leaves its main
-- chain; otherwise it falls back to the genesis block.
pub get_locator-locate_latest_common_block :
    (m : HeaderMap) (s : MainIndex) (height fork start : ℕ)
    (chain : SkipChain (get_header_view m) height) (branch : Branch s height fork)
    → ((k : ℕ) → branch.header_at k ≡ (chain.view_at k).inner)
    → fork ≤ start
    → start ≤ height
    → start < quarter
    → (heights : List ℕ) × Falling start heights
      × (take 10 heights ≡ count_down 10 start)
      × (get_locator m s.genesis_hash (branch.header_at start)
          ≡ some (map (λ k. (branch.header_at k).hash) heights))
      × (locate_latest_common_block s (map (λ k. (branch.header_at k).hash) heights)
          ≡ some (some (if meets fork heights then fork else 0)))
get_locator-locate_latest_common_block m s height fork start chain branch same low known small =
    let (heights, located, falling, dense) = get_locator-Falling m height chain start known small in
    let hashes : ◌≡◌ {A = ℕ → H256} (λ k. (branch.header_at k).hash)
        (λ k. view_hash (chain.view_at k)) =
      fun_ext (λ k. ap (λ (h : Header). h.hash) (same k)) in
    (
      heights,
      falling,
      dense,
      rw (branch.genesis ∙ ap (λ (h : Header). h.hash) (same 0), same start)
          (located ∙ ap (λ (f : ℕ → H256). some (map f heights)) (sym hashes)),
      locate_latest_common_block-Falling s height fork branch start heights low known falling,
    )
