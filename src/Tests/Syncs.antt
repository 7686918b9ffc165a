-- ===== src/Tests/Syncs.antt =====
-- Headers of peers: skip pointers, the header map and locators.
use ckb_miner_opt.Base.{
  ℕ, ◌*◌, ◌≤◌, ◌≡◌, refl, inl, inr, none, some, List, [], map, take, arith, leb, if◌then◌else◌,
}
use ckb_miner_opt.Base.Maps.{get, nat_key}
use ckb_miner_opt.Sync.HeaderView.{
  HeaderView, HeaderMap, Lookup, view_hash, new_view, get_header_view, get_skip_height,
  get_ancestor, insert_header_view,
}
use ckb_miner_opt.Sync.HeaderView.Skip.{SkipChain, get_ancestor-view_at}
use ckb_miner_opt.Sync.HeaderView.Insert.{insert_header_view-SkipChain}
use ckb_miner_opt.Sync.Inflight.{InflightBlocks, none_inflight, insert_inflight, remove_by_peer}
use ckb_miner_opt.Sync.Inflight.Valid.{
  IsValid, nothing, after_insert, after_remove_by_peer, Reached-IsValid,
}
use ckb_miner_opt.Sync.Locator.{MainIndex, get_locator, locate_latest_common_block}
use ckb_miner_opt.Sync.Locator.Falling.{Falling, count_down}
use ckb_miner_opt.Sync.Locator.Branch.{Branch, meets}
use ckb_miner_opt.Sync.Locator.Common.{get_locator-locate_latest_common_block}
use ckb_miner_opt.Tests.Consensus.{header_at}

-- Views with their skip pointers, under their heights as hashes.
abbrev view : ℕ → HeaderView
view n = record (new_view (header_at n) (1000 * n) 0) { skip_hash = some (get_skip_height n) }

abbrev lookup : Lookup
lookup hash = some (view hash)

abbrev skip_chain : SkipChain lookup 1000
skip_chain = record {
  view_at = view;
  found = λ k h. refl;
  numbered = λ k h. refl;
  linked = λ k h. omega arith;
  skips = λ k h. inr refl;
}

get_ancestor-view_at_example : get_ancestor lookup (view 1000) 7 ≡ some (header_at 7)
get_ancestor-view_at_example = get_ancestor-view_at skip_chain 7 1000 (omega arith)

-- All headers up to height 40 are in the store.
abbrev headers : HeaderMap
headers = record {
  header_map = [];
  get_block_header = λ hash. if leb hash 40 then some (header_at hash) else none;
  get_block_ext = λ hash. some (1000 * hash, 0);
}

abbrev stored : ℕ → HeaderView
stored n = new_view (header_at n) (1000 * n) 0

stored_found : (k : ℕ) → k ≤ 40 → get_header_view headers k ≡ some (stored k)
unfolding get_header_view get
stored_found k h = ground arith

abbrev stored_chain : SkipChain (get_header_view headers) 40
stored_chain = record {
  view_at = stored;
  found = stored_found;
  numbered = λ k h. refl;
  linked = λ k h. omega arith;
  skips = λ k h. inl refl;
}

insert_header_view-SkipChain_example :
    (longer : SkipChain (get_header_view (insert_header_view 41 (stored 41) headers)) 41)
    × ((longer.view_at 41).inner ≡ header_at 41)
    × ((longer.view_at 41).skip_hash ≡ some (view_hash (longer.view_at (get_skip_height 41))))
insert_header_view-SkipChain_example =
    insert_header_view-SkipChain headers 40 stored_chain (stored 41) refl refl (λ k h. omega arith)

-- The node's main chain has the first five blocks of the peer's.
abbrev index : MainIndex
index = record {
  get_block_number = λ hash. if leb hash 5 then some hash else none;
  get_block_hash = λ number. if leb number 5 then some number else none;
  get_block_header = λ hash. if leb hash 40 then some (header_at hash) else none;
  genesis_hash = 0;
}

abbrev branch : Branch index 40 5
branch = record {
  header_at = header_at;
  numbered = λ k h. refl;
  linked = λ k h. omega arith;
  stored = λ k h. ground arith;
  on_main = λ k h. ground arith;
  off_main = λ k low h. ground arith;
  genesis = refl;
}

get_locator-locate_latest_common_block_example :
    (heights : List ℕ) × Falling 30 heights
    × (take 10 heights ≡ count_down 10 30)
    × (get_locator headers 0 (header_at 30) ≡ some (map (λ k. (header_at k).hash) heights))
    × (locate_latest_common_block index (map (λ k. (header_at k).hash) heights)
        ≡ some (some (if meets 5 heights then 5 else 0)))
get_locator-locate_latest_common_block_example =
    get_locator-locate_latest_common_block headers index 40 5 30 stored_chain branch (λ k. refl)
      (omega arith) (omega arith) (omega arith)

-- Two peers are asked for block 5, one of them for block 6 too, and leaves.
abbrev inflight : InflightBlocks
inflight =
    (remove_by_peer 1
      (insert_inflight 20 1 6
        (insert_inflight 10 2 5 (insert_inflight 0 1 5 none_inflight).0).0).0).0

Reached-IsValid_example : IsValid inflight
Reached-IsValid_example = Reached-IsValid inflight (
    after_remove_by_peer 1 (after_insert 20 1 6 (after_insert 10 2 5 (after_insert 0 1 5 nothing))))
