-- ===== src/Sync/HeaderView.antt =====
-- sync/src/types.rs: `HeaderView`, a header with its total difficulty and a pointer to a far
-- predecessor, and the map of headers whose blocks are not stored yet. Heights are below 2^63, where
-- the conversions between `u64` and `i64` keep a number. The look-up that the source takes as a
-- closure is a function here.
pub mod Skip
pub mod Insert
use Prim.Native.Nat.{bit_and}
use ckb_miner_opt.Base.{
  ℕ, zero, suc, ◌+◌, ◌-◌, ◌%◌, Bool, false, ◌&&◌, ◌||◌, not, Option, none, some, List, ltb, leb,
  ◌==◌, if◌then◌else◌,
}
use ckb_miner_opt.Base.Maps.{get, insert, nat_key}
use ckb_miner_opt.Core.Transaction.{H256}
use ckb_miner_opt.Core.Block.{Header}

pub record HeaderView : Type 0 where
  pub inner : Header
  pub total_difficulty : ℕ
  pub total_uncles_count : ℕ
  pub skip_hash : Option H256

abbrev pub view_hash : HeaderView → H256
view_hash v = v.inner.hash

abbrev pub view_number : HeaderView → ℕ
view_number v = v.inner.number

abbrev pub new_view : Header → ℕ → ℕ → HeaderView
new_view header difficulty uncles = record {
  inner = header;
  total_difficulty = difficulty;
  total_uncles_count = uncles;
  skip_hash = none;
}

-- At 0 the source has `0 & -1`, which is 0 too.
unfoldable pub invert_lowest_one : ℕ → ℕ
invert_lowest_one n = bit_and n (n - 1)

unfoldable pub get_skip_height : ℕ → ℕ
unfolding invert_lowest_one
get_skip_height height =
    if ltb height 2
    then 0
    else if height % 2 == 1
    then invert_lowest_one (invert_lowest_one (height - 1)) + 1
    else invert_lowest_one height

abbrev pub Lookup : Type 0
Lookup = H256 → Option HeaderView

-- The guard on the skip pointer: the skip does not pass the target, and the skip pointer of the
-- parent is not the better one.
unfoldable pub follows_skip : ℕ → ℕ → Bool
unfolding get_skip_height
follows_skip number walk =
    let skip = get_skip_height walk in
    let skip_prev = get_skip_height (walk - 1) in
    skip == number || (ltb number skip && not (ltb (skip_prev + 2) skip && leb number skip_prev))

-- The `while` loop. Each turn lowers `number_walk`, so that no more turns are left to take than the
-- height still to go down.
unfoldable pub walk_back : Lookup → ℕ → ℕ → HeaderView → ℕ → Option Header
unfolding get_skip_height follows_skip
walk_back lookup zero number current walk = some current.inner
walk_back lookup (suc turns) number current walk =
    let by_skip : H256 → Option Header = λ hash. elim (lookup hash) [
      | none ↦ none
      | some v ↦ walk_back lookup turns number v (get_skip_height walk)
    ] in
    let by_parent : Option Header = elim (lookup current.inner.parent_hash) [
      | none ↦ none
      | some v ↦ walk_back lookup turns number v (walk - 1)
    ] in
    if leb walk number then some current.inner else elim current.skip_hash [
      | none ↦ by_parent
      | some hash ↦ if follows_skip number walk then by_skip hash else by_parent
    ]

unfoldable pub get_ancestor : Lookup → HeaderView → ℕ → Option Header
unfolding walk_back
get_ancestor lookup v number =
    if ltb (view_number v) number
    then none
    else walk_back lookup (view_number v - number) number v (view_number v)

unfoldable pub build_skip : Lookup → HeaderView → HeaderView
unfolding get_ancestor get_skip_height
build_skip lookup v = record v {
  skip_hash = elim (lookup v.inner.parent_hash) [
    | none ↦ none
    | some parent ↦ elim (get_ancestor lookup parent (get_skip_height (view_number v))) [
      | none ↦ none
      | some header ↦ some header.hash
    ]
  ];
}

-- `header_map`, with what `get_header_view` reads from the store where the map has no entry.
pub record HeaderMap : Type 0 where
  pub header_map : List (H256 × HeaderView)
  pub get_block_header : H256 → Option Header
  -- the total difficulty and the total number of uncles of `BlockExt`
  pub get_block_ext : H256 → Option (ℕ × ℕ)

unfoldable pub get_header_view : HeaderMap → H256 → Option HeaderView
get_header_view m hash = elim (get m.header_map hash) [
  | some v ↦ some v
  | none ↦ elim (m.get_block_header hash) [
    | none ↦ none
    | some header ↦ elim (m.get_block_ext hash) [
      | none ↦ none
      | some (difficulty, uncles) ↦ some (new_view header difficulty uncles)
    ]
  ]
]

unfoldable pub insert_header_view : H256 → HeaderView → HeaderMap → HeaderMap
unfolding build_skip get_header_view
insert_header_view hash v m = record m {
  header_map = insert hash (build_skip (get_header_view m) v) m.header_map;
}

unfoldable pub get_header : HeaderMap → H256 → Option Header
get_header m hash = elim (get m.header_map hash) [
  | some v ↦ some v.inner
  | none ↦ m.get_block_header hash
]

-- `SyncSharedState::get_ancestor`
unfoldable pub ancestor_of : HeaderMap → H256 → ℕ → Option Header
unfolding get_header_view get_ancestor
ancestor_of m base number = elim (get_header_view m base) [
  | none ↦ none
  | some v ↦ get_ancestor (get_header_view m) v number
]
