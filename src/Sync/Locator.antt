-- ===== src/Sync/Locator.antt =====
-- Block locators in sync/src/types.rs: the hashes by which a node tells a peer where its chain is,
-- and what the peer finds by them. The `loop` of `get_locator` has a turn for each height from the start
-- down, which is enough, as each turn goes down; in `locate_latest_common_block` the loop has the turns
-- of the heights below the header that it starts from.
pub mod Branch
pub mod Falling
pub mod Common
use ckb_miner_opt.Base.{
  ℕ, zero, suc, ◌+◌, ◌-◌, ◌*◌, ◌%◌, min, Bool, true, false, Option, none, some, List, [], ◌∷◌, ◌++◌,
  ltb, leb, ◌==◌, if◌then◌else◌, length, get_elem?, ite, ℕ_discrete,
}
use ckb_miner_opt.Base.Outcome.{u64_modulus}
use ckb_miner_opt.Core.Transaction.{H256}
use ckb_miner_opt.Core.Block.{Header}
use ckb_miner_opt.Sync.HeaderView.{HeaderMap, ancestor_of, get_header}

-- `none` is the failed `expect`.
unfoldable pub locate : HeaderMap → H256 → ℕ → ℕ → List H256 → ℕ → H256 → Option (List H256)
locate m genesis zero step locator index base = some locator
locate m genesis (suc turns) step locator index base = elim (ancestor_of m base index) [
  | none ↦ none
  | some header ↦
      let pushed = locator ++ header.hash ∷ [] in
      let next = if leb 10 (length pushed) then step * 2 % u64_modulus else step in
      let rest = locate m genesis turns next pushed (index - next) header.hash in
      if ltb index next then some (if index == 0 then pushed else pushed ++ genesis ∷ []) else rest
]

unfoldable pub get_locator : HeaderMap → H256 → Header → Option (List H256)
unfolding locate
get_locator m genesis start = locate m genesis (start.number + 1) 1 [] start.number start.hash

-- What the peer asks of its store: the main chain's index, and the headers that it has.
pub record MainIndex : Type 0 where
  pub get_block_number : H256 → Option ℕ
  pub get_block_hash : ℕ → Option H256
  pub get_block_header : H256 → Option Header
  pub genesis_hash : H256

abbrev pub last {ℓ} : {A : Type ℓ} → List A → Option A
last [] = none
last (x ∷ []) = some x
last (x ∷ y ∷ xs) = last (y ∷ xs)

-- The first entry that is on the main chain, with its place.
unfoldable pub find_from : MainIndex → ℕ → List H256 → Option (ℕ × ℕ)
find_from s index [] = none
find_from s index (hash ∷ rest) = elim (s.get_block_number hash) [
  | some number ↦ some (index, number)
  | none ↦ find_from s (index + 1) rest
]

-- The `loop`, from a parent's hash on; `none` means that the turns ran out.
unfoldable pub refine : MainIndex → ℕ → ℕ → H256 → Option ℕ
refine s zero latest_common hash = none
refine s (suc turns) latest_common hash = elim (s.get_block_header hash) [
  | none ↦ some latest_common
  | some header ↦ elim (s.get_block_number hash) [
    | some number ↦ some number
    | none ↦ refine s turns latest_common header.parent_hash
  ]
]

unfoldable pub refine_before : MainIndex → List H256 → ℕ → ℕ → Option ℕ
refine_before s locator index latest_common = elim (get_elem? locator (index - 1)) [
  | none ↦ some latest_common
  | some hash ↦ elim (s.get_block_header hash) [
    | none ↦ some latest_common
    | some header ↦ refine s header.number latest_common header.parent_hash
  ]
]

-- The outer `none` is a panic or the end of the turns, the inner one the answer `None`.
unfoldable pub settle : MainIndex → List H256 → ℕ → ℕ → Option (Option ℕ)
settle s locator index latest_common =
    if index == 0
    then some (some latest_common)
    else if latest_common == 0
    then some (some latest_common)
    else elim (refine_before s locator index latest_common) [
      | none ↦ none
      | some number ↦ some (some number)
    ]

unfoldable pub locate_latest_common_block : MainIndex → List H256 → Option (Option ℕ)
locate_latest_common_block s locator = elim (last locator) [
  | none ↦ some none
  | some hash ↦
      ite (ℕ_discrete hash s.genesis_hash)
        (elim (find_from s 0 locator) [
          | none ↦ none
          | some (index, latest_common) ↦ settle s locator index latest_common
        ])
        (some none)
]

-- `get_locator_response`: the headers of the main chain from a height on, up to a hash.
abbrev pub max_headers_len : ℕ
max_headers_len = 2_000

unfoldable pub headers_from : MainIndex → H256 → ℕ → ℕ → List Header
headers_from s hash_stop zero number = []
headers_from s hash_stop (suc count) number =
    let rest = headers_from s hash_stop count (number + 1) in
    elim (s.get_block_hash number) [
      | none ↦ rest
      | some hash ↦
          ite (ℕ_discrete hash hash_stop) []
            (elim (s.get_block_header hash) [ none ↦ rest | some header ↦ header ∷ rest ])
    ]

unfoldable pub get_locator_response : MainIndex → ℕ → ℕ → H256 → List Header
unfolding headers_from
get_locator_response s tip_number block_number hash_stop =
    let max_height = min (block_number + 1 + max_headers_len) (tip_number + 1) in
    headers_from s hash_stop (max_height - (block_number + 1)) (block_number + 1)

-- One block further back; below height 0 the subtraction panics, which is `none` as well.
unfoldable pub step_back : HeaderMap → Header → Option Header
unfolding ancestor_of
step_back m header =
    if header.number == 0 then none else ancestor_of m header.hash (header.number - 1)

-- The `while` loop of `last_common_ancestor`, with a turn for each height below. Headers are equal
-- where their hashes are.
unfoldable pub meet : HeaderMap → ℕ → Header → Header → Option Header
unfolding step_back
meet m zero left right = ite (ℕ_discrete left.hash right.hash) (some left) none
meet m (suc turns) left right =
    ite (ℕ_discrete left.hash right.hash) (some left) (elim (step_back m left) [
      | none ↦ none
      | some left' ↦ elim (step_back m right) [
        | none ↦ none
        | some right' ↦ meet m turns left' right'
      ]
    ])

unfoldable pub last_common_ancestor : HeaderMap → Header → Header → Option Header
unfolding ancestor_of get_header meet
last_common_ancestor m last_common best_known =
    elim (ancestor_of m best_known.hash last_common.number) [
      | none ↦ none
      | some right ↦
          ite (ℕ_discrete right.hash last_common.hash) (some right)
            (elim (get_header m last_common.hash) [
              | none ↦ none
              | some left ↦ meet m left.number left right
            ])
    ]
