-- ===== src/Core/TransactionMeta.antt =====
-- core/src/transaction_meta.rs: which outputs of a transaction are spent. The bit vector is the list
-- of its bits.
use ckb_miner_opt.Base.{
  ℕ, zero, suc, ◌<◌, ◌≡◌, ap, Bool, true, false, ◌&&◌, Option, some, List, [], ◌∷◌, arith, ltb,
  if◌then◌else◌, length, get_elem?, set, replicate, length-set, ite, ℕ_discrete,
}

pub record TransactionMeta : Type 0 where
  pub block_number : ℕ
  pub epoch_number : ℕ
  pub cellbase : Bool
  pub dead_cell : List Bool

-- `TransactionMeta::new`
unfoldable pub new : ℕ → ℕ → ℕ → Bool → TransactionMeta
new block_number epoch_number outputs_count all_dead = record {
  block_number = block_number;
  epoch_number = epoch_number;
  cellbase = false;
  dead_cell = replicate outputs_count all_dead;
}

unfoldable pub new_cellbase : ℕ → ℕ → ℕ → Bool → TransactionMeta
unfolding new
new_cellbase block_number epoch_number outputs_count all_dead =
    record (new block_number epoch_number outputs_count all_dead) { cellbase = true }

abbrev pub len : TransactionMeta → ℕ
len m = length m.dead_cell

unfoldable pub is_dead : TransactionMeta → ℕ → Option Bool
is_dead m index = get_elem? m.dead_cell index

abbrev pub all_bits : List Bool → Bool
all_bits [] = true
all_bits (b ∷ bs) = b && all_bits bs

unfoldable pub all_dead : TransactionMeta → Bool
all_dead m = all_bits m.dead_cell

unfoldable pub set_dead : ℕ → TransactionMeta → TransactionMeta
set_dead index m =
    if ltb index (len m) then record m { dead_cell = set m.dead_cell index true } else m

unfoldable pub unset_dead : ℕ → TransactionMeta → TransactionMeta
unset_dead index m =
    if ltb index (len m) then record m { dead_cell = set m.dead_cell index false } else m

get_elem?-set :
    (bs : List Bool) (i j : ℕ) (b : Bool)
    → i < length bs
    → get_elem? (set bs i b) j ≡ ite (ℕ_discrete i j) (some b) (get_elem? bs j)
get_elem?-set [] i j b h = elim h [ ]
get_elem?-set (x ∷ bs) zero zero b h = ground arith
get_elem?-set (x ∷ bs) zero (suc j) b h = ground arith
get_elem?-set (x ∷ bs) (suc i) zero b h = ground arith
get_elem?-set (x ∷ bs) (suc i) (suc j) b h = ground (arith, get_elem?-set bs i j b)

-- Marking an output that exists as dead changes that output alone.
pub is_dead-set_dead :
    (m : TransactionMeta) (i j : ℕ)
    → i < len m
    → is_dead (set_dead i m) j ≡ ite (ℕ_discrete i j) (some true) (is_dead m j)
unfolding is_dead set_dead
is_dead-set_dead m i j h = ground (arith, get_elem?-set m.dead_cell i j true)

pub is_dead-unset_dead :
    (m : TransactionMeta) (i j : ℕ)
    → i < len m
    → is_dead (unset_dead i m) j ≡ ite (ℕ_discrete i j) (some false) (is_dead m j)
unfolding is_dead unset_dead
is_dead-unset_dead m i j h = ground (arith, get_elem?-set m.dead_cell i j false)

set-set_back :
    (bs : List Bool) (i : ℕ) (b : Bool)
    → get_elem? bs i ≡ some false
    → set (set bs i b) i false ≡ bs
set-set_back [] i b h = cc
set-set_back (x ∷ bs) zero b h = ground arith
set-set_back (x ∷ bs) (suc i) b h = ap (◌∷◌ x) (set-set_back bs i b h)

-- Undoing the spending of a live output gives back the record as it was.
pub unset_dead-set_dead :
    (m : TransactionMeta) (i : ℕ) → is_dead m i ≡ some false → unset_dead i (set_dead i m) ≡ m
unfolding is_dead set_dead unset_dead
unset_dead-set_dead m i h =
    ground (arith, set-set_back m.dead_cell i true h, length-set m.dead_cell i true)
