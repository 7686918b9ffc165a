-- ===== src/Verify/Error.antt =====
-- verification/src/error.rs: `TransactionError`. The payload of a script failure, the error of the
-- virtual machine, is left out: nothing branches on it.
use ckb_miner_opt.Base.{Bool, true, false}
use ckb_miner_opt.Base.Outcome.{Outcome, ok, err, panic}
use ckb_miner_opt.Core.Capacity.{Result, overflow}

pub data TransactionError : Type 0 where
  capacity_overflow insufficient_cell_capacity duplicate_deps empty outputs_sum_overflow :
      TransactionError
  invalid_script script_failure invalid_signature version immature invalid_since : TransactionError
  cellbase_immaturity exceeded_maximum_block_bytes : TransactionError

unfoldable pub is_bad_tx : TransactionError → Bool
is_bad_tx insufficient_cell_capacity = false
is_bad_tx version = false
is_bad_tx immature = false
is_bad_tx cellbase_immaturity = false
is_bad_tx exceeded_maximum_block_bytes = false
is_bad_tx _ = true

-- `From<occupied_capacity::Error>`, where `?` converts the error.
abbrev pub from_capacity : {A : Type 0} → Result A → Outcome TransactionError A
from_capacity (ok a) = ok a
from_capacity (err overflow) = err capacity_overflow
from_capacity panic = panic
