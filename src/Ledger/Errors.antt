-- ===== src/Ledger/Errors.antt =====
-- Refusals of the ledger (`LErr` in crates/te_core/src/ledger/model.rs) and decimal operations
-- that raise them (crates/te_core/src/ledger/ops.rs). A refusal is modelled by its kind; the
-- message, which only a reader of the log sees, is left out.
use trade_engine.Base.{Bool, not, Result, ◌>>=◌, map_err}
use trade_engine.Base.Int.{ℤ}
use trade_engine.Money.Decimal.{Money, DecErr}
use trade_engine.Money.Arithmetic
use trade_engine.Money.Integral.{mul_i128, from_i128}
use trade_engine.Money.Order.{Decimals, eq}

-- The kinds that the modelled code raises.
pub data LErr : Type 0 where
  value payload fold illegal_transition fill_mismatch duplicate_fill unhandled mirror_fold : LErr
  invalid_operation division_by_zero overflow unsupported unresolvable : LErr
  idempotency pending_reconciliation order_management oco_unknown order_reconciliation : LErr
  unsupported_order stop_iteration key : LErr

abbrev pub R : Type 0 → Type 0
R A = Result LErr A

unfoldable pub derr : DecErr → LErr
derr DecErr.invalid_operation = LErr.invalid_operation
derr DecErr.division_by_zero = LErr.division_by_zero
derr DecErr.overflow = LErr.overflow
derr (DecErr.unsupported s) = LErr.unsupported

unfoldable pub add : Money → Money → R Money
add a b = map_err derr (Arithmetic.add a b)

unfoldable pub sub : Money → Money → R Money
sub a b = map_err derr (Arithmetic.sub a b)

unfoldable pub mul : Money → Money → R Money
mul a b = map_err derr (Arithmetic.mul a b)

unfoldable pub mul_i : Money → ℤ → R Money
mul_i a n = map_err derr (mul_i128 a n)

unfoldable pub div : Money → Money → R Money
div a b = map_err derr (Arithmetic.div a b)

unfoldable pub dint : ℤ → R Money
dint n = map_err derr (from_i128 n)

unfoldable pub div_i : Money → ℤ → R Money
div_i a n = do m ← dint n; div a m

unfoldable pub neg : Money → R Money
neg a = map_err derr (Arithmetic.neg a)

unfoldable pub abs : Money → R Money
abs a = map_err derr (Arithmetic.abs a)

module _ ⦃d : Decimals⦄ where
  unfoldable pub ne : Money → Money → Bool
  ne a b = not (eq a b)
