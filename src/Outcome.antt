-- ===== src/Outcome.antt =====
-- Calls that return or raise, with the exceptions that the modelled code raises.
use na_sso.Prelude.{String}

-- `OperationConflict`, `ValueError`, the `TypeError` of `hmac.compare_digest`, `struct.error` and
-- `KeyError`.
pub data Fault : Type 0 where
  operation_conflict value_error : String → Fault
  type_error struct_error key_error : Fault

pub data Outcome {ℓ} (A : Type ℓ) : Type ℓ where
  returned : A → Outcome A
  raised : Fault → Outcome A
