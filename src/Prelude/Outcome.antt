-- ===== src/Prelude/Outcome.antt =====
-- A call that returns a value or raises. The state is passed on beside the result, since what was
-- written before a raise stays written.

-- `E` are the exceptions that a caller can tell apart.
pub data Outcome (E A : Type 0) : Type 0 where
  ok : A → Outcome E A
  err : E → Outcome E A
