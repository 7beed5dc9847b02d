-- ===== src/Ledger/Linking.antt =====
-- The entry that `create_ledger_checkpoint` (src/kratos_guard/core/operations.py) adds is linked to the
-- head that it verified.
use kratos_agent_guard.Primitives.{Primitives}
