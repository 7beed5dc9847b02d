-- ===== src/Monitor/Growth.antt =====
-- `run_monitor` of src/kratos_guard/core/operations.py only adds to the ledger.
use kratos_agent_guard.Prelude.{◌≡◌, List, ◌++◌}
use kratos_agent_guard.Primitives.{Primitives}
use kratos_agent_guard.Stateful.{Stateful}
use kratos_agent_guard.Stateful.Keeps.{Keeps}
use kratos_agent_guard.Ledger.Verify.{Line}
use kratos_agent_guard.Ledger.Append.{lines_of}
use kratos_agent_guard.Monitor.Run.{MonitorWorld}

-- The ledger of the world starts with the lines.
abbrev pub Extends : List Line → MonitorWorld → Type 0
Extends start w = (ls : List Line) × (lines_of w.ledger.file ≡ start ++ ls)
