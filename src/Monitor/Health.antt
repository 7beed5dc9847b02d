-- ===== src/Monitor/Health.antt =====
-- `monitor_health` of src/kratos_guard/core/operations.py.
use kratos_agent_guard.Prelude.{
  ℕ, ◌+◌, ◌*◌, String, Bool, true, false, not, ◌&&◌, Option, none, some, List, [], ◌∷◌, ltb, ◌==◌,
  length, is_empty, if◌then◌else◌,
}
use kratos_agent_guard.Failure.{Kind, Result, ok, err, ◌>>=◌}
use kratos_agent_guard.Configuration.Folders.{
  GuardConfiguration, PathContext, ConfigurationFile, load_configuration,
}

pub data MonitorBlocker : Type 0 where
  monitor_not_started monitor_state_corrupt : MonitorBlocker
  monitor_process_missing monitor_heartbeat_stale : MonitorBlocker

pub data MonitorVerdict : Type 0 where
  blocked_monitor_not_started fail_monitor_state : MonitorVerdict
  pass_monitor_running pass_monitor_stopped_cleanly blocked_monitor_health : MonitorVerdict

-- The values of the state file; times are in microseconds.
pub record MonitorState : Type 0 where
  pub process_id : ℕ
  pub started_at : ℕ
  pub heartbeat_at : ℕ
  pub completed_iterations : ℕ
  pub state : String

pub record MonitorHealth : Type 0 where
  pub process_id : Option ℕ
  pub started_at : Option ℕ
  pub heartbeat_at : Option ℕ
  pub configured_folder_count : ℕ
  pub completed_iterations : ℕ
  pub state : String
  pub blockers : List MonitorBlocker
  pub verdict : MonitorVerdict

-- The clock, `psutil.pid_exists`, and the reading of the state file, if there is one.
pub record MonitorContext : Type 0 where
  pub now : ℕ
  pub pid_exists : ℕ → Bool
  pub state_file : Option (Result MonitorState)

-- `except (KeyError, TypeError, ValueError, json.JSONDecodeError)`
abbrev pub is_corruption : Kind → Bool
is_corruption Kind.key = true
is_corruption Kind.type = true
is_corruption Kind.value = true
is_corruption Kind.file_not_found = false
is_corruption Kind.file_exists = false
is_corruption Kind.permission = false
is_corruption Kind.os = false
is_corruption Kind.runtime = false
is_corruption Kind.not_a_directory = false
is_corruption Kind.attribute = false
is_corruption Kind.bad_zip_file = false
is_corruption Kind.index = false
is_corruption Kind.keyboard_interrupt = false

abbrev without_state : ℕ → String → MonitorBlocker → MonitorVerdict → MonitorHealth
without_state count state blocker verdict = record {
  process_id = none;
  started_at = none;
  heartbeat_at = none;
  configured_folder_count = count;
  completed_iterations = 0;
  state = state;
  blockers = blocker ∷ [];
  verdict = verdict;
}

abbrev note_if : Bool → MonitorBlocker → List MonitorBlocker → List MonitorBlocker
note_if b x later = if b then x ∷ later else later

-- The age of the heartbeat exceeds the limit.
abbrev pub is_stale : ℕ → ℕ → ℕ → Bool
is_stale now heartbeat_at stale_after = ltb (heartbeat_at + stale_after * 1_000_000) now

module _ (x : MonitorContext) where
  unfoldable pub running_blockers : ℕ → MonitorState → List MonitorBlocker
  running_blockers stale_after s =
      if s.state == "RUNNING"
      then note_if (not (x.pid_exists s.process_id)) monitor_process_missing
          (note_if (is_stale x.now s.heartbeat_at stale_after) monitor_heartbeat_stale [])
      else []

  unfoldable pub health_verdict : MonitorState → List MonitorBlocker → MonitorVerdict
  health_verdict s blockers =
      if s.state == "RUNNING" && is_empty blockers
      then pass_monitor_running
      else if s.state == "STOPPED_CLEANLY"
      then pass_monitor_stopped_cleanly
      else blocked_monitor_health

  unfoldable pub health_of : GuardConfiguration → MonitorState → MonitorHealth
  health_of c s = record {
    process_id = some s.process_id;
    started_at = some s.started_at;
    heartbeat_at = some s.heartbeat_at;
    configured_folder_count = length c.folders;
    completed_iterations = s.completed_iterations;
    state = s.state;
    blockers = running_blockers c.stale_after_seconds s;
    verdict = health_verdict s (running_blockers c.stale_after_seconds s);
  }

  abbrev read_health : GuardConfiguration → Option (Result MonitorState) → Result MonitorHealth
  read_health c none = ok (
      without_state (length c.folders) "NOT_STARTED" monitor_not_started
        blocked_monitor_not_started)
  read_health c (some (ok s)) = ok (health_of c s)
  read_health c (some (err e)) =
      if is_corruption e.kind
      then ok (without_state (length c.folders) "CORRUPT" monitor_state_corrupt fail_monitor_state)
      else err e

  -- `monitor_health(configuration_path)`
  unfoldable pub monitor_health : PathContext → String → ConfigurationFile → Result MonitorHealth
  monitor_health paths source file = do
    c ← load_configuration paths source file
    read_health c x.state_file
