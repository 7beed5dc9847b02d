-- ===== src/Tests/Monitor.antt =====
-- Runs of `monitor_health` (src/kratos_guard/core/operations.py).
use kratos_agent_guard.Prelude.{◌≡◌, refl, true, some, [], ◌∷◌}
use kratos_agent_guard.Failure.{ok}
use kratos_agent_guard.Primitives.{written}
use kratos_agent_guard.Monitor.Health.{
  MonitorContext, MonitorState, MonitorHealth, monitor_health, health_of, health_verdict,
  running_blockers, pass_monitor_running, blocked_monitor_health, monitor_heartbeat_stale,
}
use kratos_agent_guard.Monitor.Running.{monitor_health_running, Runs}
use kratos_agent_guard.Tests.Configuration.{context, one_folder, load_run, configuration_steps}

abbrev state : MonitorState
state = record {
  process_id = 7;
  started_at = 0;
  heartbeat_at = 5;
  completed_iterations = 3;
  state = "RUNNING";
}

abbrev alive : MonitorContext
alive = record { now = 300_000_005; pid_exists = λ n. true; state_file = some (ok state) }

abbrev running : MonitorHealth
running = record {
  process_id = some 7;
  started_at = some 0;
  heartbeat_at = some 5;
  configured_folder_count = 1;
  completed_iterations = 3;
  state = "RUNNING";
  blockers = [];
  verdict = pass_monitor_running;
}

running_run : monitor_health alive context "/c" (some (written one_folder)) ≡ ok running
unfolding configuration_steps monitor_health health_of health_verdict running_blockers
running_run = refl

monitor_health_running_example : Runs alive 300
monitor_health_running_example =
    monitor_health_running alive context "/c" (some (written one_folder)) one_folder running
      load_run running_run refl

-- A microsecond later, the heartbeat is stale.
stale_run :
    monitor_health (record alive { now = 300_000_006 }) context "/c" (some (written one_folder))
    ≡ ok (record running {
      blockers = monitor_heartbeat_stale ∷ [];
      verdict = blocked_monitor_health;
    })
unfolding configuration_steps monitor_health health_of health_verdict running_blockers
stale_run = refl
