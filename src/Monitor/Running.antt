-- ===== src/Monitor/Running.antt =====
-- When `monitor_health` (src/kratos_guard/core/operations.py) says that the monitor runs.
use kratos_agent_guard.Prelude.{
  ℕ, ◌+◌, ◌*◌, ◌≤◌, String, ◌≡◌, ap, ◌∙◌, inl, inr, true, some, arith, eq_iff, Bool-cases,
  Option-cases,
}
use kratos_agent_guard.Failure.{ok, err, ok-injective}
use kratos_agent_guard.Configuration.Folders.{
  GuardConfiguration, PathContext, ConfigurationFile, load_configuration,
}
use kratos_agent_guard.Monitor.Health.{
  MonitorContext, MonitorState, MonitorHealth, pass_monitor_running, running_blockers,
  health_verdict, health_of, monitor_health, is_corruption,
}

-- The state file says that the monitor runs, its process exists and its heartbeat is recent enough.
pub record Runs (x : MonitorContext) (stale_after : ℕ) : Type 0 where
  pub state : MonitorState
  pub is_read : x.state_file ≡ some (ok state)
  pub is_running : state.state ≡ "RUNNING"
  pub is_alive : x.pid_exists state.process_id ≡ true
  pub is_recent : x.now ≤ state.heartbeat_at + stale_after * 1_000_000

health_verdict-running :
    (x : MonitorContext) (n : ℕ) (s : MonitorState)
    → health_verdict x s (running_blockers x n s) ≡ pass_monitor_running
    → (s.state ≡ "RUNNING")
      × (x.pid_exists s.process_id ≡ true)
      × (x.now ≤ s.heartbeat_at + n * 1_000_000)
unfolding health_verdict running_blockers
health_verdict-running x n s h = ground (arith, eq_iff s.state "RUNNING")

-- The monitor passes as running only if the state file says so, the process that it names exists,
-- and its heartbeat is no older than the configuration's limit.
pub monitor_health_running :
    (x : MonitorContext) (paths : PathContext) (source : String) (file : ConfigurationFile)
    (c : GuardConfiguration) (m : MonitorHealth)
    → load_configuration paths source file ≡ ok c
    → monitor_health x paths source file ≡ ok m
    → m.verdict ≡ pass_monitor_running
    → Runs x c.stale_after_seconds
unfolding monitor_health health_of running_blockers health_verdict
monitor_health_running x paths source file c m loaded h pass = elim (Option-cases x.state_file) [
  | inl missing ↦
      cc (ap (λ (y : MonitorHealth). y.verdict) (ok-injective (rw (loaded, missing) at h)) ∙ pass)
  | inr (ok s, there) ↦
      let same = ok-injective (rw (loaded, there) at h) in
      let (is_running, is_alive, is_recent) =
        health_verdict-running x c.stale_after_seconds s
          (ap (λ (y : MonitorHealth). y.verdict) same ∙ pass) in
      record {
        state = s;
        is_read = there;
        is_running = is_running;
        is_alive = is_alive;
        is_recent = is_recent;
      }
  | inr (err e, there) ↦ elim (Bool-cases (is_corruption e.kind)) [
    | inl corrupt ↦ cc (
        ap (λ (y : MonitorHealth). y.verdict) (ok-injective (rw (loaded, there, corrupt) at h))
        ∙ pass)
    | inr other ↦ cc (rw (loaded, there, other) at h)
  ]
]
