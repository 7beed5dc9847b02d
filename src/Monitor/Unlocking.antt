-- ===== src/Monitor/Unlocking.antt =====
-- The lock of `run_monitor` (src/kratos_guard/core/operations.py).

use kratos_agent_guard.Prelude.{ℕ, String, ◌≡◌, refl, sym, ap, ◌∙◌, none, arith}
use kratos_agent_guard.Failure.{Failure, Result, ok, err}
use kratos_agent_guard.Primitives.{Primitives, Stored}
use kratos_agent_guard.Stateful.{Stateful}
use kratos_agent_guard.Stateful.Keeps.{Post, Keeps, Leads-Keeps, Leads-always}
use kratos_agent_guard.Ledger.Lock.{LockFile, LockPayload, acquire_lock, release_lock}
use kratos_agent_guard.Ledger.Locking.{acquire_lock-taken, release_lock-own}
use kratos_agent_guard.Configuration.Folders.{ConfigurationFile}
use kratos_agent_guard.Monitor.Run.{
  MonitorWorld, MonitorEnvironment, Iterations, release, under_lock, with_monitor_lock, run_monitor,
}
use kratos_agent_guard.Monitor.Invariant.{
  Steps, Runs, append_event-frame, on_store-frame, run_locked-Keeps,
}
use kratos_agent_guard.Monitor.Bracket.{Around, run_monitor-Leads}

module _ (p : Primitives) (e : MonitorEnvironment) where
  abbrev HasLock : LockFile → MonitorWorld → Type 0
  HasLock l w = w.lock ≡ l

  steps-lock : (l : LockFile) → Steps p e (HasLock l) (HasLock l)
  steps-lock l = record {
    weaken = λ w h. h;
    clock = λ w k h. h;
    known = λ w k h. h;
    files = λ w k h. h;
    state_file = λ w x h. h;
    append = append_event-frame p e (λ w h. h) (λ w m h. h);
    load = λ f file. on_store-frame p e (λ w h. h) (λ w m h. h) _;
  }

  runs-lock : (l : LockFile) → Runs p e (HasLock l) (HasLock l)
  runs-lock l = record {
    completed = λ w n h. h;
    raised_clock = λ w n h. h;
    raised_state_file = λ w x h. h;
  }

  acquire_lock-refused :
      (stale_after : ℕ) (y : Failure) (l : LockFile)
      → acquire_lock e.monitor_lock stale_after none e.again ≡ (err y, l)
      → l ≡ none
  unfolding acquire_lock
  acquire_lock-refused stale_after y l refused = ground (arith, refused)

  release-frees :
      (x : Result (Unit {0}) × MonitorWorld) (own : LockFile)
      → x.1.lock ≡ own
      → release_lock e.monitor_lock own ≡ none
      → Post (HasLock none) (HasLock none) (release p e x)
  release-frees (ok a, w) own same frees = rw same frees
  release-frees (err y, w) own same frees = rw same frees

  under_lock-frees :
      (stale_after : ℕ) (m : Stateful MonitorWorld (Unit {0})) (w : MonitorWorld)
      (x : Result (Stored LockPayload) × LockFile)
      → ((l : LockFile) → Keeps (HasLock l) (HasLock l) m)
      → acquire_lock e.monitor_lock stale_after none e.again ≡ x
      → Post (HasLock none) (HasLock none) (under_lock p e m w x)
  under_lock-frees stale_after m w (err y, l) km taking =
      acquire_lock-refused stale_after y l taking
  under_lock-frees stale_after m w (ok own, l) km taking =
      let (held, unheld) =
        acquire_lock-taken e.monitor_lock stale_after none e.again own l taking in
      release-frees (m (record w { lock = l })) l
        (Leads-always m (Leads-Keeps _ (km l)) (record w { lock = l }) refl)
        (ap (release_lock e.monitor_lock) held ∙ release_lock-own e.monitor_lock)

  with_monitor_lock-frees :
      (stale_after : ℕ) (m : Stateful MonitorWorld (Unit {0}))
      → ((l : LockFile) → Keeps (HasLock l) (HasLock l) m)
      → Keeps (HasLock none) (HasLock none) (with_monitor_lock p e stale_after m)
  unfolding with_monitor_lock
  with_monitor_lock-frees stale_after m km = record {
    at = λ w free.
        under_lock-frees stale_after m w (acquire_lock e.monitor_lock stale_after w.lock e.again) km
          (ap (λ l. acquire_lock e.monitor_lock stale_after l e.again) (sym free));
  }

  around-free : Around p e (HasLock none) (HasLock none) (HasLock none) (HasLock none)
  around-free = record {
    weaken = λ w h. h;
    clock = λ w k h. h;
    reset = λ w h. h;
    finished = λ w h. h;
  }

-- A run that finds no lock file leaves none, whether it returns or raises, at whatever point.
pub run_monitor-unlocks :
    (p : Primitives) (e : MonitorEnvironment) (i : Iterations) (source : String)
    (file : ConfigurationFile) (w : MonitorWorld)
    → w.lock ≡ none
    → (run_monitor p e source file i w).1.lock ≡ none
run_monitor-unlocks p e i source file w free =
    Leads-always _
      (run_monitor-Leads (around-free p e) i
        (λ n at fs. Leads-Keeps _ (
          with_monitor_lock-frees p e n _
            (λ l. run_locked-Keeps (steps-lock p e l) (runs-lock p e l) i at fs)))
        source file)
      w free
