-- ===== src/Monitor/Bracket.antt =====
-- What `run_monitor` (src/kratos_guard/core/operations.py) leads to, by what it does under its lock.
use kratos_agent_guard.Prelude.{ℕ, String, none, List}
use kratos_agent_guard.Failure.{Result, ok, err}
use kratos_agent_guard.Primitives.{Primitives, Stored}
use kratos_agent_guard.Stateful.{Stateful}
use kratos_agent_guard.Stateful.Keeps.{
  Post, Keeps-lift, Keeps-reads, Keeps-raise_if, Leads, Leads-Keeps, Leads-modify, Leads-bind,
}
use kratos_agent_guard.Ledger.Lock.{LockFile, LockPayload}
use kratos_agent_guard.Configuration.Folders.{MonitoredFolder, ConfigurationFile}
use kratos_agent_guard.Monitor.Run.{
  MonitorWorld, MonitorEnvironment, Iterations, run_locked, release, under_lock, with_monitor_lock,
  run_monitor,
}
use kratos_agent_guard.Monitor.Invariant.{Steps, Runs, now-frame, run_locked-Keeps}

-- What `run_monitor` does before and after its lock is held.
pub record Around (p : Primitives) (e : MonitorEnvironment) (P O R Q : MonitorWorld → Type 0)
    : Type 0 where
  pub weaken : (w : MonitorWorld) → P w → Q w
  pub clock : (w : MonitorWorld) (n : ℕ) → P w → P (record w { clock = n })
  pub reset : (w : MonitorWorld) → P w → O (record w { completed = 0; known = λ id. none })
  pub finished : (w : MonitorWorld) → R w → Q w

-- What the lock file does not matter to.
pub record Locks (O R Q : MonitorWorld → Type 0) : Type 0 where
  pub taken : (w : MonitorWorld) (l : LockFile) → O w → O (record w { lock = l })
  pub refused : (w : MonitorWorld) (l : LockFile) → O w → Q (record w { lock = l })
  pub returned : (w : MonitorWorld) (l : LockFile) → R w → R (record w { lock = l })
  pub raised : (w : MonitorWorld) (l : LockFile) → Q w → Q (record w { lock = l })

-- From `P`, with the count set back to `O`, what runs with the lock leads to `R`, where it returns.
pub run_monitor-Leads :
    {p : Primitives} {e : MonitorEnvironment} {P O R Q : MonitorWorld → Type 0}
    (b : Around p e P O R Q) (i : Iterations)
    → ((stale_after at : ℕ) (fs : List MonitoredFolder)
        → Leads O R Q (with_monitor_lock p e stale_after (run_locked p e i at fs)))
    → (source : String) (file : ConfigurationFile) → Leads P R Q (run_monitor p e source file i)
unfolding run_monitor
run_monitor-Leads {p} {e} b i locked source file =
    Leads-bind _ _ (Leads-Keeps _ (Keeps-lift b.weaken _)) λ c.
      Leads-bind _ _ (Leads-Keeps _ (Keeps-raise_if b.weaken _ _ _)) λ x.
        Leads-bind _ _ (Leads-Keeps _ (now-frame p e b.clock)) λ at.
          Leads-bind _ _ (Leads-modify _ b.reset) λ y.
            Leads-bind _ _ (locked c.stale_after_seconds at c.folders)
              λ z. Leads-Keeps _ (Keeps-reads b.finished _)

module _ (p : Primitives) (e : MonitorEnvironment) {O R Q : MonitorWorld → Type 0}
    (b : Locks O R Q) where
  release-leads : (x : Result (Unit {0}) × MonitorWorld) → Post R Q x → Post R Q (release p e x)
  release-leads (ok a, w) h = b.returned w _ h
  release-leads (err y, w) h = b.raised w _ h

  under_lock-Leads :
      (m : Stateful MonitorWorld (Unit {0})) (w : MonitorWorld)
      (x : Result (Stored LockPayload) × LockFile)
      → Leads O R Q m
      → O w
      → Post R Q (under_lock p e m w x)
  under_lock-Leads m w (err y, l) km h = b.refused w l h
  under_lock-Leads m w (ok own, l) km h =
      release-leads (m (record w { lock = l })) (km.at _ (b.taken w l h))

  pub with_monitor_lock-Leads :
      (stale_after : ℕ) (m : Stateful MonitorWorld (Unit {0}))
      → Leads O R Q m
      → Leads O R Q (with_monitor_lock p e stale_after m)
  unfolding with_monitor_lock
  with_monitor_lock-Leads stale_after m km = record { at = λ w h. under_lock-Leads m w _ km h }

-- What a run keeps.
pub run_monitor-keeps :
    {p : Primitives} {e : MonitorEnvironment} {P Q : MonitorWorld → Type 0} (v : Steps p e P Q)
    (r : Runs p e P Q) (lock : (w : MonitorWorld) (l : LockFile) → P w → P (record w { lock = l }))
    (raised_lock : (w : MonitorWorld) (l : LockFile) → Q w → Q (record w { lock = l }))
    (i : Iterations) (source : String) (file : ConfigurationFile)
    → Leads P P Q (run_monitor p e source file i)
run_monitor-keeps {P = P} {Q = Q} v r lock raised_lock i source file =
    let locks : Locks P P Q = record {
      taken = lock;
      refused = λ w l h. v.weaken _ (lock w l h);
      returned = lock;
      raised = raised_lock;
    } in
    run_monitor-Leads
      (record {
        weaken = v.weaken;
        clock = v.clock;
        reset = λ w h. v.known _ _ (r.completed w 0 h);
        finished = v.weaken;
      })
      i
      (λ n at fs.
        with_monitor_lock-Leads _ _ locks n _ (Leads-Keeps _ (run_locked-Keeps v r i at fs)))
      source file
