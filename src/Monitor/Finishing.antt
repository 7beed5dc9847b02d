-- ===== src/Monitor/Finishing.antt =====
-- How a run of `run_monitor` (src/kratos_guard/core/operations.py) ends: the state file, the count of
-- rounds and the monitor's lock.
use mathlib.Core.Path.{subst}
use kratos_agent_guard.Prelude.{
  ℕ, zero, suc, ◌+◌, String, ◌≡◌, refl, ap, ◌⊎◌, inl, inr, some, List, arith,
}
use kratos_agent_guard.Failure.{Result, ok, err}
use kratos_agent_guard.Primitives.{Primitives}
use kratos_agent_guard.Stateful.{◌>>=◌, modify}
use kratos_agent_guard.Stateful.Keeps.{
  Post, Keeps-pure, Keeps-gets, Leads, Leads-Keeps, Leads-modify, Leads-bind, Leads-ok,
  Leads-raises, Leads-always,
}
use kratos_agent_guard.Configuration.Folders.{MonitoredFolder, ConfigurationFile}
use kratos_agent_guard.Monitor.Health.{MonitorState, MonitorHealth}
use kratos_agent_guard.Monitor.Run.{
  MonitorWorld, MonitorEnvironment, Iterations, bounded, now, write_state, one_round, rounds, loop,
  watch, note_failure, guarded, run_locked, run_monitor,
}
use kratos_agent_guard.Monitor.Invariant.{
  Steps, now-frame, record_event-frame, append_event-frame, on_store-frame, visit_folders-Keeps,
  write_state-Keeps, load_all-Keeps, record_event-Keeps,
}
use kratos_agent_guard.Monitor.Bracket.{Around, Locks, run_monitor-Leads, with_monitor_lock-Leads}

abbrev Anything : MonitorWorld → Type 0
Anything w = Unit {0}

abbrev HasCount : ℕ → MonitorWorld → Type 0
HasCount n w = w.completed ≡ n

module _ (p : Primitives) (e : MonitorEnvironment) where
  -- The state file that a run of `n` rounds leaves.
  abbrev pub HasStopped : ℕ → MonitorWorld → Type 0
  HasStopped n w =
      (m : MonitorState) × (w.state_file ≡ some m)
      × (m.process_id ≡ e.process_id)
      × (m.completed_iterations ≡ n)
      × (m.state ≡ "STOPPED_CLEANLY")

  -- The state file says that the run is over.
  abbrev pub HasEnded : MonitorWorld → Type 0
  HasEnded w =
      (m : MonitorState) × (w.state_file ≡ some m)
      × (m.process_id ≡ e.process_id)
      × ((m.state ≡ "FAILED") ⊎ (m.state ≡ "STOPPED_CLEANLY"))

  ended-stopped : (n : ℕ) (w : MonitorWorld) → HasStopped n w → HasEnded w
  ended-stopped n w (m, written, same, count, stopped) = (m, written, same, inr stopped)

  steps-count : (n : ℕ) → Steps p e (HasCount n) Anything
  steps-count n = record {
    weaken = λ w h. tt;
    clock = λ w k h. h;
    known = λ w k h. h;
    files = λ w k h. h;
    state_file = λ w x h. h;
    append = append_event-frame p e (λ w h. tt) (λ w l h. h);
    load = λ f file. on_store-frame p e (λ w h. tt) (λ w l h. h) _;
  }

  one_round-counts :
      (n at : ℕ) (fs : List MonitoredFolder)
      → Leads (HasCount n) (HasCount (n + 1)) Anything (one_round p e at fs)
  unfolding one_round
  one_round-counts n at fs =
      Leads-bind _ _ (Leads-Keeps _ (visit_folders-Keeps (steps-count n) fs)) λ x.
        Leads-bind _ _ (Leads-modify _ (λ w h. ap (λ k. k + 1) h))
          λ y. Leads-Keeps _ (write_state-Keeps (steps-count (n + 1)) at "RUNNING")

  rounds-count :
      (k n m at : ℕ) (fs : List MonitoredFolder)
      → n + k ≡ m
      → Leads (HasCount n) (HasCount m) Anything (rounds p e k at fs)
  unfolding rounds
  rounds-count zero n m at fs total =
      subst (λ j. Leads (HasCount n) (HasCount j) Anything (rounds p e zero at fs))
        (let same : n ≡ m = omega arith in same) (Leads-Keeps _ (Keeps-pure tt))
  rounds-count (suc k) n m at fs total =
      Leads-bind _ _ (one_round-counts n at fs) λ x. rounds-count k (n + 1) m at fs (omega arith)

  watch-counts :
      (n at : ℕ) (fs : List MonitoredFolder)
      → Leads (HasCount 0) (HasCount n) Anything (watch p e (bounded n) at fs)
  unfolding watch loop
  watch-counts n at fs = Leads-bind _ _ (Leads-Keeps _ (load_all-Keeps (steps-count 0) fs)) λ x.
      Leads-bind _ _ (Leads-Keeps _ (record_event-Keeps (steps-count 0) _ _ _))
        λ y. rounds-count n 0 n at fs (omega arith)

  anyway : (x : Result (Unit {0}) × MonitorWorld) → Post Anything Anything x
  anyway (ok a, w) = tt
  anyway (err x, w) = tt

  module _ (R : MonitorWorld → Type 0) where
    -- The handler of an exception writes the state file.
    note_failure-ends :
        (at : ℕ) (x : Result (Unit {0}) × MonitorWorld)
        → Post R Anything x
        → Post R HasEnded (note_failure p e at x)
    unfolding write_state now ◌>>=◌ modify
    note_failure-ends at (ok a, w) h = h
    note_failure-ends at (err x, w) h = (_, refl, refl, inl refl)

    guarded-ends :
        (i : Iterations) (at : ℕ) (fs : List MonitoredFolder) (P : MonitorWorld → Type 0)
        → Leads P R Anything (watch p e i at fs)
        → Leads P R HasEnded (guarded p e i at fs)
    unfolding guarded
    guarded-ends i at fs P k = record {
      at = λ w h. note_failure-ends at (watch p e i at fs w) (k.at w h);
    }

  write_state-stops :
      (n at : ℕ) → Leads (HasCount n) (HasStopped n) HasEnded (write_state p e at "STOPPED_CLEANLY")
  unfolding write_state
  write_state-stops n at =
      Leads-bind _ _ (Leads-Keeps _ (now-frame p e (λ w k h. h)))
        λ t. Leads-modify _ (λ w h. (_, refl, refl, h, refl))

  run_locked-stops :
      (n at : ℕ) (fs : List MonitoredFolder)
      → Leads (HasCount 0) (HasStopped n) HasEnded (run_locked p e (bounded n) at fs)
  unfolding run_locked
  run_locked-stops n at fs =
      Leads-bind _ _
        (guarded-ends (HasCount n) (bounded n) at fs (HasCount 0) (watch-counts n at fs))
        λ x. Leads-bind _ _ (write_state-stops n at) λ y.
          Leads-bind _ _ (Leads-Keeps _ (Keeps-gets _)) λ k. Leads-Keeps _ (
            record_event-frame p e (λ w j h. h)
              (append_event-frame p e (ended-stopped n) (λ w l h. h)) _ _ _)

  run_locked-ends :
      (i : Iterations) (at : ℕ) (fs : List MonitoredFolder)
      → Leads Anything HasEnded HasEnded (run_locked p e i at fs)
  unfolding run_locked write_state
  run_locked-ends i at fs =
      Leads-bind _ _
        (guarded-ends Anything i at fs Anything
          (record { at = λ w h. anyway (watch p e i at fs w) }))
        λ x.
          Leads-bind _ _
            (Leads-bind _ _ (Leads-Keeps _ (now-frame p e (λ w k h. h)))
              λ t. Leads-modify _ (λ w h. (_, refl, refl, inr refl)))
            λ y. Leads-bind _ _ (Leads-Keeps _ (Keeps-gets _)) λ k. Leads-Keeps _ (
              record_event-frame p e (λ w j h. h) (append_event-frame p e (λ w h. h) (λ w l h. h)) _
                _ _)

-- A run of `n` rounds that returns has done all of them: the state file then holds this process's
-- number and the count `n`, and says that the run stopped cleanly.
pub run_monitor-stops :
    (p : Primitives) (e : MonitorEnvironment) (n : ℕ) (source : String) (file : ConfigurationFile)
    (w w' : MonitorWorld) (h : MonitorHealth)
    → run_monitor p e source file (bounded n) w ≡ (ok h, w')
    → HasStopped p e n w'
run_monitor-stops p e n source file w w' h run =
    let around : Around p e Anything (HasCount 0) (HasStopped p e n) Anything = record {
      weaken = λ u x. tt;
      clock = λ u k x. tt;
      reset = λ u x. refl;
      finished = λ u x. tt;
    } in
    let locks : Locks (HasCount 0) (HasStopped p e n) Anything = record {
      taken = λ u l x. x;
      refused = λ u l x. tt;
      returned = λ u l x. x;
      raised = λ u l x. tt;
    } in
    Leads-ok _
      (run_monitor-Leads around (bounded n)
        (λ k at fs.
          with_monitor_lock-Leads _ _ locks k _
            (Leads-raises _ (λ u x. tt) (run_locked-stops p e n at fs)))
        source file)
      w h w' tt run

-- However the part of the run under the lock ends, by a return, an exception or an interrupt, the
-- state file then holds this process's number and says that the run stopped cleanly or failed.
pub run_locked-HasEnded :
    (p : Primitives) (e : MonitorEnvironment) (i : Iterations) (started_at : ℕ)
    (fs : List MonitoredFolder) (w : MonitorWorld)
    → HasEnded p e (run_locked p e i started_at fs w).1
run_locked-HasEnded p e i started_at fs w =
    Leads-always _ (run_locked-ends p e i started_at fs) w tt
