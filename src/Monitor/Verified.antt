-- ===== src/Monitor/Verified.antt =====
-- The ledger after a run of `run_monitor` (src/kratos_guard/core/operations.py) that returned.
use mathlib.Core.Path.{subst}
use kratos_agent_guard.Prelude.{
  inl, inr, ℕ, String, ◌≡◌, refl, sym, ◌∙◌, none, some, List, [], ◌∷◌, ◌++◌,
}
use kratos_agent_guard.Failure.{Result, ok, err, Result-cases, pair-cases}
use kratos_agent_guard.Json.{Json}
use kratos_agent_guard.Models.{LedgerEntry}
use kratos_agent_guard.Primitives.{Primitives, IsSound, Stored}
use kratos_agent_guard.Stateful.{Stateful, reads}
use kratos_agent_guard.Stateful.Keeps.{
  Post, Keeps, Keeps-bind, Keeps-pure, Keeps-gets, Post-reads, Keeps-lift, Keeps-reads,
  Keeps-weaken, Leads, Leads-Keeps, Leads-bind, Leads-ok,
}
use kratos_agent_guard.Signing.Store.{KeyStore, inspect_private}
use kratos_agent_guard.Signing.Trust.{directory}
use kratos_agent_guard.Signing.Lifecycle.{verify_local_payload_signature}
use kratos_agent_guard.Ledger.Existing.{
  IsPublished, verify_local-published, verify_local-unreadable,
}
use kratos_agent_guard.Ledger.Verify.{verify_ledger}
use kratos_agent_guard.Ledger.Passing.{passed}
use kratos_agent_guard.Ledger.Append.{Event, append_ledger_entry}
use kratos_agent_guard.Ledger.Appending.{append_ledger_entry-verifies}
use kratos_agent_guard.Configuration.Folders.{MonitoredFolder, ConfigurationFile}
use kratos_agent_guard.Monitor.Health.{MonitorHealth}
use kratos_agent_guard.Monitor.Baseline.{
  PersistedFolderBaseline, BaselineFile, load_written, load_baseline,
}
use kratos_agent_guard.Monitor.Run.{
  MonitorWorld, MonitorEnvironment, default_stale_lock_seconds, Iterations, append_event,
  record_event, on_store, run_locked, run_monitor,
}
use kratos_agent_guard.Monitor.Invariant.{Steps, Runs, guarded-Keeps, write_state-Keeps, now-Keeps}
use kratos_agent_guard.Monitor.Bracket.{Around, Locks, run_monitor-Leads, with_monitor_lock-Leads}

module _ {p : Primitives} (sound : IsSound p) (e : MonitorEnvironment) (k : String) (s : KeyStore)
    (published : IsPublished p k s) where
  abbrev HasStore : MonitorWorld → Type 0
  HasStore w = w.ledger.store ≡ s

  abbrev Anything : MonitorWorld → Type 0
  Anything w = Unit {0}

  -- The ledger file passes `verify_ledger` against the trust directory, with these entries.
  abbrev IsVerified : MonitorWorld → Type 0
  IsVerified w =
      (w.ledger.store ≡ s)
      × ((es : List LedgerEntry) × (verify_ledger p w.ledger.file (directory s.trust)
            ≡ ok (passed p (directory s.trust) es)))

  append_event-IsVerified :
      (event : Event) → Leads HasStore IsVerified Anything (append_event p e event)
  unfolding append_event
  append_event-IsVerified event = record {
    at = λ w h.
        elim (pair-cases (
          append_ledger_entry p (e.ledger_lock w.clock) default_stale_lock_seconds
            (e.ledger_again w.clock) event w.ledger)) [
              | inr (x, t, failed) ↦ rw failed tt
              | inl (entry, t, appended) ↦
                  let (kept, grown, freed, (es, reads, passes)) =
                    append_ledger_entry-verifies sound (e.ledger_lock w.clock) k
                      default_stale_lock_seconds (e.ledger_again w.clock) event w.ledger t entry
                      (subst (IsPublished p k) (sym h) published) appended in
                  rw appended (kept ∙ h, (es ++ entry ∷ [], rw (sym h) passes))
            ];
  }

  append_event-store : (event : Event) → Keeps HasStore Anything (append_event p e event)
  append_event-store event = Keeps-weaken _ (λ w h. h.0) (append_event-IsVerified event)

  verify_local-Keeps :
      (payload signature key_id : String)
      → Keeps
          (λ u. u ≡ s)
          (λ u. Unit {0})
          (verify_local_payload_signature p payload signature key_id)
  verify_local-Keeps payload signature key_id = record {
    at = λ u h.
        subst
          (λ v.
            Post (λ (u' : KeyStore). u' ≡ s) (λ u'. Unit {0})
              (verify_local_payload_signature p payload signature key_id v))
          (sym h)
          (elim (Result-cases (inspect_private p s)) [
            | inl (i, found) ↦
                rw (verify_local-published sound k s published i found payload signature key_id) (
                  Post-reads {P = λ (u' : KeyStore). u' ≡ s} {Q = λ u'. Unit {0}} (λ u' h'. tt) _ s
                    refl)
            | inr (x, failed) ↦
                rw (verify_local-unreadable sound k s published x payload signature key_id failed)
                  tt
          ]);
  }

  load_written-Keeps :
      (resolve : String → String) (read_baseline : String → Result PersistedFolderBaseline)
      (f : MonitoredFolder) (text : Stored PersistedFolderBaseline)
      → Keeps (λ u. u ≡ s) (λ u. Unit {0}) (load_written p resolve read_baseline f text)
  unfolding load_written
  load_written-Keeps resolve read_baseline f text = Keeps-bind _ _ (Keeps-lift (λ u h. tt) _) λ b.
      Keeps-bind _ _ (Keeps-reads (λ u h. tt) _)
        λ x. Keeps-bind _ _ (verify_local-Keeps _ _ _) λ y. Keeps-lift (λ u h. tt) _

  load_baseline-Keeps :
      (resolve : String → String) (read_baseline : String → Result PersistedFolderBaseline)
      (f : MonitoredFolder) (file : BaselineFile)
      → Keeps (λ u. u ≡ s) (λ u. Unit {0}) (load_baseline p resolve read_baseline f file)
  unfolding load_baseline
  load_baseline-Keeps resolve read_baseline f none = Keeps-pure none
  load_baseline-Keeps resolve read_baseline f (some text) =
      load_written-Keeps resolve read_baseline f text

  on_store-Post {ℓ} :
      {A : Type ℓ} (w : MonitorWorld) (x : Result A × KeyStore)
      → Post (λ u. u ≡ s) (λ u. Unit {0}) x
      → Post HasStore Anything (x.0, record w { ledger = record w.ledger { store = x.1 } })
  on_store-Post w (ok a, u) h = h
  on_store-Post w (err y, u) h = tt

  on_store-Keeps {ℓ} :
      {A : Type ℓ} (m : Stateful KeyStore A)
      → Keeps (λ u. u ≡ s) (λ u. Unit {0}) m
      → Keeps HasStore Anything (on_store p e m)
  unfolding on_store
  on_store-Keeps m k = record {
    at = λ w h. on_store-Post w (m w.ledger.store) (k.at w.ledger.store h);
  }

  steps-keep : Steps p e HasStore Anything
  steps-keep = record {
    weaken = λ w h. tt;
    clock = λ w n h. h;
    known = λ w k h. h;
    files = λ w k h. h;
    state_file = λ w x h. h;
    load = λ f file. on_store-Keeps _ (load_baseline-Keeps e.paths.resolve e.read_baseline f file);
    append = append_event-store;
  }

  runs-keep : Runs p e HasStore Anything
  runs-keep = record {
    completed = λ w n h. h;
    raised_clock = λ w n h. h;
    raised_state_file = λ w x h. h;
  }

  record_event-IsVerified :
      (event_type subject : String) (payload : Json)
      → Leads HasStore IsVerified Anything (record_event p e event_type subject payload)
  unfolding record_event
  record_event-IsVerified event_type subject payload =
      Leads-bind _ _ (Leads-Keeps _ (now-Keeps steps-keep))
        λ at. Leads-bind _ _ (append_event-IsVerified _) λ entry. Leads-Keeps _ (Keeps-pure tt)

  run_locked-IsVerified :
      (i : Iterations) (at : ℕ) (fs : List MonitoredFolder)
      → Leads HasStore IsVerified Anything (run_locked p e i at fs)
  unfolding run_locked
  run_locked-IsVerified i at fs =
      Leads-bind _ _ (Leads-Keeps _ (guarded-Keeps steps-keep runs-keep i at fs)) λ x.
        Leads-bind _ _ (Leads-Keeps _ (write_state-Keeps steps-keep at "STOPPED_CLEANLY"))
          λ y. Leads-bind _ _ (Leads-Keeps _ (Keeps-gets _)) λ n. record_event-IsVerified _ _ _

  around : Around p e HasStore HasStore IsVerified Anything
  around = record { weaken = λ w h. tt; clock = λ w n h. h; reset = λ w h. h; finished = λ w h. tt }

  locks : Locks HasStore IsVerified Anything
  locks = record {
    taken = λ w l h. h;
    refused = λ w l h. tt;
    returned = λ w l h. h;
    raised = λ w l h. tt;
  }

-- A run that returns, under a key store with a published key, leaves the key store as it was and a
-- ledger file that `verify_ledger` passes against the local trust directory.
pub run_monitor-verified :
    {p : Primitives} (sound : IsSound p) (e : MonitorEnvironment) (k : String) (source : String)
    (file : ConfigurationFile) (i : Iterations) (w w' : MonitorWorld) (h : MonitorHealth)
    → IsPublished p k w.ledger.store
    → run_monitor p e source file i w ≡ (ok h, w')
    → (w'.ledger.store ≡ w.ledger.store)
      × ((es : List LedgerEntry) × (verify_ledger p w'.ledger.file (directory w.ledger.store.trust)
            ≡ ok (passed p (directory w.ledger.store.trust) es)))
run_monitor-verified sound e k source file i w w' h published run =
    let s = w.ledger.store in
    Leads-ok _
      (run_monitor-Leads (around sound e k s published) i
        (λ n at fs.
          with_monitor_lock-Leads _ _ (locks sound e k s published) n _
            (run_locked-IsVerified sound e k s published i at fs))
        source file)
      w h w' refl run
