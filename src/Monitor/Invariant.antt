-- ===== src/Monitor/Invariant.antt =====
-- What every part of `run_monitor` (src/kratos_guard/core/operations.py) keeps, if its smallest
-- steps keep it.
use kratos_agent_guard.Prelude.{ℕ, zero, suc, String, Option, none, some, List, [], ◌∷◌}
use kratos_agent_guard.Failure.{Result, ok, err}
use kratos_agent_guard.Json.{Json}
use kratos_agent_guard.Primitives.{Primitives}
use kratos_agent_guard.Stateful.{Stateful, ◌>>=◌, modify}
use kratos_agent_guard.Stateful.Keeps.{
  Post, Post-reads, Keeps, Keeps-pure, Keeps-gets, Keeps-lift, Keeps-reads, Keeps-modify,
  Keeps-when, Keeps-bind, keeps_rules,
}
use kratos_agent_guard.Signing.Store.{KeyStore}
use kratos_agent_guard.Ledger.Append.{Event, LedgerWorld}
use kratos_agent_guard.Folder.Compare.{FolderSnapshot}
use kratos_agent_guard.Configuration.Folders.{MonitoredFolder}
use kratos_agent_guard.Monitor.Health.{MonitorState}
use kratos_agent_guard.Monitor.Baseline.{BaselineFile, load_baseline}
use kratos_agent_guard.Monitor.Run.{
  MonitorWorld, MonitorEnvironment, Iterations, bounded, until_interrupt, now, append_event,
  record_event, on_store, remember, load_one, load_all, observe, report_observation, store_baseline,
  visit_folder, visit_folders, write_state, one_round, rounds, loop, watch, note_failure, guarded,
  run_locked,
}

-- The steps between two changes of the count.
pub record Steps (p : Primitives) (e : MonitorEnvironment) (P Q : MonitorWorld → Type 0)
    : Type 0 where
  pub weaken : (w : MonitorWorld) → P w → Q w
  pub clock : (w : MonitorWorld) (n : ℕ) → P w → P (record w { clock = n })
  pub known :
      (w : MonitorWorld) (k : String → Option FolderSnapshot) → P w → P (record w { known = k })
  pub files :
      (w : MonitorWorld) (k : String → BaselineFile) → P w → P (record w { baseline_files = k })
  pub state_file :
      (w : MonitorWorld) (x : Option MonitorState) → P w → P (record w { state_file = x })
  pub append : (event : Event) → Keeps P Q (append_event p e event)
  pub load :
      (f : MonitoredFolder) (file : BaselineFile)
      → Keeps P Q (on_store p e (load_baseline p e.paths.resolve e.read_baseline f file))

-- What does not look at the ledger.
module _ (p : Primitives) (e : MonitorEnvironment) {P Q : MonitorWorld → Type 0}
    (weaken : (w : MonitorWorld) → P w → Q w)
    (ledger : (w : MonitorWorld) (l : LedgerWorld) → P w → P (record w { ledger = l })) where
  pub append_event-frame : (event : Event) → Keeps P Q (append_event p e event)
  unfolding append_event
  append_event-frame event = record { at = λ w h. Post-reads weaken _ _ (ledger w _ h) }

  pub on_store-frame {ℓ} : {A : Type ℓ} (m : Stateful KeyStore A) → Keeps P Q (on_store p e m)
  unfolding on_store
  on_store-frame m = record { at = λ w h. Post-reads weaken _ _ (ledger w _ h) }

-- An entry needs a reading of the clock and an append.
module _ (p : Primitives) (e : MonitorEnvironment) {P Q : MonitorWorld → Type 0}
    (clock : (w : MonitorWorld) (n : ℕ) → P w → P (record w { clock = n })) where
  pub now-frame : Keeps P Q (now p e)
  unfolding now
  now-frame = record { at = λ w h. clock w _ h }

  pub record_event-frame :
      ((event : Event) → Keeps P Q (append_event p e event))
      → (event_type subject : String) (payload : Json)
      → Keeps P Q (record_event p e event_type subject payload)
  unfolding record_event
  record_event-frame append event_type subject payload = search (keeps_rules, now-frame, append)

-- The count, and what the handler of an exception does.
pub record Runs (p : Primitives) (e : MonitorEnvironment) (P Q : MonitorWorld → Type 0)
    : Type 0 where
  pub completed : (w : MonitorWorld) (n : ℕ) → P w → P (record w { completed = n })
  -- after an exception
  pub raised_clock : (w : MonitorWorld) (n : ℕ) → Q w → Q (record w { clock = n })
  pub raised_state_file :
      (w : MonitorWorld) (x : Option MonitorState) → Q w → Q (record w { state_file = x })

module _ {p : Primitives} {e : MonitorEnvironment} {P Q : MonitorWorld → Type 0}
    (v : Steps p e P Q) where
  weaken : (w : MonitorWorld) → P w → Q w
  weaken = v.weaken

  pub now-Keeps : Keeps P Q (now p e)
  now-Keeps = now-frame p e v.clock

  pub record_event-Keeps :
      (event_type subject : String) (payload : Json)
      → Keeps P Q (record_event p e event_type subject payload)
  record_event-Keeps = record_event-frame p e v.clock v.append

  pub remember-Keeps :
      (id : String) (found : Option FolderSnapshot) → Keeps P Q (modify (remember p e id found))
  remember-Keeps id none = Keeps-modify _ (λ w h. h)
  remember-Keeps id (some snapshot) = Keeps-modify _ (λ w h. v.known w _ h)

  observe-Keeps : (f : MonitoredFolder) → Keeps P Q (observe p e f)
  unfolding observe
  observe-Keeps f = search (keeps_rules, weaken, now-Keeps)

  report_observation-Keeps :
      (f : MonitoredFolder) (previous : Option FolderSnapshot) (current : FolderSnapshot)
      → Keeps P Q (report_observation p e f previous current)
  unfolding report_observation
  report_observation-Keeps f none current = record_event-Keeps _ _ _
  report_observation-Keeps f (some previous) current = Keeps-when _ _ (record_event-Keeps _ _ _)

  store_baseline-Keeps :
      (f : MonitoredFolder) (current : FolderSnapshot) → Keeps P Q (store_baseline p e f current)
  unfolding store_baseline
  store_baseline-Keeps f current =
      Keeps-bind _ _ (Keeps-reads weaken _) λ b. Keeps-modify _ (λ w h. v.files w _ h)

  visit_folder-Keeps : (f : MonitoredFolder) → Keeps P Q (visit_folder p e f)
  unfolding visit_folder
  visit_folder-Keeps f =
      search
        (keeps_rules, observe-Keeps, report_observation-Keeps, remember-Keeps, store_baseline-Keeps)

  pub visit_folders-Keeps : (fs : List MonitoredFolder) → Keeps P Q (visit_folders p e fs)
  unfolding visit_folders
  visit_folders-Keeps [] = Keeps-pure tt
  visit_folders-Keeps (f ∷ fs) =
      Keeps-bind _ _ (Keeps-when f.enabled _ (visit_folder-Keeps f)) λ x. visit_folders-Keeps fs

  pub write_state-Keeps : (at : ℕ) (state : String) → Keeps P Q (write_state p e at state)
  unfolding write_state
  write_state-Keeps at state =
      Keeps-bind _ _ now-Keeps λ t. Keeps-modify _ (λ w h. v.state_file w _ h)

  load_one-Keeps : (f : MonitoredFolder) → Keeps P Q (load_one p e f)
  unfolding load_one
  load_one-Keeps f =
      Keeps-bind _ _ (Keeps-gets _)
        λ file. Keeps-bind _ _ (v.load f file) λ found. remember-Keeps f.folder_id found

  pub load_all-Keeps : (fs : List MonitoredFolder) → Keeps P Q (load_all p e fs)
  unfolding load_all
  load_all-Keeps [] = Keeps-pure tt
  load_all-Keeps (f ∷ fs) =
      Keeps-bind _ _ (Keeps-when f.enabled _ (load_one-Keeps f)) λ x. load_all-Keeps fs

  module _ (r : Runs p e P Q) where
    one_round-Keeps : (at : ℕ) (fs : List MonitoredFolder) → Keeps P Q (one_round p e at fs)
    unfolding one_round
    one_round-Keeps at fs = Keeps-bind _ _ (visit_folders-Keeps fs) λ x.
        Keeps-bind _ _ (Keeps-modify _ (λ w h. r.completed w _ h))
          λ y. write_state-Keeps at "RUNNING"

    rounds-Keeps : (n at : ℕ) (fs : List MonitoredFolder) → Keeps P Q (rounds p e n at fs)
    unfolding rounds
    rounds-Keeps zero at fs = Keeps-pure tt
    rounds-Keeps (suc n) at fs = Keeps-bind _ _ (one_round-Keeps at fs) λ x. rounds-Keeps n at fs

    loop-Keeps :
        (i : Iterations) (at : ℕ) (fs : List MonitoredFolder) → Keeps P Q (loop p e i at fs)
    unfolding loop
    loop-Keeps (bounded n) at fs = rounds-Keeps n at fs
    loop-Keeps (until_interrupt n) at fs =
        Keeps-bind _ _ (rounds-Keeps n at fs) λ x. Keeps-lift weaken _

    watch-Keeps :
        (i : Iterations) (at : ℕ) (fs : List MonitoredFolder) → Keeps P Q (watch p e i at fs)
    unfolding watch
    watch-Keeps i at fs = search (keeps_rules, load_all-Keeps, record_event-Keeps, loop-Keeps)

    -- The handler writes the state file.
    note_failure-keeps :
        (at : ℕ) (x : Result (Unit {0}) × MonitorWorld)
        → Post P Q x
        → Post P Q (note_failure p e at x)
    unfolding write_state now ◌>>=◌ modify
    note_failure-keeps at (ok a, w) h = h
    note_failure-keeps at (err y, w) h = r.raised_state_file _ _ (r.raised_clock w _ h)

    pub guarded-Keeps :
        (i : Iterations) (at : ℕ) (fs : List MonitoredFolder) → Keeps P Q (guarded p e i at fs)
    unfolding guarded
    guarded-Keeps i at fs = record {
      at = λ w h. note_failure-keeps at (watch p e i at fs w) ((watch-Keeps i at fs).at w h);
    }

    pub run_locked-Keeps :
        (i : Iterations) (at : ℕ) (fs : List MonitoredFolder) → Keeps P Q (run_locked p e i at fs)
    unfolding run_locked
    run_locked-Keeps i at fs =
        search (keeps_rules, guarded-Keeps, write_state-Keeps, record_event-Keeps)
