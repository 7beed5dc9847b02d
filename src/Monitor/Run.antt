-- ===== src/Monitor/Run.antt =====
-- `run_monitor` of src/kratos_guard/core/operations.py: its loop, the entries that it appends, the
-- baselines and the state file that it writes.
use kratos_agent_guard.Prelude.{
  ℕ, zero, suc, ◌+◌, String, Bool, true, false, not, Option, none, some, List, [], ◌∷◌, ◌==◌,
  length, is_empty, if◌then◌else◌,
}
use kratos_agent_guard.Failure.{Kind, Result, ok, err, fail}
use kratos_agent_guard.Json.{Json, Items, arr, nil, cons, obj, field, end, str, int}
use kratos_agent_guard.Models.{LedgerEntry}
use kratos_agent_guard.Primitives.{Primitives, Stored, written}
use kratos_agent_guard.Stateful.{
  Stateful, ◌>>=◌, ◌>>◌, pure, lift, gets, reads, modify, raise_if, when,
}
use kratos_agent_guard.Signing.Store.{KeyStore, put_key}
use kratos_agent_guard.Ledger.Lock.{LockContext, LockFile, LockPayload, acquire_lock, release_lock}
use kratos_agent_guard.Ledger.Append.{Event, LedgerWorld, append_ledger_entry}
use kratos_agent_guard.Folder.Compare.{
  FolderSnapshot, FolderComparison, FolderVerdict, pass_no_folder_drift, drift_detected,
  compare_folder_snapshots,
}
use kratos_agent_guard.Folder.Snapshot.{Directory, SnapshotLimits, snapshot_folder}
use kratos_agent_guard.Configuration.Folders.{
  MonitoredFolder, PathContext, ConfigurationFile, load_configuration,
}
use kratos_agent_guard.Monitor.Health.{MonitorState, MonitorContext, MonitorHealth, monitor_health}
use kratos_agent_guard.Monitor.Baseline.{
  PersistedFolderBaseline, BaselineFile, load_baseline, write_baseline,
}

-- The files that the monitor touches and the number of clock readings; `completed` and `known` are
-- the variables `completed` and `baselines` of `run_monitor`.
pub record MonitorWorld : Type 0 where
  pub ledger : LedgerWorld
  pub baseline_files : String → BaselineFile
  pub state_file : Option MonitorState
  pub lock : LockFile
  pub clock : ℕ
  pub completed : ℕ
  pub known : String → Option FolderSnapshot

-- What the monitor meets; what changes with time is given by the number of clock readings so far.
pub record MonitorEnvironment : Type 0 where
  pub paths : PathContext
  pub read_baseline : String → Result PersistedFolderBaseline
  pub time : ℕ → ℕ
  pub process_id : ℕ
  pub pid_exists : ℕ → Bool
  -- the lock file of the monitor, and that of the ledger at an append
  pub monitor_lock : LockContext
  pub again : LockFile
  pub ledger_lock : ℕ → LockContext
  pub ledger_again : ℕ → LockFile
  -- the folder at a path, or why there is none
  pub directory_at : ℕ → String → Result Directory

-- `iterations`; where it is `None`, the loop goes on until an interrupt comes between two rounds.
pub data Iterations : Type 0 where
  bounded until_interrupt : ℕ → Iterations

abbrev pub is_pass : FolderVerdict → Bool
is_pass pass_no_folder_drift = true
is_pass drift_detected = false

abbrev verdict_text : FolderVerdict → String
verdict_text pass_no_folder_drift = "PASS_NO_FOLDER_DRIFT"
verdict_text drift_detected = "DRIFT_DETECTED"

abbrev path_items : List String → Items
path_items [] = nil
path_items (s ∷ ss) = cons (str s) (path_items ss)

-- `comparison.model_dump(mode="json")`
unfoldable pub comparison_json : FolderComparison → Json
comparison_json c = obj (
    field "schema_version" (str "kratos-guard.folder-comparison.v1") (
      field "baseline_manifest_sha256" (str c.baseline_manifest_sha256) (
        field "current_manifest_sha256" (str c.current_manifest_sha256) (
          field "added" (arr (path_items c.added)) (
            field "removed" (arr (path_items c.removed)) (
              field "changed" (arr (path_items c.changed))
                (field "verdict" (str (verdict_text c.verdict)) end)))))))

unfoldable pub baseline_payload : MonitoredFolder → FolderSnapshot → Json
baseline_payload f current = obj (
    field "label" (str f.label) (
      field "manifest_sha256" (str current.manifest_sha256)
        (field "file_count" (int current.file_count) end)))

abbrev limits_of : MonitoredFolder → SnapshotLimits
limits_of f = record {
  max_files = f.max_files;
  max_file_bytes = f.max_file_bytes;
  max_total_bytes = f.max_total_bytes;
}

-- `DEFAULT_STALE_LOCK_SECONDS`
abbrev pub default_stale_lock_seconds : ℕ
default_stale_lock_seconds = 300

abbrev pub put_file :
    String → Stored PersistedFolderBaseline → (String → BaselineFile) → String → BaselineFile
put_file id text files k = if k == id then some text else files k

module _ (p : Primitives) (e : MonitorEnvironment) where
  -- `datetime.now(UTC)`
  unfoldable pub now : Stateful MonitorWorld ℕ
  now w = (ok (e.time w.clock), record w { clock = w.clock + 1 })

  unfoldable pub append_event : Event → Stateful MonitorWorld LedgerEntry
  append_event event w =
      let x =
        append_ledger_entry p (e.ledger_lock w.clock) default_stale_lock_seconds
          (e.ledger_again w.clock) event w.ledger in
      (x.0, record w { ledger = x.1 })

  -- A call of `append_ledger_entry`, whose answer is dropped.
  unfoldable pub record_event : String → String → Json → Stateful MonitorWorld (Unit {0})
  record_event event_type subject payload = do
    at ← now
    _ ←
        append_event (record {
          event_type = event_type;
          subject = subject;
          payload = payload;
          recorded_at = at;
        })
    pure tt

  -- A method of the key store.
  unfoldable pub on_store {ℓ} : {A : Type ℓ} → Stateful KeyStore A → Stateful MonitorWorld A
  on_store m w =
      let x = m w.ledger.store in (x.0, record w { ledger = record w.ledger { store = x.1 } })

  abbrev pub remember : String → Option FolderSnapshot → MonitorWorld → MonitorWorld
  remember id none w = w
  remember id (some s) w = record w { known = put_key id s w.known }

  unfoldable pub load_one : MonitoredFolder → Stateful MonitorWorld (Unit {0})
  load_one f = do
    file ← gets (λ w. w.baseline_files f.folder_id)
    found ← on_store (load_baseline p e.paths.resolve e.read_baseline f file)
    modify (remember f.folder_id found)

  unfoldable pub load_all : List MonitoredFolder → Stateful MonitorWorld (Unit {0})
  load_all [] = pure tt
  load_all (f ∷ fs) = do when f.enabled (load_one f); load_all fs

  -- `snapshot_folder(Path(folder.path), ...)`
  unfoldable pub observe : MonitoredFolder → Stateful MonitorWorld FolderSnapshot
  observe f = do
    d ← reads (λ w. e.directory_at w.clock f.path)
    at ← now
    lift (snapshot_folder p (limits_of f) (e.paths.resolve f.path) d at)

  -- The entry on what was observed: the first baseline, or a drift.
  unfoldable pub report_observation :
      MonitoredFolder → Option FolderSnapshot → FolderSnapshot → Stateful MonitorWorld (Unit {0})
  report_observation f none current =
      record_event "folder.baseline.observed" f.folder_id (baseline_payload f current)
  report_observation f (some previous) current =
      when (not (is_pass (compare_folder_snapshots previous current).verdict)) (
        record_event "folder.drift.detected" f.folder_id
          (comparison_json (compare_folder_snapshots previous current)))

  unfoldable pub store_baseline :
      MonitoredFolder → FolderSnapshot → Stateful MonitorWorld (Unit {0})
  store_baseline f current = do
    b ← reads (λ w. write_baseline p f current w.ledger.store)
    modify (λ w. record w { baseline_files = put_file f.folder_id (written b) (w.baseline_files) })

  -- One folder in one round.
  unfoldable pub visit_folder : MonitoredFolder → Stateful MonitorWorld (Unit {0})
  visit_folder f = do
    current ← observe f
    previous ← gets (λ w. w.known f.folder_id)
    report_observation f previous current
    modify (remember f.folder_id (some current))
    store_baseline f current

  unfoldable pub visit_folders : List MonitoredFolder → Stateful MonitorWorld (Unit {0})
  visit_folders [] = pure tt
  visit_folders (f ∷ fs) = do when f.enabled (visit_folder f); visit_folders fs

  -- The state file, with the time of its heartbeat.
  unfoldable pub write_state : ℕ → String → Stateful MonitorWorld (Unit {0})
  write_state started_at state = do
    at ← now
    modify (λ w. record w {
      state_file = some (record {
        process_id = e.process_id;
        started_at = started_at;
        heartbeat_at = at;
        completed_iterations = w.completed;
        state = state;
      });
    })

  -- The body of the `while`.
  unfoldable pub one_round : ℕ → List MonitoredFolder → Stateful MonitorWorld (Unit {0})
  one_round started_at folders = do
    visit_folders folders
    modify (λ w. record w { completed = w.completed + 1 })
    write_state started_at "RUNNING"

  unfoldable pub rounds : ℕ → ℕ → List MonitoredFolder → Stateful MonitorWorld (Unit {0})
  rounds zero started_at folders = pure tt
  rounds (suc n) started_at folders = do one_round started_at folders; rounds n started_at folders

  unfoldable pub loop : Iterations → ℕ → List MonitoredFolder → Stateful MonitorWorld (Unit {0})
  loop (bounded n) started_at folders = rounds n started_at folders
  loop (until_interrupt n) started_at folders = do
    rounds n started_at folders
    lift (fail Kind.keyboard_interrupt "")

  -- What the `try` statement holds.
  unfoldable pub watch : Iterations → ℕ → List MonitoredFolder → Stateful MonitorWorld (Unit {0})
  watch iterations started_at folders = do
    load_all folders
    record_event "monitor.started" "standalone" (
        obj
          (field "folder_count" (int (length folders)) (field "process_id" (int e.process_id) end)))
    loop iterations started_at folders

  -- `except BaseException`
  abbrev pub note_failure : ℕ → Result (Unit {0}) × MonitorWorld → Result (Unit {0}) × MonitorWorld
  note_failure started_at (ok a, w) = (ok a, w)
  note_failure started_at (err x, w) = (err x, (write_state started_at "FAILED" w).1)

  -- The `try` statement.
  unfoldable pub guarded : Iterations → ℕ → List MonitoredFolder → Stateful MonitorWorld (Unit {0})
  guarded iterations started_at folders w =
      note_failure started_at (watch iterations started_at folders w)

  -- What `run_monitor` does while it holds its lock.
  unfoldable pub run_locked :
      Iterations → ℕ → List MonitoredFolder → Stateful MonitorWorld (Unit {0})
  run_locked iterations started_at folders = do
    guarded iterations started_at folders
    write_state started_at "STOPPED_CLEANLY"
    completed ← gets (λ w. w.completed)
    record_event "monitor.stopped" "standalone" (
        obj (
          field "completed_iterations" (int completed) (field "process_id" (int e.process_id) end)))

  abbrev pub release : Result (Unit {0}) × MonitorWorld → Result (Unit {0}) × MonitorWorld
  release (r, w) = (r, record w { lock = release_lock e.monitor_lock w.lock })

  abbrev pub under_lock :
      Stateful MonitorWorld (Unit {0})
      → MonitorWorld
      → Result (Stored LockPayload) × LockFile
      → Result (Unit {0}) × MonitorWorld
  under_lock m w (err x, l) = (err x, record w { lock = l })
  under_lock m w (ok own, l) = release (m (record w { lock = l }))

  unfoldable pub with_monitor_lock :
      ℕ → Stateful MonitorWorld (Unit {0}) → Stateful MonitorWorld (Unit {0})
  with_monitor_lock stale_after m w =
      under_lock m w (acquire_lock e.monitor_lock stale_after w.lock e.again)

  abbrev stored_state : Option MonitorState → Option (Result MonitorState)
  stored_state none = none
  stored_state (some s) = some (ok s)

  abbrev pub health_context : MonitorWorld → MonitorContext
  health_context w = record {
    now = e.time w.clock;
    pid_exists = e.pid_exists;
    state_file = stored_state w.state_file;
  }

  -- `run_monitor(configuration_path, iterations=...)`
  unfoldable pub run_monitor :
      String → ConfigurationFile → Iterations → Stateful MonitorWorld MonitorHealth
  run_monitor source file iterations = do
    c ← lift (load_configuration e.paths source file)
    raise_if (is_empty c.folders) Kind.value "NO_MONITORED_FOLDERS_CONFIGURED"
    started_at ← now
    modify (λ w. record w { completed = 0; known = λ id. none })
    with_monitor_lock c.stale_after_seconds (run_locked iterations started_at c.folders)
    reads (λ w. monitor_health (health_context w) e.paths source file)
