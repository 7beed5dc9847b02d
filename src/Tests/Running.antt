-- ===== src/Tests/Running.antt =====
-- Runs of `run_monitor` (src/kratos_guard/core/operations.py).
use kratos_agent_guard.Prelude.{◌≡◌, refl, true, false, some, none, List, [], ◌∷◌, length}
use kratos_agent_guard.Failure.{Kind, ok, fail}
use kratos_agent_guard.Primitives.{written}
use kratos_agent_guard.Stateful.{◌>>=◌, pure, lift, gets, reads, modify, raise_if, when}
use kratos_agent_guard.Models.{LedgerEntry}
use kratos_agent_guard.Signing.Trust.{
  directory, public_key_payload, key_revocation_state, not_revoked,
}
use kratos_agent_guard.Ledger.Verify.{verify_ledger}
use kratos_agent_guard.Ledger.Passing.{passed}
use kratos_agent_guard.Ledger.Append.{lines_of}
use kratos_agent_guard.Monitor.Verified.{run_monitor-verified}
use kratos_agent_guard.Monitor.Finishing.{
  HasStopped, HasEnded, run_monitor-stops, run_locked-HasEnded,
}
use kratos_agent_guard.Monitor.Unlocking.{run_monitor-unlocks}
use kratos_agent_guard.Monitor.Reporting.{HasReported, visit_folder-reports}
use kratos_agent_guard.Monitor.Persistence.{load_baseline-write_baseline}
use kratos_agent_guard.Folder.Compare.{FolderSnapshot}
use kratos_agent_guard.Folder.Snapshot
use kratos_agent_guard.Folder.Snapshot.{Directory, no_more}
use kratos_agent_guard.Monitor.Health.{
  MonitorHealth, monitor_health, health_of, health_verdict, running_blockers,
  pass_monitor_stopped_cleanly,
}
use kratos_agent_guard.Monitor.Baseline.{
  PersistedFolderBaseline, load_baseline, load_written, check_baseline, baseline_signing_bytes,
  snapshot_json, accept_valid, is_valid_baseline, all_digests, write_baseline,
}
use kratos_agent_guard.Monitor.Run.{
  MonitorWorld, MonitorEnvironment, bounded, now, append_event, record_event, on_store, load_one,
  load_all, observe, baseline_payload, comparison_json, report_observation, store_baseline,
  visit_folder, visit_folders, write_state, one_round, rounds, loop, watch, guarded, run_locked,
  with_monitor_lock, run_monitor,
}
use kratos_agent_guard.Tests.Toy.{toy, toy-IsSound}
use kratos_agent_guard.Tests.Appending.{context, store, store-IsPublished, one_line, append_steps}
use kratos_agent_guard.Tests.Configuration
use kratos_agent_guard.Tests.Configuration.{one_folder, folder, configuration_steps}
use kratos_agent_guard.Tests.Folder.{folder_steps, snapshot}

abbrev tree : Directory
tree =
    Snapshot.directory
      (record { name = "a"; is_symlink = false; byte_count = 5; content = "alice" } ∷ []) no_more

abbrev environment : MonitorEnvironment
environment = record {
  paths = Configuration.context;
  read_baseline = λ s. fail Kind.value "PersistedFolderBaseline";
  time = λ n. n;
  process_id = 7;
  pid_exists = λ n. true;
  monitor_lock = context;
  again = none;
  ledger_lock = λ n. context;
  ledger_again = λ n. none;
  directory_at = λ n path. ok tree;
}

abbrev world : MonitorWorld
world = record {
  ledger = one_line;
  baseline_files = λ id. none;
  state_file = none;
  lock = none;
  clock = 0;
  completed = 0;
  known = λ id. none;
}

unfoldable monitor_steps : Unit {0}
unfolding append_steps configuration_steps folder_steps ◌>>=◌ pure lift gets reads modify raise_if
    when monitor_health health_of health_verdict running_blockers load_baseline load_written
    check_baseline baseline_signing_bytes snapshot_json accept_valid is_valid_baseline all_digests
    write_baseline now append_event record_event on_store load_one load_all observe baseline_payload
    comparison_json report_observation store_baseline visit_folder visit_folders write_state
    one_round rounds loop watch guarded run_locked with_monitor_lock run_monitor
monitor_steps = tt

abbrev after : MonitorWorld
after = (run_monitor toy environment "/c" (some (written one_folder)) (bounded 1) world).1

count_run : after.completed ≡ 1
unfolding monitor_steps
count_run = refl

-- The ledger has three more entries: the start, the folder's first baseline, and the stop.
abbrev stopped : MonitorHealth
stopped = record {
  process_id = some 7;
  started_at = some 0;
  heartbeat_at = some 5;
  configured_folder_count = 1;
  completed_iterations = 1;
  state = "STOPPED_CLEANLY";
  blockers = [];
  verdict = pass_monitor_stopped_cleanly;
}

run_monitor_run :
    run_monitor toy environment "/c" (some (written one_folder)) (bounded 1) world
    ≡ (ok stopped, after)
unfolding monitor_steps
run_monitor_run = refl

length_run : length (lines_of after.ledger.file) ≡ 5
unfolding monitor_steps
length_run = refl

run_monitor-verified_example :
    (after.ledger.store ≡ store)
    × ((es : List LedgerEntry) × (verify_ledger toy after.ledger.file (directory store.trust)
          ≡ ok (passed toy (directory store.trust) es)))
run_monitor-verified_example =
    run_monitor-verified toy-IsSound environment "alice" "/c" (some (written one_folder))
      (bounded 1) world after stopped store-IsPublished run_monitor_run

run_monitor-stops_example : HasStopped toy environment 1 after
run_monitor-stops_example =
    run_monitor-stops toy environment 1 "/c" (some (written one_folder)) world after stopped
      run_monitor_run

run_monitor-unlocks_example : after.lock ≡ none
run_monitor-unlocks_example =
    run_monitor-unlocks toy environment (bounded 1) "/c" (some (written one_folder)) world refl

-- A folder that cannot be read.
abbrev unreadable : MonitorEnvironment
unreadable = record environment { directory_at = λ n path. fail Kind.permission path }

abbrev interrupted : MonitorWorld
interrupted = (run_locked toy unreadable (bounded 1) 0 (folder ∷ []) world).1

run_locked_run :
    (run_locked toy unreadable (bounded 1) 0 (folder ∷ []) world).0 ≡ fail Kind.permission "/w"
unfolding monitor_steps
run_locked_run = refl

run_locked-HasEnded_example : HasEnded toy unreadable interrupted
run_locked-HasEnded_example = run_locked-HasEnded toy unreadable (bounded 1) 0 (folder ∷ []) world

-- The folder's content has changed since the baseline.
abbrev changed : MonitorWorld
changed = record world { known = λ id. some snapshot }

abbrev visited : MonitorWorld
visited = (visit_folder toy environment folder changed).1

visit_folder_run : visit_folder toy environment folder changed ≡ (ok tt, visited)
unfolding monitor_steps
visit_folder_run = refl

visit_folder-reports_example :
    (current : FolderSnapshot) × (u : MonitorWorld) × (observe toy environment folder changed
      ≡ (ok current, u))
    × HasReported folder (some snapshot) current one_line visited.ledger
    × (visited.known folder.folder_id ≡ some current)
    × ((b : PersistedFolderBaseline) × (write_baseline toy folder current visited.ledger.store
          ≡ ok b)
        × (visited.baseline_files folder.folder_id ≡ some (written b)))
visit_folder-reports_example =
    visit_folder-reports toy environment folder changed visited tt visit_folder_run

drift_run : length (lines_of visited.ledger.file) ≡ 3
unfolding monitor_steps
drift_run = refl

abbrev baseline : PersistedFolderBaseline
baseline = record {
  folder_id = "bbbbbbbbbbbbbbbb";
  snapshot = snapshot;
  signing_key_id = "ed25519-aaaaaaaaaaaaaaaa";
  signature = "~alice{}";
}

write_baseline_run : write_baseline toy folder snapshot store ≡ ok baseline
unfolding monitor_steps
write_baseline_run = refl

unrevoked_run :
    key_revocation_state toy (public_key_payload toy "alice").key_id store.trust ≡ ok not_revoked
unfolding monitor_steps
unrevoked_run = refl

load_baseline-write_baseline_example :
    load_baseline toy
      (λ path. "/w")
      environment.read_baseline
      folder
      (some (written baseline))
      store
    ≡ (ok (some snapshot), store)
load_baseline-write_baseline_example =
    load_baseline-write_baseline toy-IsSound "alice" store store-IsPublished (λ path. "/w")
      environment.read_baseline folder snapshot baseline write_baseline_run refl unrevoked_run
