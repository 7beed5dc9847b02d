-- ===== src/Configuration/Initialise.antt =====
-- `initialise_configuration` and `write_service_template` of src/kratos_guard/core/operations.py.
use Prim.Native.Char.{code}
use kratos_agent_guard.Prelude.{
  String, Bool, false, ◌&&◌, Option, none, some, [], eqb, ◌==◌, if◌then◌else◌,
}
use kratos_agent_guard.Failure.{Kind, Result, ok, err, fail}
use kratos_agent_guard.Primitives.{Primitives, Stored, written}
use kratos_agent_guard.Stateful.{Stateful, ◌>>=◌, ◌>>◌, pure, lift, reads, modify}
use kratos_agent_guard.Signing.Store.{KeyStore, is_some, restrict_key_directory}
use kratos_agent_guard.Signing.Lifecycle.{export_trust_bundle}
use kratos_agent_guard.Ledger.Lock.{LockContext, LockFile, LockPayload, acquire_lock, release_lock}
use kratos_agent_guard.Configuration.Folders.{
  GuardConfiguration, PathContext, ConfigurationFile, is_valid_configuration, load_configuration,
}

-- The configuration file, its lock file and the key store.
pub record SetupWorld : Type 0 where
  pub store : KeyStore
  pub file : ConfigurationFile
  pub lock : LockFile

-- `root / "evidence"` and the paths below it.
abbrev pub Join : Type 0
Join = String → String → String

unfoldable pub default_configuration : Join → String → GuardConfiguration
default_configuration join root = record {
  evidence_root = join root "evidence";
  ledger_path = join (join root "evidence") "ledger.jsonl";
  trust_directory = join root "trust-export";
  interval_milliseconds = 5000;
  stale_after_seconds = 300;
  folders = [];
}

abbrev pub on_store {ℓ} : {A : Type ℓ} → Stateful KeyStore A → Stateful SetupWorld A
on_store m w = let x = m w.store in (x.0, record w { store = x.1 })

-- The constructor of `GuardConfiguration`.
unfoldable pub accept_default : GuardConfiguration → Result GuardConfiguration
accept_default c = if is_valid_configuration c then ok c else fail Kind.value "GuardConfiguration"

module _ (p : Primitives) (x : PathContext) (join : Join) where
  -- The part after the test of the file.
  unfoldable pub create_configuration : Stateful SetupWorld GuardConfiguration
  create_configuration = do
    on_store restrict_key_directory
    c ← lift (accept_default (default_configuration join (x.resolve x.application_data_root)))
    on_store (export_trust_bundle p)
    modify (λ w. record w { file = some (written c) })
    pure c

  abbrev pub load_or_create : String → ConfigurationFile → Stateful SetupWorld GuardConfiguration
  load_or_create source none = create_configuration
  load_or_create source (some text) = lift (load_configuration x source (some text))

  module _ (c : LockContext) (again : LockFile) where
    abbrev pub release :
        Result GuardConfiguration × SetupWorld → Result GuardConfiguration × SetupWorld
    release (r, w) = (r, record w { lock = release_lock c w.lock })

    abbrev pub under_lock :
        Stateful SetupWorld GuardConfiguration
        → SetupWorld
        → Result (Stored LockPayload) × LockFile
        → Result GuardConfiguration × SetupWorld
    under_lock m w (err y, l) = (err y, record w { lock = l })
    under_lock m w (ok own, l) = release (m (record w { lock = l }))

    -- `initialise_configuration(path)`, on the resolved path
    unfoldable pub initialise_configuration : String → Stateful SetupWorld GuardConfiguration
    initialise_configuration source w =
        under_lock (λ v. load_or_create source v.file v) w (acquire_lock c 300 w.lock again)

-- The text goes on with a line feed.
abbrev starts_with_newline : String → Bool
starts_with_newline String.[] = false
starts_with_newline (String.◌∷◌ c s) = eqb (code c) 10

-- `content.replace("\r\n", "\n")`
unfoldable pub unix_newlines : String → String
unix_newlines String.[] = ""
unix_newlines (String.◌∷◌ c s) =
    let rest = unix_newlines s in
    if eqb (code c) 13 && starts_with_newline s then rest else String.◌∷◌ c rest

abbrev template_name : String → Option String
template_name kind =
    if kind == "systemd"
    then some "kratos-agent-guard.service"
    else if kind == "windows"
    then some "Register-KratosAgentGuardTask.ps1"
    else none

module _ (packaged source_template : String → Result String) where
  abbrev or_source : String → Result String → Result String
  or_source name (ok content) = ok content
  or_source name (err e) = elim e.kind [ Kind.file_not_found ↦ source_template name | _ ↦ err e ]

  -- `write_service_template(kind, destination)`, on the templates of the package and of the sources; the
  -- state is the file at the resolved destination.
  unfoldable pub write_service_template : String → Stateful (Option String) (Unit {0})
  write_service_template kind = do
    name ← lift (elim (template_name kind) [
      | none ↦ fail Kind.value "SERVICE_TEMPLATE_KIND_INVALID"
      | some name ↦ ok name
    ])
    content ← lift (or_source name (packaged name))
    reads (λ file. if is_some file then fail Kind.file_exists "File exists" else ok tt)
    modify (λ file. some (unix_newlines content))
