-- ===== src/Configuration/Folders.antt =====
-- `load_configuration`, `register_folder` and `remove_folder` of src/kratos_guard/core/operations.py, on
-- the configuration file. The file's lock is free: that is `_exclusive_lock` of the ledger.
use kratos_agent_guard.Prelude.{
  ℕ, String, Bool, true, false, not, ◌&&◌, ◌||◌, Option, none, some, List, [], ◌∷◌, leb, ◌==◌,
  add_last, if◌then◌else◌,
}
use kratos_agent_guard.Failure.{Kind, Result, ok, err, fail, ◌>>=◌, ◌>>◌, raise_if}
use kratos_agent_guard.Text.{strip, first_sixteen, has_length, is_folder_id}
use kratos_agent_guard.Primitives.{Primitives, Stored, written, foreign}

pub record MonitoredFolder : Type 0 where
  pub folder_id : String
  pub label : String
  pub path : String
  pub enabled : Bool
  pub max_files : ℕ
  pub max_file_bytes : ℕ
  pub max_total_bytes : ℕ

-- `interval_seconds` in milliseconds.
pub record GuardConfiguration : Type 0 where
  pub evidence_root : String
  pub ledger_path : String
  pub trust_directory : String
  pub interval_milliseconds : ℕ
  pub stale_after_seconds : ℕ
  pub folders : List MonitoredFolder

-- The constraints of the fields of `MonitoredFolder`.
unfoldable pub is_valid_folder : MonitoredFolder → Bool
is_valid_folder f =
    is_folder_id f.folder_id
    && has_length 1 100 f.label
    && not (f.path == "")
    && leb 1 f.max_files
    && leb f.max_files 100_000
    && leb 1 f.max_file_bytes
    && leb 1 f.max_total_bytes

unfoldable pub all_valid : List MonitoredFolder → Bool
all_valid [] = true
all_valid (f ∷ fs) = is_valid_folder f && all_valid fs

-- The constraints of the fields of `GuardConfiguration`, but for the folders.
unfoldable pub is_valid_root : GuardConfiguration → Bool
is_valid_root c =
    not (c.evidence_root == "")
    && not (c.ledger_path == "")
    && not (c.trust_directory == "")
    && leb 100 c.interval_milliseconds
    && leb c.interval_milliseconds 3_600_000
    && leb 30 c.stale_after_seconds
    && leb c.stale_after_seconds 86_400

unfoldable pub is_valid_configuration : GuardConfiguration → Bool
is_valid_configuration c = is_valid_root c && all_valid c.folders

-- What `pathlib`, `os.path` and `str.casefold` compute, and the reader of a configuration that the Guard
-- did not write.
pub record PathContext : Type 0 where
  pub is_absolute : String → Bool
  pub resolve : String → String
  pub normcase : String → String
  -- `os.path.normcase(str(path.expanduser().resolve(strict=False)))`
  pub normalised : String → String
  -- `os.path.commonpath` of two paths, or a `ValueError`
  pub commonpath : String → String → Option String
  pub casefold : String → String
  pub application_data_root : String
  pub read_configuration : String → Result GuardConfiguration

-- What the file system says of the folder that is registered.
pub record FolderFacts : Type 0 where
  pub exists : Bool
  pub is_dir : Bool
  pub is_symlink : Bool

module _ (x : PathContext) where
  -- `contains(root, candidate)` of core/path_security.py
  unfoldable pub contains : String → String → Bool
  contains root candidate = elim (x.commonpath (x.normalised root) (x.normalised candidate)) [
    | none ↦ false
    | some common ↦ common == x.normalised root
  ]

  -- `_configuration_owned_paths`
  unfoldable pub owned_paths : GuardConfiguration → String → List String
  owned_paths c configuration_path =
      x.resolve x.application_data_root
      ∷ x.resolve c.evidence_root
      ∷ x.resolve c.ledger_path
      ∷ x.resolve c.trust_directory
      ∷ x.resolve configuration_path
      ∷ []

  unfoldable pub overlaps_any : String → List String → Bool
  unfolding contains
  overlaps_any path [] = false
  overlaps_any path (owned ∷ rest) =
      contains path owned || contains owned path || overlaps_any path rest

  -- `_require_safe_monitored_path`
  unfoldable pub require_safe_monitored_path :
      GuardConfiguration → String → String → Result (Unit {0})
  require_safe_monitored_path c configuration_path monitored =
      if not (x.is_absolute monitored)
      then fail Kind.value "MONITORED_FOLDER_PATH_NOT_ABSOLUTE"
      else if overlaps_any (x.resolve monitored) (owned_paths c configuration_path)
      then fail Kind.value "MONITORED_FOLDER_OVERLAPS_GUARD_STATE"
      else ok tt

  -- Two folders share the normalised path, the label or the identifier.
  unfoldable pub clashes : MonitoredFolder → MonitoredFolder → Bool
  clashes f g =
      x.normcase (x.resolve f.path) == x.normcase (x.resolve g.path)
      || x.casefold f.label == x.casefold g.label
      || f.folder_id == g.folder_id

  unfoldable pub clashes_any : List MonitoredFolder → MonitoredFolder → Bool
  clashes_any [] g = false
  clashes_any (f ∷ fs) g = clashes f g || clashes_any fs g

  -- The loop over the folders: `seen` holds those before, whose keys the three sets hold.
  unfoldable pub check_folders :
      GuardConfiguration → String → List MonitoredFolder → List MonitoredFolder → Result (Unit {0})
  check_folders c source seen [] = ok tt
  check_folders c source seen (f ∷ fs) = do
    require_safe_monitored_path c source f.path
    raise_if (clashes_any seen f) Kind.value "MONITORED_FOLDER_CONFIGURATION_DUPLICATE"
    check_folders c source (f ∷ seen) fs

  unfoldable pub check_roots : GuardConfiguration → Result (Unit {0})
  check_roots c =
      if not (
        x.is_absolute c.evidence_root
        && x.is_absolute c.ledger_path
        && x.is_absolute c.trust_directory)
      then fail Kind.value "CONFIGURATION_PATH_NOT_ABSOLUTE"
      else if not (contains c.evidence_root c.ledger_path)
      then fail Kind.value "LEDGER_OUTSIDE_EVIDENCE_ROOT"
      else ok tt

  unfoldable pub parse_configuration :
      Option (Stored GuardConfiguration) → Result GuardConfiguration
  parse_configuration none = fail Kind.file_not_found "No such file or directory"
  parse_configuration (some (written c)) =
      if is_valid_configuration c then ok c else fail Kind.value "GuardConfiguration"
  parse_configuration (some (foreign s)) = x.read_configuration s

  -- The checks of `load_configuration` on what it has read from `source`.
  unfoldable pub check_configuration : String → GuardConfiguration → Result (Unit {0})
  check_configuration source c = do check_roots c; check_folders c source [] c.folders

  -- `load_configuration(path)`
  unfoldable pub load_configuration :
      String → Option (Stored GuardConfiguration) → Result GuardConfiguration
  load_configuration source file = do
    c ← parse_configuration file
    check_configuration source c
    ok c

  unfoldable pub any_path : String → List MonitoredFolder → Bool
  any_path resolved [] = false
  any_path resolved (f ∷ fs) = x.resolve f.path == resolved || any_path resolved fs

  unfoldable pub any_label : String → List MonitoredFolder → Bool
  any_label label [] = false
  any_label label (f ∷ fs) = x.casefold f.label == x.casefold label || any_label label fs

-- The arguments of `register_folder`.
pub record Registration : Type 0 where
  pub folder : String
  pub facts : FolderFacts
  pub label : String
  pub max_files : ℕ
  pub max_file_bytes : ℕ
  pub max_total_bytes : ℕ

abbrev pub ConfigurationFile : Type 0
ConfigurationFile = Option (Stored GuardConfiguration)

unfoldable pub without_folder : String → List MonitoredFolder → List MonitoredFolder
without_folder id [] = []
without_folder id (f ∷ fs) =
    let rest = without_folder id fs in if f.folder_id == id then rest else f ∷ rest

unfoldable pub first_match : String → List MonitoredFolder → Result MonitoredFolder
first_match id [] = fail Kind.key "MONITORED_FOLDER_NOT_FOUND"
first_match id (f ∷ fs) = let rest = first_match id fs in if f.folder_id == id then ok f else rest

module _ (p : Primitives) (x : PathContext) where
  unfoldable pub new_folder : Registration → MonitoredFolder
  unfolding first_sixteen strip
  new_folder r = record {
    folder_id = first_sixteen (p.sha256 (x.resolve r.folder));
    label = strip r.label;
    path = x.resolve r.folder;
    enabled = true;
    max_files = r.max_files;
    max_file_bytes = r.max_file_bytes;
    max_total_bytes = r.max_total_bytes;
  }

  -- The checks of `register_folder` on the configuration that was loaded.
  unfoldable pub check_registration : String → Registration → GuardConfiguration → Result (Unit {0})
  check_registration source r c = do
    raise_if (not r.facts.exists) Kind.file_not_found "No such file or directory"
    raise_if (not r.facts.is_dir || r.facts.is_symlink) Kind.value "MONITORED_FOLDER_INVALID"
    require_safe_monitored_path x c source (x.resolve r.folder)
    raise_if (any_path x (x.resolve r.folder) c.folders) Kind.value
        "MONITORED_FOLDER_ALREADY_REGISTERED"
    raise_if (any_label x (strip r.label) c.folders) Kind.value
        "MONITORED_FOLDER_LABEL_ALREADY_REGISTERED"
    raise_if (not (is_valid_folder (new_folder r))) Kind.value "MonitoredFolder"

  abbrev store_folder :
      ConfigurationFile
      → MonitoredFolder
      → Result GuardConfiguration
      → Result MonitoredFolder × ConfigurationFile
  store_folder file f (err e) = (err e, file)
  store_folder file f (ok c) = (ok f, some (written (record c { folders = add_last c.folders f })))

  -- `register_folder(configuration_path, folder, label, ...)`
  unfoldable pub register_folder :
      String → Registration → ConfigurationFile → Result MonitoredFolder × ConfigurationFile
  register_folder source r file =
      store_folder file (new_folder r)
        (do c ← load_configuration x source file; check_registration source r c; ok c)

module _ (x : PathContext) where
  abbrev store_rest :
      ConfigurationFile
      → String
      → Result (GuardConfiguration × MonitoredFolder)
      → Result MonitoredFolder × ConfigurationFile
  store_rest file id (err e) = (err e, file)
  store_rest file id (ok (c, f)) =
      (ok f, some (written (record c { folders = without_folder id c.folders })))

  -- `remove_folder(configuration_path, folder_id)`
  unfoldable pub remove_folder :
      String → String → ConfigurationFile → Result MonitoredFolder × ConfigurationFile
  remove_folder source id file =
      store_rest file id
        (do c ← load_configuration x source file; f ← first_match id c.folders; ok (c, f))
