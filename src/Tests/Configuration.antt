-- ===== src/Tests/Configuration.antt =====
-- Runs of the configuration's operations (src/kratos_guard/core/operations.py).
use mathlib.Core.Path.{subst}
use kratos_agent_guard.Prelude.{
  ◌≡◌, refl, true, false, ◌&&◌, ◌==◌, some, none, [], ◌∷◌, add_last, All, if◌then◌else◌,
}
use kratos_agent_guard.Failure.{Kind, ok, fail, ok-injective}
use kratos_agent_guard.Text.{strip, first_sixteen, has_length, is_folder_id}
use kratos_agent_guard.Primitives.{written}
use kratos_agent_guard.Configuration.Folders.{
  MonitoredFolder, GuardConfiguration, PathContext, is_valid_configuration, is_valid_root,
  is_valid_folder, all_valid, contains, require_safe_monitored_path, owned_paths, overlaps_any,
  clashes, clashes_any, check_folders, check_roots, check_configuration, parse_configuration,
  load_configuration, Registration, new_folder, check_registration, register_folder, without_folder,
  first_match, remove_folder, any_path, any_label,
}
use kratos_agent_guard.Configuration.WellFormed.{WellFormed}
use kratos_agent_guard.Configuration.Removing.{ReadsValid, with_folders}
use kratos_agent_guard.Configuration.Registering.{register_folder-loads, IsPosix}
use kratos_agent_guard.Tests.Toy.{toy}

-- Paths are resolved as they are written; the ledger lies under the evidence root.
abbrev pub context : PathContext
context = record {
  is_absolute = λ s. true;
  resolve = λ s. s;
  normcase = λ s. s;
  normalised = λ s. s;
  commonpath =
      λ a b. if a == "/e" && b == "/e/l" then some "/e" else if a == b then some a else none;
  casefold = λ s. s;
  application_data_root = "/a";
  read_configuration = λ s. fail Kind.value "GuardConfiguration";
}

context-ReadsValid : ReadsValid context
context-ReadsValid s c h = cc h

context-IsPosix : IsPosix context
context-IsPosix = record { normcase-self = λ s. refl; resolve-resolve = λ s. refl }

unfoldable pub configuration_steps : Unit {0}
unfolding is_valid_configuration is_valid_root is_valid_folder all_valid contains
    require_safe_monitored_path owned_paths overlaps_any clashes clashes_any check_folders
    check_roots check_configuration parse_configuration load_configuration new_folder
    check_registration register_folder without_folder first_match remove_folder any_path any_label
    strip first_sixteen has_length is_folder_id
configuration_steps = tt

abbrev empty : GuardConfiguration
empty = record {
  evidence_root = "/e";
  ledger_path = "/e/l";
  trust_directory = "/t";
  interval_milliseconds = 5000;
  stale_after_seconds = 300;
  folders = [];
}

abbrev registration : Registration
registration = record {
  folder = "/w";
  facts = record { exists = true; is_dir = true; is_symlink = false };
  label = " work ";
  max_files = 5000;
  max_file_bytes = 10_000_000;
  max_total_bytes = 500_000_000;
}

abbrev pub folder : MonitoredFolder
folder = record {
  folder_id = "bbbbbbbbbbbbbbbb";
  label = "work";
  path = "/w";
  enabled = true;
  max_files = 5000;
  max_file_bytes = 10_000_000;
  max_total_bytes = 500_000_000;
}

abbrev pub one_folder : GuardConfiguration
one_folder = with_folders empty (folder ∷ [])

register_run :
    register_folder toy context "/c" registration (some (written empty))
    ≡ (ok folder, some (written one_folder))
unfolding configuration_steps
register_run = refl

empty_fresh :
    (c : GuardConfiguration)
    → load_configuration context "/c" (some (written empty)) ≡ ok c
    → All (λ g. (g.folder_id == (new_folder toy context registration).folder_id) ≡ false) c.folders
unfolding configuration_steps
empty_fresh c h =
    subst
      (λ (y : GuardConfiguration).
        All (λ g. (g.folder_id == (new_folder toy context registration).folder_id) ≡ false)
          y.folders)
      (ok-injective h) tt

register_folder-loads_example :
    (c : GuardConfiguration) × (load_configuration context "/c" (some (written empty)) ≡ ok c)
    × (load_configuration context "/c" (some (written one_folder))
        ≡ ok (with_folders c (add_last c.folders folder)))
register_folder-loads_example =
    register_folder-loads toy context "/c" registration (some (written empty))
      (some (written one_folder)) folder context-ReadsValid context-IsPosix register_run empty_fresh

-- The same folder is refused the second time.
again_run :
    register_folder toy context "/c" registration (some (written one_folder))
    ≡ (fail Kind.value "MONITORED_FOLDER_ALREADY_REGISTERED", some (written one_folder))
unfolding configuration_steps
again_run = refl

pub load_run : load_configuration context "/c" (some (written one_folder)) ≡ ok one_folder
unfolding configuration_steps
load_run = refl
