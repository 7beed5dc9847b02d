-- ===== src/Configuration/Removing.antt =====
-- `remove_folder` (src/kratos_guard/core/operations.py) leaves a configuration that loads.
use kratos_agent_guard.Prelude.{
  String, ◌≡◌, refl, sym, ap, ◌∙◌, inl, inr, true, none, some, List, [], ◌∷◌, All, arith,
  Bool-cases,
}
use kratos_agent_guard.Failure.{ok, ok-injective}
use kratos_agent_guard.Primitives.{written, foreign}
use kratos_agent_guard.Configuration.Folders.{
  MonitoredFolder, GuardConfiguration, PathContext, is_valid_configuration, is_valid_root,
  all_valid, require_safe_monitored_path, owned_paths, check_roots, parse_configuration,
  ConfigurationFile,
}
use kratos_agent_guard.Configuration.WellFormed.{IsSafe}

-- pydantic returns no configuration whose fields break their constraints.
abbrev pub ReadsValid : PathContext → Type 0
ReadsValid x =
    (s : String) (c : GuardConfiguration)
    → x.read_configuration s ≡ ok c
    → is_valid_configuration c ≡ true

abbrev pub with_folders : GuardConfiguration → List MonitoredFolder → GuardConfiguration
with_folders c fs = record c { folders = fs }

pub parse_configuration-valid :
    (x : PathContext) (file : ConfigurationFile) (c : GuardConfiguration)
    → ReadsValid x
    → parse_configuration x file ≡ ok c
    → is_valid_configuration c ≡ true
unfolding parse_configuration
parse_configuration-valid x none c reads h = cc h
parse_configuration-valid x (some (foreign s)) c reads h = reads s c h
parse_configuration-valid x (some (written c')) c reads h =
    elim (Bool-cases (is_valid_configuration c')) [
      | inr refused ↦ cc (rw refused at h)
      | inl valid ↦ ap is_valid_configuration (sym (ok-injective (rw valid at h))) ∙ valid
    ]

pub valid-parts :
    (c : GuardConfiguration)
    → is_valid_configuration c ≡ true
    → (is_valid_root c ≡ true) × (all_valid c.folders ≡ true)
unfolding is_valid_configuration
valid-parts c h = ground arith

pub parse-with_folders :
    (x : PathContext) (c : GuardConfiguration) (fs : List MonitoredFolder)
    → is_valid_root c ≡ true
    → all_valid fs ≡ true
    → parse_configuration x (some (written (with_folders c fs))) ≡ ok (with_folders c fs)
unfolding parse_configuration is_valid_configuration is_valid_root
parse-with_folders x c fs root valid = rw (root, valid) refl

module _ (x : PathContext) (source : String) (c : GuardConfiguration) where
  -- The paths of the Guard do not depend on the folders.
  pub IsSafe-with_folders :
      (gs fs : List MonitoredFolder)
      → All (IsSafe x c source) fs
      → All (IsSafe x (with_folders c gs) source) fs
  unfolding require_safe_monitored_path owned_paths
  IsSafe-with_folders gs [] a = tt
  IsSafe-with_folders gs (f ∷ fs) a = (a.0, IsSafe-with_folders gs fs a.1)

  pub check_roots-with_folders :
      (gs : List MonitoredFolder)
      → check_roots x c ≡ ok tt
      → check_roots x (with_folders c gs) ≡ ok tt
  unfolding check_roots
  check_roots-with_folders gs h = h
