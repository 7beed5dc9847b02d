-- ===== src/Configuration/Initialising.antt =====
-- The configuration that `initialise_configuration` (src/kratos_guard/core/operations.py) returns is the
-- one that `load_configuration` reads from then on.
use kratos_agent_guard.Prelude.{String, ◌≡◌, true}
use kratos_agent_guard.Primitives.{Primitives}
use kratos_agent_guard.Configuration.Folders.{GuardConfiguration, PathContext, contains}
use kratos_agent_guard.Configuration.Initialise.{Join, default_configuration}

-- The documented behaviour of `Path.resolve` and `/`: a resolved path is absolute, and so is what lies
-- below an absolute path; a path contains what lies below it.
pub record IsJoin (x : PathContext) (join : Join) : Type 0 where
  pub is_absolute-resolve : (path : String) → x.is_absolute (x.resolve path) ≡ true
  pub is_absolute-join :
      (path name : String) → x.is_absolute path ≡ true → x.is_absolute (join path name) ≡ true
  pub contains-join : (path name : String) → contains x path (join path name) ≡ true

module _ {x : PathContext} {join : Join} (joins : IsJoin x join) where
  abbrev fresh : GuardConfiguration
  fresh = default_configuration join (x.resolve x.application_data_root)
