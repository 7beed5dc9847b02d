-- ===== src/Folder/Snapshot.antt =====
-- `snapshot_folder` of src/kratos_guard/core/standalone.py, on a tree of folders that does not change
-- while it is walked.
use Prim.Native.String.{◌++◌, compare}
use text.Mathlib.Text.{is_le}
use kratos_agent_guard.Prelude.{
  ℕ, ◌+◌, String, Bool, false, not, ◌&&◌, ◌||◌, List, [], ◌∷◌, ltb, leb, ◌==◌, length, add_last,
  if◌then◌else◌,
}
use kratos_agent_guard.Failure.{Kind, Result, ok, fail, ◌>>=◌}
use kratos_agent_guard.Json.{Items, arr, nil, cons, obj, field, end, str, int}
use kratos_agent_guard.Primitives.{Primitives}
use kratos_agent_guard.Signing.Trust.{canonical_bytes}
use kratos_agent_guard.Folder.Compare.{
  FolderFileIdentity, FolderSnapshot, Limitation, symlink_excluded, file_too_large,
}

-- A file of a folder: `st_size` and the bytes that `read_bytes` returns.
pub record DirectoryFile : Type 0 where
  pub name : String
  pub is_symlink : Bool
  pub byte_count : ℕ
  pub content : String

mutual
  pub data Directory : Type 0 where
    directory : List DirectoryFile → Subdirectories → Directory

  pub data Subdirectories : Type 0 where
    no_more : Subdirectories
    -- the name of a folder, whether it is a symbolic link, and what it holds
    subdirectory : String → Bool → Directory → Subdirectories → Subdirectories

unfoldable pub insert_file : DirectoryFile → List DirectoryFile → List DirectoryFile
insert_file f [] = f ∷ []
insert_file f (g ∷ gs) =
    let rest = insert_file f gs in if is_le (compare f.name g.name) then f ∷ g ∷ gs else g ∷ rest

-- `sorted(files)`
unfoldable pub sort_files : List DirectoryFile → List DirectoryFile
sort_files [] = []
sort_files (f ∷ fs) = insert_file f (sort_files fs)

unfoldable pub insert_subdirectory : String → Bool → Directory → Subdirectories → Subdirectories
insert_subdirectory n l d no_more = subdirectory n l d no_more
insert_subdirectory n l d (subdirectory m k e rest) =
    let placed = insert_subdirectory n l d rest in
    if is_le (compare n m)
    then subdirectory n l d (subdirectory m k e rest)
    else subdirectory m k e placed

-- `DEFAULT_EXCLUDED_DIRECTORIES`, sorted.
abbrev pub excluded_directories : List String
excluded_directories =
    ".git" ∷ ".mypy_cache" ∷ ".pytest_cache" ∷ ".ruff_cache" ∷ ".venv" ∷ ".work" ∷ "__pycache__"
    ∷ "build" ∷ "dist" ∷ "evidence" ∷ "node_modules" ∷ []

unfoldable pub is_excluded : String → List String → Bool
is_excluded name [] = false
is_excluded name (n ∷ ns) = name == n || is_excluded name ns

-- The folders that are walked, sorted, at every depth.
unfoldable mutual
  unfolding is_excluded insert_subdirectory

  pub sort_directory : Directory → Directory
  sort_directory (directory files subs) = directory files (sort_subdirectories subs)

  pub sort_subdirectories : Subdirectories → Subdirectories
  sort_subdirectories no_more = no_more
  sort_subdirectories (subdirectory name link d rest) =
      let sorted = sort_subdirectories rest in
      let inner = sort_directory d in
      if not (is_excluded name excluded_directories) && not link
      then insert_subdirectory name link inner sorted
      else sorted

pub record SnapshotLimits : Type 0 where
  pub max_files : ℕ
  pub max_file_bytes : ℕ
  pub max_total_bytes : ℕ

-- The default arguments.
abbrev pub default_limits : SnapshotLimits
default_limits = record {
  max_files = 5000;
  max_file_bytes = 10_000_000;
  max_total_bytes = 500_000_000;
}

-- The variables of the loop. The lists are in the order of `append`.
pub record Walk : Type 0 where
  pub identities : List FolderFileIdentity
  pub total_bytes : ℕ
  pub limitations : List Limitation

abbrev pub no_walk : Walk
no_walk = record { identities = []; total_bytes = 0; limitations = [] }

-- `candidate.relative_to(root).as_posix()`: `prefix` is the folder's own path and a slash, or empty
abbrev pub relative_path : String → String → String
relative_path prefix name = prefix ++ name

module _ (p : Primitives) (l : SnapshotLimits) where
  abbrev pub identity_of : String → DirectoryFile → FolderFileIdentity
  identity_of prefix f = record {
    relative_path = relative_path prefix f.name;
    sha256 = p.sha256 f.content;
    byte_count = f.byte_count;
  }

  -- The body of the loop over the files of one folder.
  unfoldable pub visit_file : String → DirectoryFile → Walk → Result Walk
  visit_file prefix f w =
      if f.is_symlink
      then ok (record w {
        limitations = add_last w.limitations (symlink_excluded (relative_path prefix f.name));
      })
      else if ltb l.max_file_bytes f.byte_count
      then ok (record w {
        limitations =
            add_last w.limitations (file_too_large (relative_path prefix f.name) f.byte_count);
      })
      else if leb l.max_files (length w.identities)
      then fail Kind.value "MAX_FILE_COUNT_EXCEEDED"
      else if ltb l.max_total_bytes (w.total_bytes + f.byte_count)
      then fail Kind.value "MAX_TOTAL_BYTES_EXCEEDED"
      else ok (record w {
        identities = add_last w.identities (identity_of prefix f);
        total_bytes = w.total_bytes + f.byte_count;
      })

  unfoldable pub visit_files : String → List DirectoryFile → Walk → Result Walk
  visit_files prefix [] w = ok w
  visit_files prefix (f ∷ fs) w = do w' ← visit_file prefix f w; visit_files prefix fs w'

  -- `os.walk`, top down: the files of a folder, and then its folders in turn.
  unfoldable mutual
    unfolding visit_files sort_files

    pub walk : String → Directory → Walk → Result Walk
    walk prefix (directory files subs) w = do
      w' ← visit_files prefix (sort_files files) w
      walk_all prefix subs w'

    pub walk_all : String → Subdirectories → Walk → Result Walk
    walk_all prefix no_more w = ok w
    walk_all prefix (subdirectory name link d rest) w = do
      w' ← walk (prefix ++ name ++ "/") d w
      walk_all prefix rest w'

  abbrev manifest_items : List FolderFileIdentity → Items
  manifest_items [] = nil
  manifest_items (f ∷ fs) =
      cons
        (obj (
          field "relative_path" (str f.relative_path)
            (field "sha256" (str f.sha256) (field "byte_count" (int f.byte_count) end))))
        (manifest_items fs)

  unfoldable pub manifest_hash : List FolderFileIdentity → String
  unfolding canonical_bytes
  manifest_hash fs = p.sha256 (canonical_bytes p (arr (manifest_items fs)))

  unfoldable pub make_snapshot : String → ℕ → Walk → FolderSnapshot
  make_snapshot root now w = record {
    root = root;
    observed_at = now;
    file_count = length w.identities;
    total_bytes = w.total_bytes;
    manifest_sha256 = manifest_hash w.identities;
    files = w.identities;
    excluded_directories = excluded_directories;
    limitations = w.limitations;
  }

  -- `snapshot_folder(root, ..., now=now)`, for a root that is a folder
  unfoldable pub snapshot_folder : String → Directory → ℕ → Result FolderSnapshot
  snapshot_folder root d now = do
    w ← walk "" (sort_directory d) no_walk
    ok (make_snapshot root now w)
