-- ===== src/Folder/Compare.antt =====
-- `FolderSnapshot` of src/kratos_guard/models/standalone.py and `compare_folder_snapshots` of
-- src/kratos_guard/core/standalone.py.
use Prim.Native.String.{compare}
use Prim.Native.Nat.{Ordering}
use kratos_agent_guard.Prelude.{
  ℕ, String, Bool, true, false, not, ◌&&◌, Option, none, some, List, [], ◌∷◌, ◌==◌, is_empty,
  if◌then◌else◌,
}

pub record FolderFileIdentity : Type 0 where
  pub relative_path : String
  pub sha256 : String
  pub byte_count : ℕ

-- The texts of `limitations`: `SYMLINK_EXCLUDED:<path>` and `FILE_TOO_LARGE:<path>:<size>`.
pub data Limitation : Type 0 where
  symlink_excluded : String → Limitation
  file_too_large : String → ℕ → Limitation

pub record FolderSnapshot : Type 0 where
  pub root : String
  pub observed_at : ℕ
  pub file_count : ℕ
  pub total_bytes : ℕ
  pub manifest_sha256 : String
  pub files : List FolderFileIdentity
  pub excluded_directories : List String
  pub limitations : List Limitation

pub data FolderVerdict : Type 0 where
  pass_no_folder_drift drift_detected : FolderVerdict

pub record FolderComparison : Type 0 where
  pub baseline_manifest_sha256 : String
  pub current_manifest_sha256 : String
  pub added : List String
  pub removed : List String
  pub changed : List String
  pub verdict : FolderVerdict

abbrev later_or : Option String → Option String → Option String
later_or none first = first
later_or (some h) first = some h

-- `{item.relative_path: item.sha256 for item in files}`: the last item of a path counts.
unfoldable pub find_hash : String → List FolderFileIdentity → Option String
find_hash path [] = none
find_hash path (f ∷ fs) =
    later_or (find_hash path fs) (if f.relative_path == path then some f.sha256 else none)

-- A path put at its place among sorted ones, once.
unfoldable pub insert_path : String → List String → List String
insert_path path [] = path ∷ []
insert_path path (q ∷ qs) =
    let rest = insert_path path qs in
    elim (compare path q) [
      | Ordering.lt ↦ path ∷ q ∷ qs
      | Ordering.eq ↦ q ∷ qs
      | Ordering.gt ↦ q ∷ rest
    ]

-- `sorted` of the keys that pass a test.
unfoldable pub sorted_paths : (String → Bool) → List FolderFileIdentity → List String
sorted_paths test [] = []
sorted_paths test (f ∷ fs) =
    let rest = sorted_paths test fs in
    if test f.relative_path then insert_path f.relative_path rest else rest

abbrev pub is_none : Option String → Bool
is_none none = true
is_none (some h) = false

-- Both dicts have the path, with different digests.
abbrev pub differ : Option String → Option String → Bool
differ none other = false
differ (some h) none = false
differ (some h) (some k) = not (h == k)

unfoldable pub added_paths : FolderSnapshot → FolderSnapshot → List String
added_paths baseline current =
    sorted_paths (λ path. is_none (find_hash path baseline.files)) current.files

unfoldable pub removed_paths : FolderSnapshot → FolderSnapshot → List String
removed_paths baseline current =
    sorted_paths (λ path. is_none (find_hash path current.files)) baseline.files

unfoldable pub changed_paths : FolderSnapshot → FolderSnapshot → List String
changed_paths baseline current =
    sorted_paths (λ path. differ (find_hash path baseline.files) (find_hash path current.files))
      baseline.files

unfoldable pub drift_verdict : List String → List String → List String → FolderVerdict
drift_verdict added removed changed =
    if is_empty added && is_empty removed && is_empty changed
    then pass_no_folder_drift
    else drift_detected

-- `compare_folder_snapshots(baseline, current)`
unfoldable pub compare_folder_snapshots : FolderSnapshot → FolderSnapshot → FolderComparison
compare_folder_snapshots baseline current =
    let added = added_paths baseline current in
    let removed = removed_paths baseline current in
    let changed = changed_paths baseline current in
    record {
      baseline_manifest_sha256 = baseline.manifest_sha256;
      current_manifest_sha256 = current.manifest_sha256;
      added = added;
      removed = removed;
      changed = changed;
      verdict = drift_verdict added removed changed;
    }
