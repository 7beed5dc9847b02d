-- ===== src/Tests/Folder.antt =====
-- Runs of folder snapshots (src/kratos_guard/core/standalone.py).

use kratos_agent_guard.Prelude.{String, ◌≡◌, ◌↔◌, refl, true, false, ◌&&◌, List, [], ◌∷◌, length}
use kratos_agent_guard.Failure.{ok}
use kratos_agent_guard.Signing.Store.{is_some}
use kratos_agent_guard.Folder.Compare.{
  FolderFileIdentity, FolderSnapshot, compare_folder_snapshots, find_hash, is_none, differ,
  drift_verdict, added_paths, removed_paths, changed_paths, sorted_paths, insert_path,
  pass_no_folder_drift, drift_detected, symlink_excluded,
}
use kratos_agent_guard.Folder.Drift.{
  is_member, compare_folder_snapshots_lists, compare_folder_snapshots-pass_iff,
}
use kratos_agent_guard.Folder.Snapshot.{
  Directory, directory, no_more, subdirectory, default_limits, excluded_directories,
  snapshot_folder, walk, visit_file, visit_files, sort_files, insert_file, insert_subdirectory,
  sort_directory, is_excluded, make_snapshot, manifest_hash,
}
use kratos_agent_guard.Folder.Limits.{snapshot_folder_bounds, Bounded}
use kratos_agent_guard.Tests.Toy.{toy, digest_a, digest_b}

unfoldable pub folder_steps : Unit {0}
unfolding snapshot_folder walk visit_file visit_files sort_files insert_file insert_subdirectory
    sort_directory is_excluded make_snapshot manifest_hash compare_folder_snapshots find_hash
    drift_verdict added_paths removed_paths changed_paths sorted_paths insert_path
folder_steps = tt

-- Two files, a symbolic link, and a folder that is excluded.
abbrev tree : Directory
tree =
    directory
      (record { name = "b"; is_symlink = false; byte_count = 2; content = "xy" }
        ∷ record { name = "a"; is_symlink = false; byte_count = 5; content = "alice" }
        ∷ record { name = "l"; is_symlink = true; byte_count = 1; content = "z" }
        ∷ [])
      (subdirectory ".git" false
        (directory (record { name = "h"; is_symlink = false; byte_count = 1; content = "z" } ∷ [])
          no_more)
        (subdirectory "s" false
          (directory (record { name = "c"; is_symlink = false; byte_count = 1; content = "z" } ∷ [])
            no_more)
          no_more))

abbrev files : List FolderFileIdentity
files =
    record { relative_path = "a"; sha256 = digest_a; byte_count = 5 }
    ∷ record { relative_path = "b"; sha256 = digest_b; byte_count = 2 }
    ∷ record { relative_path = "s/c"; sha256 = digest_b; byte_count = 1 }
    ∷ []

abbrev pub snapshot : FolderSnapshot
snapshot = record {
  root = "r";
  observed_at = 7;
  file_count = 3;
  total_bytes = 8;
  manifest_sha256 = digest_b;
  files = files;
  excluded_directories = excluded_directories;
  limitations = symlink_excluded "l" ∷ [];
}

snapshot_run : snapshot_folder toy default_limits "r" tree 7 ≡ ok snapshot
unfolding folder_steps
snapshot_run = refl

snapshot_folder_bounds_example :
    (snapshot.file_count ≡ length snapshot.files)
    × (snapshot.manifest_sha256 ≡ manifest_hash toy default_limits snapshot.files)
    × Bounded default_limits snapshot.files snapshot.total_bytes
snapshot_folder_bounds_example =
    snapshot_folder_bounds toy default_limits "r" tree 7 snapshot snapshot_run

-- The file `a` is gone, `b` has changed, `d` is new.
abbrev later_files : List FolderFileIdentity
later_files =
    record { relative_path = "b"; sha256 = digest_a; byte_count = 2 }
    ∷ record { relative_path = "d"; sha256 = digest_a; byte_count = 2 }
    ∷ record { relative_path = "s/c"; sha256 = digest_b; byte_count = 1 }
    ∷ []

abbrev later : FolderSnapshot
later = record snapshot { files = later_files }

compare_run : compare_folder_snapshots snapshot later ≡ record {
  baseline_manifest_sha256 = digest_b;
  current_manifest_sha256 = digest_b;
  added = "d" ∷ [];
  removed = "a" ∷ [];
  changed = "b" ∷ [];
  verdict = drift_detected;
}
unfolding folder_steps
compare_run = refl

compare_folder_snapshots_lists_example :
    (is_member "d" (compare_folder_snapshots snapshot later).added
      ≡ (is_some (find_hash "d" later_files) && is_none (find_hash "d" files)))
    × (is_member "d" (compare_folder_snapshots snapshot later).removed
        ≡ (is_some (find_hash "d" files) && is_none (find_hash "d" later_files)))
    × (is_member "d" (compare_folder_snapshots snapshot later).changed ≡ (
        is_some (find_hash "d" files) && differ (find_hash "d" files) (find_hash "d" later_files)))
compare_folder_snapshots_lists_example = compare_folder_snapshots_lists snapshot later "d"

compare_folder_snapshots-pass_iff_example :
    ((compare_folder_snapshots snapshot later).verdict ≡ pass_no_folder_drift)
    ↔ ((path : String) → find_hash path files ≡ find_hash path later_files)
compare_folder_snapshots-pass_iff_example = compare_folder_snapshots-pass_iff snapshot later
