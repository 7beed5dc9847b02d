-- ===== src/Folder/Limits.antt =====
-- The bounds that `snapshot_folder` keeps.
use mathlib.Core.Path.{subst}
use Prim.Native.String.{◌++◌}
use kratos_agent_guard.Prelude.{
  ℕ, ◌+◌, ◌≤◌, String, ◌≡◌, refl, inl, inr, List, [], ◌∷◌, add_last, arith, length, length-append,
  All, ltb, leb, Bool-cases,
}
use kratos_agent_guard.Failure.{ok, Result-cases, ok-injective}
use kratos_agent_guard.Primitives.{Primitives}
use kratos_agent_guard.Folder.Compare.{FolderFileIdentity, FolderSnapshot}
use kratos_agent_guard.Folder.Snapshot.{
  Directory, directory, Subdirectories, no_more, subdirectory, DirectoryFile, SnapshotLimits, Walk,
  no_walk, visit_file, visit_files, walk, walk_all, sort_files, sort_directory, make_snapshot,
  snapshot_folder, identity_of, manifest_hash,
}

-- The bytes of the listed files.
abbrev pub sum_bytes : List FolderFileIdentity → ℕ
sum_bytes [] = 0
sum_bytes (f ∷ fs) = f.byte_count + sum_bytes fs

sum_bytes-append :
    (fs : List FolderFileIdentity) (f : FolderFileIdentity)
    → sum_bytes (add_last fs f) ≡ sum_bytes fs + f.byte_count
sum_bytes-append [] f = omega arith
sum_bytes-append (g ∷ gs) f = omega (arith, sum_bytes-append gs f)

abbrev pub IsSmall : SnapshotLimits → FolderFileIdentity → Type 0
IsSmall l f = f.byte_count ≤ l.max_file_bytes

All-append :
    (l : SnapshotLimits) (fs : List FolderFileIdentity) (f : FolderFileIdentity)
    → All (IsSmall l) fs
    → IsSmall l f
    → All (IsSmall l) (add_last fs f)
All-append l [] f a small = (small, tt)
All-append l (g ∷ gs) f a small = (a.0, All-append l gs f a.1 small)

-- Within the limits, and with a true count of bytes.
pub record Bounded (l : SnapshotLimits) (fs : List FolderFileIdentity) (total : ℕ) : Type 0 where
  pub count : length fs ≤ l.max_files
  pub bytes : total ≤ l.max_total_bytes
  pub counted : total ≡ sum_bytes fs
  pub small : All (IsSmall l) fs

module _ (p : Primitives) (l : SnapshotLimits) where
  abbrev Fits : Walk → Type 0
  Fits w = Bounded l w.identities w.total_bytes

  visit_file-Fits :
      (prefix : String) (f : DirectoryFile) (w w' : Walk)
      → visit_file p l prefix f w ≡ ok w'
      → Fits w
      → Fits w'
  unfolding visit_file
  visit_file-Fits prefix f w w' h fits = elim (Bool-cases f.is_symlink) [
    | inl link ↦ subst Fits (ok-injective (rw (link, visit_file) at h)) fits
    | inr file ↦ elim (Bool-cases (ltb l.max_file_bytes f.byte_count)) [
      | inl large ↦ subst Fits (ok-injective (rw (file, large, visit_file) at h)) fits
      | inr small ↦ elim (Bool-cases (leb l.max_files (length w.identities))) [
        | inl full ↦ cc (rw (file, small, full, visit_file) at h)
        | inr room ↦ elim (Bool-cases (ltb l.max_total_bytes (w.total_bytes + f.byte_count))) [
          | inl heavy ↦ cc (rw (file, small, room, heavy, visit_file) at h)
          | inr light ↦
              subst Fits (ok-injective (rw (file, small, room, light, visit_file) at h)) (record {
                count =
                    ground
                      (arith, length-append w.identities (identity_of p l prefix f ∷ []), room);
                bytes = ground (arith, light);
                counted =
                    omega (
                      arith,
                      sum_bytes-append w.identities (identity_of p l prefix f),
                      fits.counted,
                    );
                small =
                    All-append l w.identities (identity_of p l prefix f) fits.small
                      (ground (arith, small));
              })
        ]
      ]
    ]
  ]

  visit_files-Fits :
      (prefix : String) (fs : List DirectoryFile) (w w' : Walk)
      → visit_files p l prefix fs w ≡ ok w'
      → Fits w
      → Fits w'
  unfolding visit_files
  visit_files-Fits prefix [] w w' h fits = subst Fits (ok-injective h) fits
  visit_files-Fits prefix (f ∷ fs) w w' h fits = elim (Result-cases (visit_file p l prefix f w)) [
    | inr (x, failed) ↦ cc (rw failed at h)
    | inl (w1, visited) ↦
        visit_files-Fits prefix fs w1 w' (rw visited at h)
          (visit_file-Fits prefix f w w1 visited fits)
  ]

  mutual
    unfolding walk walk_all

    walk-Fits :
        (prefix : String) (d : Directory) (w w' : Walk)
        → walk p l prefix d w ≡ ok w'
        → Fits w
        → Fits w'
    walk-Fits prefix (directory files subs) w w' h fits =
        elim (Result-cases (visit_files p l prefix (sort_files files) w)) [
          | inr (x, failed) ↦ cc (rw failed at h)
          | inl (w1, visited) ↦
              walk_all-Fits prefix subs w1 w' (rw visited at h)
                (visit_files-Fits prefix (sort_files files) w w1 visited fits)
        ]

    walk_all-Fits :
        (prefix : String) (ds : Subdirectories) (w w' : Walk)
        → walk_all p l prefix ds w ≡ ok w'
        → Fits w
        → Fits w'
    walk_all-Fits prefix no_more w w' h fits = subst Fits (ok-injective h) fits
    walk_all-Fits prefix (subdirectory name link d rest) w w' h fits =
        elim (Result-cases (walk p l (prefix ++ name ++ "/") d w)) [
          | inr (x, failed) ↦ cc (rw failed at h)
          | inl (w1, walked) ↦
              walk_all-Fits prefix rest w1 w' (rw walked at h)
                (walk-Fits (prefix ++ name ++ "/") d w w1 walked fits)
        ]

  -- A snapshot keeps within the three limits, its counts are those of the files that it lists, and
  -- its manifest digest is that of the list.
  pub snapshot_folder_bounds :
      (root : String) (d : Directory) (now : ℕ) (s : FolderSnapshot)
      → snapshot_folder p l root d now ≡ ok s
      → (s.file_count ≡ length s.files)
        × (s.manifest_sha256 ≡ manifest_hash p l s.files)
        × Bounded l s.files s.total_bytes
  unfolding snapshot_folder make_snapshot
  snapshot_folder_bounds root d now s h =
      elim (Result-cases (walk p l "" (sort_directory d) no_walk)) [
        | inr (x, failed) ↦ cc (rw failed at h)
        | inl (w, walked) ↦
            let fits =
              walk-Fits "" (sort_directory d) no_walk w walked
                (record { count = omega arith; bytes = omega arith; counted = refl; small = tt }) in
            let same : make_snapshot p l root now w ≡ s = ok-injective (rw walked at h) in
            subst
              (λ (x : FolderSnapshot).
                (x.file_count ≡ length x.files)
                × (x.manifest_sha256 ≡ manifest_hash p l x.files)
                × Bounded l x.files x.total_bytes)
              same (refl, refl, fits)
      ]
