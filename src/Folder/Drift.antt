-- ===== src/Folder/Drift.antt =====
-- What `compare_folder_snapshots` reports: exactly the paths on which the two snapshots, read as maps
-- from paths to digests, differ.

use kratos_agent_guard.Prelude.{
  String, ◌≡◌, ◌⊎◌, ◌↔◌, refl, sym, ap, ◌∙◌, inl, inr, Bool, true, false, ◌&&◌, ◌||◌, Option, none,
  some, List, [], ◌∷◌, ◌==◌, arith, eq_iff, eq_refl, String-cases,
}
use kratos_agent_guard.Signing.Store.{is_some}
use kratos_agent_guard.Folder.Compare.{
  FolderFileIdentity, FolderSnapshot, find_hash, insert_path, sorted_paths, is_none, differ,
  added_paths, removed_paths, changed_paths, drift_verdict, compare_folder_snapshots,
  pass_no_folder_drift,
}

abbrev pub is_member : String → List String → Bool
is_member path [] = false
is_member path (q ∷ qs) = q == path || is_member path qs

is_member-insert_path :
    (path new : String) (qs : List String)
    → is_member path (insert_path new qs) ≡ (new == path || is_member path qs)
unfolding insert_path
is_member-insert_path path new [] = refl
is_member-insert_path path new (q ∷ qs) =
    ground (arith, is_member-insert_path path new qs, eq_iff new q)

is_member-sorted_paths :
    (test : String → Bool) (path : String) (fs : List FolderFileIdentity)
    → is_member path (sorted_paths test fs) ≡ (is_some (find_hash path fs) && test path)
unfolding sorted_paths find_hash
is_member-sorted_paths test path [] = refl
is_member-sorted_paths test path (f ∷ fs) =
    let rest = is_member-sorted_paths test path fs in
    let placed = is_member-insert_path path f.relative_path (sorted_paths test fs) in
    elim (String-cases f.relative_path path) [
      | inl same ↦ rw same (ground (arith, rw same at placed, rest, eq_refl path))
      | inr other ↦ ground (arith, placed, rest, other)
    ]

empty-or-member : (qs : List String) → (qs ≡ []) ⊎ ((path : String) × (is_member path qs ≡ true))
empty-or-member [] = inl refl
empty-or-member (q ∷ qs) = inr (q, rw (eq_refl q) refl)

-- A sorted list of paths is empty when no path of the dict passes the test.
sorted_paths-nil :
    (test : String → Bool) (fs : List FolderFileIdentity)
    → ((path : String) → (is_some (find_hash path fs) && test path) ≡ false)
    → sorted_paths test fs ≡ []
sorted_paths-nil test fs none_pass = elim (empty-or-member (sorted_paths test fs)) [
  | inl empty ↦ empty
  | inr (path, there) ↦ cc (sym there ∙ is_member-sorted_paths test path fs, none_pass path)
]

nil-sorted_paths :
    (test : String → Bool) (fs : List FolderFileIdentity)
    → sorted_paths test fs ≡ []
    → (path : String) → (is_some (find_hash path fs) && test path) ≡ false
nil-sorted_paths test fs empty path =
    sym (is_member-sorted_paths test path fs) ∙ ap (is_member path) empty

-- The three lists name exactly the paths that only the current snapshot has, that only the baseline
-- has, and that both have with different digests.
pub compare_folder_snapshots_lists :
    (baseline current : FolderSnapshot) (path : String)
    → (is_member path (compare_folder_snapshots baseline current).added
        ≡ (is_some (find_hash path current.files) && is_none (find_hash path baseline.files)))
      × (is_member path (compare_folder_snapshots baseline current).removed
          ≡ (is_some (find_hash path baseline.files) && is_none (find_hash path current.files)))
      × (is_member path (compare_folder_snapshots baseline current).changed ≡ (
          is_some (find_hash path baseline.files)
          && differ (find_hash path baseline.files) (find_hash path current.files)))
unfolding compare_folder_snapshots added_paths removed_paths changed_paths
compare_folder_snapshots_lists baseline current path = (
  is_member-sorted_paths _ path current.files,
  is_member-sorted_paths _ path baseline.files,
  is_member-sorted_paths _ path baseline.files,
)

drift_verdict-pass :
    (a r c : List String)
    → drift_verdict a r c ≡ pass_no_folder_drift
    → (a ≡ []) × (r ≡ []) × (c ≡ [])
unfolding drift_verdict
drift_verdict-pass a r c h = ground arith

no_difference :
    (o q : Option String)
    → (is_some q && is_none o) ≡ false
    → (is_some o && is_none q) ≡ false
    → (is_some o && differ o q) ≡ false
    → o ≡ q
no_difference none none x y z = refl
no_difference none (some k) x y z = cc x
no_difference (some h) none x y z = cc y
no_difference (some h) (some k) x y z = elim (String-cases h k) [
  | inl same ↦ ap some same
  | inr other ↦ cc (rw other at z)
]

same-difference :
    (o q : Option String)
    → o ≡ q
    → ((is_some q && is_none o) ≡ false)
      × ((is_some o && is_none q) ≡ false)
      × ((is_some o && differ o q) ≡ false)
same-difference none q same = rw (sym same) (refl, refl, refl)
same-difference (some h) q same = rw (sym same) (refl, refl, rw (eq_refl h) refl)

-- The comparison passes exactly when the two snapshots give every path the same digest, or none.
pub compare_folder_snapshots-pass_iff :
    (baseline current : FolderSnapshot)
    → ((compare_folder_snapshots baseline current).verdict ≡ pass_no_folder_drift)
      ↔ ((path : String) → find_hash path baseline.files ≡ find_hash path current.files)
unfolding compare_folder_snapshots added_paths removed_paths changed_paths drift_verdict
compare_folder_snapshots-pass_iff baseline current = (
  λ pass path.
      let (no_added, no_removed, no_changed) = drift_verdict-pass _ _ _ pass in
      let x = nil-sorted_paths _ current.files no_added path in
      let y = nil-sorted_paths _ baseline.files no_removed path in
      let z = nil-sorted_paths _ baseline.files no_changed path in
      no_difference (find_hash path baseline.files) (find_hash path current.files) x y z,
  λ same.
      let differences = λ (path : String).
        same-difference (find_hash path baseline.files) (find_hash path current.files)
          (same path) in
      rw
        (
          sorted_paths-nil _ current.files (λ path. (differences path).0),
          sorted_paths-nil _ baseline.files (λ path. (differences path).1),
          sorted_paths-nil _ baseline.files (λ path. (differences path).2),
        )
        refl,
)
