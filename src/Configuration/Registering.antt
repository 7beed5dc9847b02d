-- ===== src/Configuration/Registering.antt =====
-- `register_folder` (src/kratos_guard/core/operations.py) leaves a configuration that loads.
use mathlib.Core.Path.{subst}
use kratos_agent_guard.Prelude.{
  String, ◌≡◌, refl, ap, inl, inr, true, false, ◌==◌, some, List, [], ◌∷◌, add_last, All, arith,
}
use kratos_agent_guard.Failure.{Result, ok, Result-cases, ok-injective}
use kratos_agent_guard.Text.{strip}
use kratos_agent_guard.Primitives.{Primitives, written}
use kratos_agent_guard.Configuration.Folders.{
  MonitoredFolder, GuardConfiguration, PathContext, is_valid_folder, all_valid,
  require_safe_monitored_path, clashes, load_configuration, ConfigurationFile, Registration,
  new_folder, check_registration, register_folder, any_path, any_label,
}
use kratos_agent_guard.Configuration.WellFormed.{
  IsSafe, Distinct, load_configuration_sound, load_configuration_complete,
}
use kratos_agent_guard.Configuration.Removing.{
  ReadsValid, with_folders, parse_configuration-valid, valid-parts, parse-with_folders,
  IsSafe-with_folders, check_roots-with_folders,
}

All-add_last {ℓ} :
    {A : Type ℓ} (P : A → Type 0) (xs : List A) (y : A) → All P xs → P y → All P (add_last xs y)
All-add_last P [] y a h = (h, tt)
All-add_last P (z ∷ zs) y a h = (a.0, All-add_last P zs y a.1 h)

all_valid-add_last :
    (fs : List MonitoredFolder) (f : MonitoredFolder)
    → all_valid fs ≡ true
    → is_valid_folder f ≡ true
    → all_valid (add_last fs f) ≡ true
unfolding all_valid
all_valid-add_last [] f v h = rw h refl
all_valid-add_last (g ∷ gs) f v h = ground (arith, all_valid-add_last gs f (ground (arith, v)) h, v)

-- POSIX paths: case counts, and a resolved path resolves to itself.
pub record IsPosix (x : PathContext) : Type 0 where
  pub normcase-self : (s : String) → x.normcase s ≡ s
  pub resolve-resolve : (s : String) → x.resolve (x.resolve s) ≡ x.resolve s

module _ (p : Primitives) (x : PathContext) where
  Distinct-add_last :
      (fs : List MonitoredFolder) (f : MonitoredFolder)
      → Distinct x fs
      → All (λ g. clashes x g f ≡ false) fs
      → Distinct x (add_last fs f)
  Distinct-add_last [] f d a = (tt, tt)
  Distinct-add_last (g ∷ gs) f d a =
      (All-add_last (λ h. clashes x g h ≡ false) gs f d.0 a.0, Distinct-add_last gs f d.1 a.1)

  new_folder-apart :
      (posix : IsPosix x) (r : Registration) (fs : List MonitoredFolder)
      → any_path x (x.resolve r.folder) fs ≡ false
      → any_label x (strip r.label) fs ≡ false
      → All (λ g. (g.folder_id == (new_folder p x r).folder_id) ≡ false) fs
      → All (λ g. clashes x g (new_folder p x r) ≡ false) fs
  unfolding any_path any_label clashes new_folder
  new_folder-apart posix r [] a b c = tt
  new_folder-apart posix r (g ∷ gs) a b c = (
    rw
        (
          posix.normcase-self (x.resolve g.path),
          posix.normcase-self (x.resolve (x.resolve r.folder)),
          posix.resolve-resolve r.folder,
        )
        (ground (arith, a, b, c.0)),
    new_folder-apart posix r gs (ground (arith, a)) (ground (arith, b)) c.1,
  )

  check_registration-ok :
      (source : String) (r : Registration) (c : GuardConfiguration)
      → check_registration p x source r c ≡ ok tt
      → (require_safe_monitored_path x c source (x.resolve r.folder) ≡ ok tt)
        × (any_path x (x.resolve r.folder) c.folders ≡ false)
        × (any_label x (strip r.label) c.folders ≡ false)
        × (is_valid_folder (new_folder p x r) ≡ true)
  unfolding check_registration
  check_registration-ok source r c h = ground arith

  new_folder-IsSafe :
      (source : String) (r : Registration) (c : GuardConfiguration)
      → require_safe_monitored_path x c source (x.resolve r.folder) ≡ ok tt
      → IsSafe x c source (new_folder p x r)
  unfolding new_folder
  new_folder-IsSafe source r c h = h

  -- After `register_folder` returns on POSIX paths, the file loads as the configuration that it held
  -- with the new folder at the end, if no folder there has the new folder's identifier.
  pub register_folder-loads :
      (source : String) (r : Registration) (file file' : ConfigurationFile) (f : MonitoredFolder)
      → ReadsValid x
      → IsPosix x
      → register_folder p x source r file ≡ (ok f, file')
      → ((c : GuardConfiguration)
          → load_configuration x source file ≡ ok c
          → All (λ g. (g.folder_id == (new_folder p x r).folder_id) ≡ false) c.folders)
      → (c : GuardConfiguration) × (load_configuration x source file ≡ ok c)
        × (load_configuration x source file' ≡ ok (with_folders c (add_last c.folders f)))
  unfolding register_folder
  register_folder-loads source r file file' f reads posix h fresh =
      elim (Result-cases (load_configuration x source file)) [
        | inr (e, failed) ↦ cc (rw (failed, register_folder) at h)
        | inl (c, loaded) ↦ elim (Result-cases (check_registration p x source r c)) [
          | inr (e, failed) ↦ cc (rw (loaded, failed, register_folder) at h)
          | inl (tt, checked) ↦
              let h1 = rw (loaded, checked, register_folder) at h in
              let same : new_folder p x r ≡ f =
                ok-injective (ap (λ (y : Result MonitoredFolder × ConfigurationFile). y.0) h1) in
              let (parsed, w) = load_configuration_sound x source file c loaded in
              let (root, valid) = valid-parts c (parse_configuration-valid x file c reads parsed) in
              let (safe, no_path, no_label, valid_new) = check_registration-ok source r c checked in
              let new = new_folder p x r in
              let longer = add_last c.folders new in
              (
                c,
                loaded,
                subst
                    (λ (y : MonitoredFolder).
                      load_configuration x source file'
                      ≡ ok (with_folders c (add_last c.folders y)))
                    same
                    (subst
                      (λ (y : ConfigurationFile).
                        load_configuration x source y ≡ ok (with_folders c longer))
                      (ap (λ (y : Result MonitoredFolder × ConfigurationFile). y.1) h1)
                      (load_configuration_complete x source (some (written (with_folders c longer)))
                        (with_folders c longer)
                        (parse-with_folders x c longer root
                          (all_valid-add_last c.folders new valid valid_new))
                        (record {
                          roots = check_roots-with_folders x source c longer w.roots;
                          safe = IsSafe-with_folders x source c longer longer (
                              All-add_last (IsSafe x c source) c.folders new w.safe
                                (new_folder-IsSafe source r c safe));
                          distinct = Distinct-add_last c.folders new w.distinct (
                              new_folder-apart posix r c.folders no_path no_label (fresh c loaded));
                        }))),
              )
        ]
      ]
