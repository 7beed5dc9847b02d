-- ===== src/Configuration/WellFormed.antt =====
-- What a configuration that loads is, and that nothing more is asked of one
-- (`load_configuration` of src/kratos_guard/core/operations.py).
use mathlib.Core.Path.{subst}
use kratos_agent_guard.Prelude.{
  String, ◌≡◌, refl, ap, ◌∙◌, inl, inr, false, List, [], ◌∷◌, All, arith, Bool-cases,
}
use kratos_agent_guard.Failure.{ok, Result-cases, ok-injective}
use kratos_agent_guard.Configuration.Folders.{
  MonitoredFolder, GuardConfiguration, PathContext, require_safe_monitored_path, clashes,
  clashes_any, check_folders, check_roots, check_configuration, parse_configuration,
  load_configuration, ConfigurationFile,
}

module _ (x : PathContext) where
  abbrev pub IsSafe : GuardConfiguration → String → MonitoredFolder → Type 0
  IsSafe c source f = require_safe_monitored_path x c source f.path ≡ ok tt

  -- No folder shares its path, its label or its identifier with a later one.
  abbrev pub Distinct : List MonitoredFolder → Type 0
  Distinct [] = Unit
  Distinct (f ∷ fs) = All (λ g. clashes x f g ≡ false) fs × Distinct fs

  pub record WellFormed (source : String) (c : GuardConfiguration) : Type 0 where
    pub roots : check_roots x c ≡ ok tt
    pub safe : All (IsSafe c source) c.folders
    pub distinct : Distinct c.folders

  -- No folder of the list clashes with one that was seen.
  abbrev Apart : List MonitoredFolder → List MonitoredFolder → Type 0
  Apart seen fs = All (λ g. clashes_any x seen g ≡ false) fs

  Apart-cons :
      (f : MonitoredFolder) (seen fs : List MonitoredFolder)
      → Apart (f ∷ seen) fs
      → All (λ g. clashes x f g ≡ false) fs × Apart seen fs
  unfolding clashes_any
  Apart-cons f seen [] a = (tt, tt)
  Apart-cons f seen (g ∷ gs) a =
      let (xs, ys) = Apart-cons f seen gs a.1 in
      ((ground (arith, a.0), xs), (ground (arith, a.0), ys))

  cons-Apart :
      (f : MonitoredFolder) (seen fs : List MonitoredFolder)
      → All (λ g. clashes x f g ≡ false) fs
      → Apart seen fs
      → Apart (f ∷ seen) fs
  unfolding clashes_any
  cons-Apart f seen [] a b = tt
  cons-Apart f seen (g ∷ gs) a b = (ground (arith, a.0, b.0), cons-Apart f seen gs a.1 b.1)

  check_folders-ok :
      (c : GuardConfiguration) (source : String) (seen fs : List MonitoredFolder)
      → check_folders x c source seen fs ≡ ok tt
      → All (IsSafe c source) fs × Apart seen fs × Distinct fs
  unfolding check_folders
  check_folders-ok c source seen [] h = (tt, tt, tt)
  check_folders-ok c source seen (f ∷ fs) h =
      elim (Result-cases (require_safe_monitored_path x c source f.path)) [
        | inr (e, failed) ↦ cc (rw failed at h)
        | inl (tt, safe) ↦ elim (Bool-cases (clashes_any x seen f)) [
          | inl clash ↦ cc (rw (safe, clash) at h)
          | inr apart ↦
              let (all_safe, all_apart, distinct) =
                check_folders-ok c source (f ∷ seen) fs (rw (safe, apart) at h) in
              let (from_f, from_seen) = Apart-cons f seen fs all_apart in
              ((safe, all_safe), (apart, from_seen), (from_f, distinct))
        ]
      ]

  ok-check_folders :
      (c : GuardConfiguration) (source : String) (seen fs : List MonitoredFolder)
      → All (IsSafe c source) fs
      → Apart seen fs
      → Distinct fs
      → check_folders x c source seen fs ≡ ok tt
  unfolding check_folders
  ok-check_folders c source seen [] s a d = refl
  ok-check_folders c source seen (f ∷ fs) s a d =
      rw (s.0, a.0) (ok-check_folders c source (f ∷ seen) fs s.1 (cons-Apart f seen fs d.0 a.1) d.1)

  Apart-nil : (fs : List MonitoredFolder) → Apart [] fs
  unfolding clashes_any
  Apart-nil [] = tt
  Apart-nil (f ∷ fs) = (refl, Apart-nil fs)

  pub load_configuration_sound :
      (source : String) (file : ConfigurationFile) (c : GuardConfiguration)
      → load_configuration x source file ≡ ok c
      → (parse_configuration x file ≡ ok c) × WellFormed source c
  unfolding load_configuration check_configuration
  load_configuration_sound source file c h = elim (Result-cases (parse_configuration x file)) [
    | inr (e, failed) ↦ cc (rw failed at h)
    | inl (c', parsed) ↦ elim (Result-cases (check_roots x c')) [
      | inr (e, failed) ↦ cc (rw (parsed, failed) at h)
      | inl (tt, roots) ↦ elim (Result-cases (check_folders x c' source [] c'.folders)) [
        | inr (e, failed) ↦ cc (rw (parsed, roots, failed) at h)
        | inl (tt, checked) ↦
            let same : c' ≡ c = ok-injective (rw (parsed, roots, checked) at h) in
            let (safe, apart, distinct) = check_folders-ok c' source [] c'.folders checked in
            (
              parsed ∙ ap ok same,
              subst (WellFormed source) same
                  (record { roots = roots; safe = safe; distinct = distinct }),
            )
      ]
    ]
  ]

  pub load_configuration_complete :
      (source : String) (file : ConfigurationFile) (c : GuardConfiguration)
      → parse_configuration x file ≡ ok c
      → WellFormed source c
      → load_configuration x source file ≡ ok c
  unfolding load_configuration check_configuration
  load_configuration_complete source file c parsed w =
      rw
        (
          parsed,
          w.roots,
          ok-check_folders c source [] c.folders w.safe (Apart-nil c.folders) w.distinct,
        )
        refl
