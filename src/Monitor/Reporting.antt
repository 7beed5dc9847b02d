-- ===== src/Monitor/Reporting.antt =====
-- What one visit of `run_monitor` (src/kratos_guard/core/operations.py) to a folder records.
use mathlib.Core.Path.{subst}
use kratos_agent_guard.Prelude.{
  eq_refl, ℕ, String, ◌≡◌, refl, sym, ap, ◌∙◌, not, Option, some, none, [], ◌∷◌, ◌++◌,
}
use kratos_agent_guard.Failure.{Result, ok}
use kratos_agent_guard.Json.{Json}
use kratos_agent_guard.Models.{LedgerEntry}
use kratos_agent_guard.Primitives.{Primitives, Stored, written}
use kratos_agent_guard.Stateful.{
  pure, gets, reads, modify, bind-ok, when-true, when-false, reads-ok, modify-ok, gets-ok,
}
use kratos_agent_guard.Stateful.Keeps.{Keeps, Keeps-ok, Keeps-bind, Keeps-reads, Keeps-lift}
use kratos_agent_guard.Monitor.Invariant.{now-frame}
use kratos_agent_guard.Signing.Store.{put_key}
use kratos_agent_guard.Ledger.Append.{Event, LedgerWorld, lines_of}
use kratos_agent_guard.Ledger.Carrying.{Carries, append_ledger_entry-Carries}
use kratos_agent_guard.Folder.Compare.{
  FolderSnapshot, pass_no_folder_drift, drift_detected, compare_folder_snapshots,
}
use kratos_agent_guard.Configuration.Folders.{MonitoredFolder}
use kratos_agent_guard.Monitor.Baseline.{PersistedFolderBaseline, BaselineFile, write_baseline}
use kratos_agent_guard.Monitor.Run.{
  is_pass, MonitorWorld, MonitorEnvironment, default_stale_lock_seconds, baseline_payload,
  comparison_json, now, append_event, record_event, observe, report_observation, store_baseline,
  put_file, remember, visit_folder,
}

-- The ledger has one more line: an entry of the type, on the subject, with the payload.
abbrev pub HasRecorded : String → String → Json → LedgerWorld → LedgerWorld → Type 0
HasRecorded event_type subject payload w w' =
    (x : LedgerEntry) × (w'.file ≡ some (lines_of w.file ++ written x ∷ []))
    × (x.event_type ≡ event_type)
    × (x.subject ≡ subject)
    × (x.payload ≡ payload)

-- What the visit has to say of the folder, with the snapshot that was known before.
abbrev pub HasReported :
    MonitoredFolder → Option FolderSnapshot → FolderSnapshot → LedgerWorld → LedgerWorld → Type 0
HasReported f none current w w' =
    HasRecorded "folder.baseline.observed" f.folder_id (baseline_payload f current) w w'
HasReported f (some previous) current w w' =
    ((compare_folder_snapshots previous current).verdict ≡ pass_no_folder_drift → w'.file ≡ w.file)
    × ((compare_folder_snapshots previous current).verdict ≡ drift_detected
        → HasRecorded "folder.drift.detected" f.folder_id
            (comparison_json (compare_folder_snapshots previous current)) w w')

HasReported-cong :
    (f : MonitoredFolder) (current : FolderSnapshot) {a b : Option FolderSnapshot}
    {w x w' x' : LedgerWorld}
    → a ≡ b
    → w ≡ x
    → w' ≡ x'
    → HasReported f a current w w'
    → HasReported f b current x x'
HasReported-cong f current {b = b} {w = w} {x = x} {w' = w'} same first last h =
    subst (λ k. HasReported f b current x k) last
      (subst (λ k. HasReported f b current k w') first
        (subst (λ k. HasReported f k current w w') same h))

put_file-same :
    (id : String) (text : Stored PersistedFolderBaseline) (files : String → BaselineFile)
    → put_file id text files id ≡ some text
put_file-same id text files = rw (eq_refl id)

put_key-same {ℓ} :
    {A : Type ℓ} (id : String) (a : A) (k : String → Option A) → put_key id a k id ≡ some a
put_key-same id a k = rw (eq_refl id)

module _ (p : Primitives) (e : MonitorEnvironment) where
  append_event-records :
      (event : Event) (w w' : MonitorWorld) (x : LedgerEntry)
      → append_event p e event w ≡ (ok x, w')
      → (w'.ledger.file ≡ some (lines_of w.ledger.file ++ written x ∷ [])) × Carries event x
  unfolding append_event
  append_event-records event w w' x h =
      append_ledger_entry-Carries p event (e.ledger_lock w.clock) default_stale_lock_seconds
        (e.ledger_again w.clock) w.ledger w'.ledger x
        (ap (λ (z : Result LedgerEntry × MonitorWorld). (z.0, z.1.ledger)) h)

  now-ledger : (w u : MonitorWorld) (t : ℕ) → now p e w ≡ (ok t, u) → w.ledger ≡ u.ledger
  unfolding now
  now-ledger w u t h = ap (λ (z : Result ℕ × MonitorWorld). z.1.ledger) h

  record_event-records :
      (event_type subject : String) (payload : Json) (w w' : MonitorWorld) (a : Unit {0})
      → record_event p e event_type subject payload w ≡ (ok a, w')
      → HasRecorded event_type subject payload w.ledger w'.ledger
  unfolding record_event pure
  record_event-records event_type subject payload w w' a h =
      let (t, u, read, h1) = bind-ok (now p e) _ w h in
      let (x, v, appended, h2) = bind-ok (append_event p e _) _ u h1 in
      let (grown, carries) = append_event-records _ u v x appended in
      let same = ap (λ (z : Result (Unit {0}) × MonitorWorld). z.1.ledger.file) h2 in
      (
        x,
        sym same
            ∙ grown
            ∙ ap (λ (z : LedgerWorld). some (lines_of z.file ++ written x ∷ []))
                (sym (now-ledger w u t read)),
        carries.event_type,
        carries.subject,
        carries.payload,
      )

  observe-same :
      (f : MonitoredFolder) (w u : MonitorWorld) (current : FolderSnapshot)
      → observe p e f w ≡ (ok current, u)
      → (u.ledger ≡ w.ledger) × (u.known ≡ w.known)
  unfolding observe
  observe-same f w u current h =
      let Same : MonitorWorld → Type 0 = λ v. (v.ledger ≡ w.ledger) × (v.known ≡ w.known) in
      let weaken : (v : MonitorWorld) → Same v → Same v = λ v k. k in
      let clock : Keeps Same Same (now p e) = now-frame p e (λ v n k. k) in
      Keeps-ok {P = Same} {Q = Same} (observe p e f)
        (Keeps-bind _ _ (Keeps-reads weaken _) λ d. Keeps-bind _ _ clock λ t. Keeps-lift weaken _) w
        current u (refl, refl) h

  report_observation-reports :
      (f : MonitoredFolder) (previous : Option FolderSnapshot) (current : FolderSnapshot)
      (w w' : MonitorWorld) (a : Unit {0})
      → report_observation p e f previous current w ≡ (ok a, w')
      → HasReported f previous current w.ledger w'.ledger
  unfolding report_observation
  report_observation-reports f none current w w' a h = record_event-records _ _ _ w w' a h
  report_observation-reports f (some previous) current w w' a h = (
    λ pass.
        ap (λ (z : Result (Unit {0}) × MonitorWorld). z.1.ledger.file)
          (sym (when-false _ w (ap (λ v. not (is_pass v)) pass) h)),
    λ drift. record_event-records _ _ _ w w' a (when-true _ w (ap (λ v. not (is_pass v)) drift) h),
  )

  store_baseline-stores :
      (f : MonitoredFolder) (current : FolderSnapshot) (v w' : MonitorWorld) (a : Unit {0})
      → store_baseline p e f current v ≡ (ok a, w')
      → (w'.ledger ≡ v.ledger)
        × (w'.known ≡ v.known)
        × ((b : PersistedFolderBaseline) × (write_baseline p f current v.ledger.store ≡ ok b)
            × (w'.baseline_files f.folder_id ≡ some (written b)))
  unfolding store_baseline
  store_baseline-stores f current v w' a h =
      let (b, v1, sealed, h1) =
        bind-ok (reads (λ w. write_baseline p f current w.ledger.store)) _ v h in
      let (wrote, same) = reads-ok (λ w. write_baseline p f current w.ledger.store) v sealed in
      let stored : MonitorWorld → MonitorWorld =
        λ w. record w { baseline_files = put_file f.folder_id (written b) w.baseline_files } in
      let put = modify-ok stored v1 h1 in
      (
        ap (λ (x : MonitorWorld). x.ledger) (put ∙ ap stored same),
        ap (λ (x : MonitorWorld). x.known) (put ∙ ap stored same),
        (
          b,
          wrote,
          ap (λ (x : MonitorWorld). x.baseline_files f.folder_id) put
              ∙ put_file-same f.folder_id (written b) v1.baseline_files,
        ),
      )

  -- A visit that returns recorded a first baseline, or a drift, or nothing where nothing changed;
  -- the snapshot is the folder's known one from then on, and its signed baseline is the file's.
  pub visit_folder-reports :
      (f : MonitoredFolder) (w w' : MonitorWorld) (a : Unit {0})
      → visit_folder p e f w ≡ (ok a, w')
      → (current : FolderSnapshot) × (u : MonitorWorld) × (observe p e f w ≡ (ok current, u))
        × HasReported f (w.known f.folder_id) current w.ledger w'.ledger
        × (w'.known f.folder_id ≡ some current)
        × ((b : PersistedFolderBaseline) × (write_baseline p f current w'.ledger.store ≡ ok b)
            × (w'.baseline_files f.folder_id ≡ some (written b)))
  unfolding visit_folder
  visit_folder-reports f w w' a h =
      let (current, u, observed, h1) = bind-ok (observe p e f) _ w h in
      let (previous, u1, looked, h2) = bind-ok (gets (λ w. w.known f.folder_id)) _ u h1 in
      let (b, v, reported, h3) = bind-ok (report_observation p e f previous current) _ u1 h2 in
      let (c, v1, remembered, h4) =
        bind-ok (modify (remember p e f.folder_id (some current))) _ v h3 in
      let (kept, known) = observe-same f w u current observed in
      let (found, same) = gets-ok (λ x. x.known f.folder_id) u looked in
      let put = modify-ok (remember p e f.folder_id (some current)) v remembered in
      let (stays, knows, (sealed, wrote, holds)) = store_baseline-stores f current v1 w' a h4 in
      (
        current,
        u,
        observed,
        HasReported-cong f current (sym found ∙ ap (λ k. k f.folder_id) known)
            (ap (λ (x : MonitorWorld). x.ledger) same ∙ kept)
            (sym (stays ∙ ap (λ (x : MonitorWorld). x.ledger) put))
            (report_observation-reports f previous current u1 v b reported),
        ap (λ (k : String → Option FolderSnapshot). k f.folder_id)
              (knows ∙ ap (λ (x : MonitorWorld). x.known) put)
            ∙ put_key-same f.folder_id current v.known,
        (sealed, ap (λ (l : LedgerWorld). write_baseline p f current l.store) stays ∙ wrote, holds),
      )
