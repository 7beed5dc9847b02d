-- ===== src/Monitor/Persistence.antt =====
-- A baseline that `_write_baseline` writes is the one that `_load_baseline` (both of
-- src/kratos_guard/core/operations.py) reads back.
use kratos_agent_guard.Prelude.{String, ◌≡◌, refl, sym, inl, inr, some, eq_refl, Bool-cases}
use kratos_agent_guard.Failure.{Result, ok, Result-cases, ok-injective}
use kratos_agent_guard.Models.{SigningKeyIdentity}
use kratos_agent_guard.Primitives.{Primitives, IsSound, written}
use kratos_agent_guard.Stateful.{◌>>=◌, lift, reads}
use kratos_agent_guard.Signing.Trust.{public_key_payload, key_revocation_state, not_revoked}
use kratos_agent_guard.Signing.Store.{KeyStore, inspect_private, sign_payload_bytes}
use kratos_agent_guard.Signing.Signatures.{verify_payload_signature-sign}
use kratos_agent_guard.Ledger.Existing.{IsPublished, inspect_private-key, verify_local-published}
use kratos_agent_guard.Folder.Compare.{FolderSnapshot}
use kratos_agent_guard.Configuration.Folders.{MonitoredFolder}
use kratos_agent_guard.Monitor.Baseline.{
  PersistedFolderBaseline, is_valid_baseline, baseline_signing_bytes, check_baseline, load_written,
  load_baseline, accept_valid, write_baseline,
}

accept_valid-ok :
    (a b : PersistedFolderBaseline) → accept_valid a ≡ ok b → (b ≡ a) × (accept_valid a ≡ ok a)
unfolding accept_valid
accept_valid-ok a b h = elim (Bool-cases (is_valid_baseline a)) [
  | inl valid ↦ (sym (ok-injective (rw valid at h)), rw valid)
  | inr refused ↦ cc (rw refused at h)
]

module _ {p : Primitives} (sound : IsSound p) (k : String) (s : KeyStore)
    (published : IsPublished p k s) where
  abbrev signed_baseline : MonitoredFolder → FolderSnapshot → PersistedFolderBaseline
  signed_baseline f snapshot = record {
    folder_id = f.folder_id;
    snapshot = snapshot;
    signing_key_id = (public_key_payload p k).key_id;
    signature = p.sign k (baseline_signing_bytes p f.folder_id snapshot);
  }

  write_baseline-ok :
      (f : MonitoredFolder) (snapshot : FolderSnapshot) (b : PersistedFolderBaseline)
      → write_baseline p f snapshot s ≡ ok b
      → (i : SigningKeyIdentity × String) × (inspect_private p s ≡ ok i)
        × (accept_valid (signed_baseline f snapshot) ≡ ok b)
  unfolding write_baseline sign_payload_bytes
  write_baseline-ok f snapshot b h = elim (Result-cases (inspect_private p s)) [
    | inr (x, failed) ↦ cc (rw (failed, write_baseline, sign_payload_bytes) at h)
    | inl (i, found) ↦
        let (same_key, same_id) = inspect_private-key sound k s published i found in
        (i, found, rw (found, same_key, same_id, write_baseline, sign_payload_bytes) at h)
  ]

  -- A baseline written under the store's own published key, which is not revoked, loads as the
  -- snapshot, if the snapshot's root and the folder's path resolve to one path; the store stays as
  -- it was.
  pub load_baseline-write_baseline :
      (resolve : String → String) (read_baseline : String → Result PersistedFolderBaseline)
      (f : MonitoredFolder) (snapshot : FolderSnapshot) (b : PersistedFolderBaseline)
      → write_baseline p f snapshot s ≡ ok b
      → resolve snapshot.root ≡ resolve f.path
      → key_revocation_state p (public_key_payload p k).key_id s.trust ≡ ok not_revoked
      → load_baseline p resolve read_baseline f (some (written b)) s ≡ (ok (some snapshot), s)
  unfolding load_baseline load_written check_baseline ◌>>=◌ lift reads
  load_baseline-write_baseline resolve read_baseline f snapshot b wrote same_root unrevoked =
      let (i, found, made) = write_baseline-ok f snapshot b wrote in
      let (same, valid) = accept_valid-ok (signed_baseline f snapshot) b made in
      let bytes = baseline_signing_bytes p f.folder_id snapshot in
      rw same (
        rw (valid, eq_refl f.folder_id, same_root, eq_refl (resolve f.path), unrevoked)
          (rw
            (verify_local-published sound k s published i found bytes (p.sign k bytes)
              (public_key_payload p k).key_id)
            (rw (published.listed, verify_payload_signature-sign sound k bytes) refl)))
