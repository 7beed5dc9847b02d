-- ===== src/Monitor/Baseline.antt =====
-- The signed baselines of the monitored folders: `_baseline_signing_bytes`, `_load_baseline` and
-- `_write_baseline` of src/kratos_guard/core/operations.py.
use Prim.Native.String.{◌++◌}
use kratos_agent_guard.Prelude.{
  String, Bool, true, not, ◌&&◌, Option, none, some, List, [], ◌∷◌, ◌==◌, if◌then◌else◌,
}
use kratos_agent_guard.Failure
use kratos_agent_guard.Failure.{Kind, Result, ok, err, fail}
use kratos_agent_guard.Text.{is_digest, is_folder_id}
use kratos_agent_guard.Json.{texts, Json, Items, arr, nil, cons, obj, field, end, str, int}
use kratos_agent_guard.Models.{SignatureEvidence, SigningKeyIdentity}
use kratos_agent_guard.Primitives.{Primitives, Stored, written, foreign}
use kratos_agent_guard.Stateful.{Stateful, ◌>>=◌, ◌>>◌, pure, lift, reads}
use kratos_agent_guard.Signing.Trust.{
  RevocationState, not_revoked, revoked, revocation_invalid, canonical_bytes, key_revocation_state,
  is_accepted,
}
use kratos_agent_guard.Signing.Store.{KeyStore, sign_payload_bytes}
use kratos_agent_guard.Signing.Lifecycle.{verify_local_payload_signature}
use kratos_agent_guard.Folder.Compare.{
  FolderFileIdentity, FolderSnapshot, Limitation, symlink_excluded, file_too_large,
}
use kratos_agent_guard.Configuration.Folders.{MonitoredFolder}

pub record PersistedFolderBaseline : Type 0 where
  pub folder_id : String
  pub snapshot : FolderSnapshot
  pub signing_key_id : String
  pub signature : String

unfoldable pub all_digests : List FolderFileIdentity → Bool
all_digests [] = true
all_digests (f ∷ fs) = is_digest f.sha256 && all_digests fs

-- The constraints of the fields of `PersistedFolderBaseline` and of its snapshot.
unfoldable pub is_valid_baseline : PersistedFolderBaseline → Bool
is_valid_baseline b =
    is_folder_id b.folder_id
    && is_digest b.snapshot.manifest_sha256
    && all_digests b.snapshot.files
    && not (b.signing_key_id == "")
    && not (b.signature == "")

-- The constructor of `PersistedFolderBaseline`.
unfoldable pub accept_valid : PersistedFolderBaseline → Result PersistedFolderBaseline
accept_valid b = if is_valid_baseline b then ok b else fail Kind.value "PersistedFolderBaseline"

abbrev pub BaselineFile : Type 0
BaselineFile = Option (Stored PersistedFolderBaseline)

module _ (p : Primitives) where
  abbrev limitation_text : Limitation → String
  limitation_text (symlink_excluded path) = "SYMLINK_EXCLUDED:" ++ path
  limitation_text (file_too_large path size) = "FILE_TOO_LARGE:" ++ path ++ ":" ++ p.decimal size

  abbrev limitation_items : List Limitation → Items
  limitation_items [] = nil
  limitation_items (l ∷ ls) = cons (str (limitation_text l)) (limitation_items ls)

  abbrev file_items : List FolderFileIdentity → Items
  file_items [] = nil
  file_items (f ∷ fs) =
      cons
        (obj (
          field "relative_path" (str f.relative_path)
            (field "sha256" (str f.sha256) (field "byte_count" (int f.byte_count) end))))
        (file_items fs)

  -- `snapshot.model_dump(mode="json")`
  unfoldable pub snapshot_json : FolderSnapshot → Json
  snapshot_json s = obj (
      field "schema_version" (str "kratos-guard.folder-snapshot.v1") (
        field "root" (str s.root) (
          field "observed_at" (str (p.isoformat s.observed_at)) (
            field "file_count" (int s.file_count) (
              field "total_bytes" (int s.total_bytes) (
                field "manifest_sha256" (str s.manifest_sha256) (
                  field "files" (arr (file_items s.files)) (
                    field "excluded_directories" (arr (texts s.excluded_directories))
                      (field "limitations" (arr (limitation_items s.limitations)) end)))))))))

  -- `_baseline_signing_bytes(folder_id, snapshot)`
  unfoldable pub baseline_signing_bytes : String → FolderSnapshot → String
  baseline_signing_bytes folder_id snapshot = canonical_bytes p (
      obj (
        field "folder_id" (str folder_id) (
          field "schema_version" (str "kratos-guard.persisted-folder-baseline.v1")
            (field "snapshot" (snapshot_json snapshot) end))))

  module _ (resolve : String → String)
      (read_baseline : String → Result PersistedFolderBaseline) where
    abbrev parse_baseline : Stored PersistedFolderBaseline → Result PersistedFolderBaseline
    parse_baseline (written b) = accept_valid b
    parse_baseline (foreign s) = read_baseline s

    abbrev require_unrevoked : RevocationState → Result (Unit {0})
    require_unrevoked not_revoked = ok tt
    require_unrevoked revoked = fail Kind.value "BASELINE_SIGNER_REVOKED_OR_INVALID"
    require_unrevoked revocation_invalid = fail Kind.value "BASELINE_SIGNER_REVOKED_OR_INVALID"

    -- The baseline that is read is the folder's, and its signer is not revoked.
    unfoldable pub check_baseline :
        MonitoredFolder → KeyStore → PersistedFolderBaseline → Result (Unit {0})
    check_baseline folder s b =
        if not (b.folder_id == folder.folder_id)
        then fail Kind.value "BASELINE_FOLDER_ID_INVALID"
        else if not (resolve b.snapshot.root == resolve folder.path)
        then fail Kind.value "BASELINE_ROOT_INVALID"
        else Failure.◌>>=◌ (key_revocation_state p b.signing_key_id s.trust) require_unrevoked

    abbrev accept_baseline :
        PersistedFolderBaseline → SignatureEvidence → Result (Option FolderSnapshot)
    accept_baseline b signature =
        if is_accepted signature
        then ok (some b.snapshot)
        else fail Kind.value "BASELINE_SIGNATURE_INVALID"

    unfoldable pub load_written :
        MonitoredFolder → Stored PersistedFolderBaseline → Stateful KeyStore (Option FolderSnapshot)
    load_written folder text = do
      b ← lift (parse_baseline text)
      reads (λ s. check_baseline folder s b)
      signature ←
          verify_local_payload_signature p (baseline_signing_bytes b.folder_id b.snapshot)
            b.signature b.signing_key_id
      lift (accept_baseline b signature)

    -- `_load_baseline(configuration, folder)`, on the folder's baseline file
    unfoldable pub load_baseline :
        MonitoredFolder → BaselineFile → Stateful KeyStore (Option FolderSnapshot)
    load_baseline folder none = pure none
    load_baseline folder (some text) = load_written folder text

  abbrev pub seal_baseline :
      MonitoredFolder → FolderSnapshot → SigningKeyIdentity × String → PersistedFolderBaseline
  seal_baseline folder snapshot signed = record {
    folder_id = folder.folder_id;
    snapshot = snapshot;
    signing_key_id = signed.0.key_id;
    signature = signed.1;
  }

  -- `_write_baseline(configuration, folder, snapshot)`: the baseline that is written to the file
  unfoldable pub write_baseline :
      MonitoredFolder → FolderSnapshot → KeyStore → Result PersistedFolderBaseline
  write_baseline folder snapshot s =
      Failure.◌>>=◌ (sign_payload_bytes p (baseline_signing_bytes folder.folder_id snapshot) s)
        λ signed. accept_valid (seal_baseline folder snapshot signed)
