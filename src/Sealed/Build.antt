-- ===== src/Sealed/Build.antt =====
-- The attestation of a build, what is written of a candidate, and the comparison of two candidates:
-- `create_attestation`, `write_candidate_evidence` and `compare_candidates` of
-- src/kratos_guard/core/sealed_build.py.
use kratos_agent_guard.Prelude.{
  ℕ, String, Bool, true, false, not, Option, none, some, List, [], ◌∷◌, ◌++◌, ◌==◌, if◌then◌else◌,
}
use kratos_agent_guard.Failure.{Result, ok, ◌>>=◌}
use kratos_agent_guard.Json.{Fields}
use kratos_agent_guard.Primitives.{Primitives, written}
use kratos_agent_guard.Signing.Store.{KeyStore, inspect_key}
use kratos_agent_guard.Folder.Compare.{insert_path}
use kratos_agent_guard.Sealed.Claims.{BuilderIdentity, BuildAttestation, sign_attestation}
use kratos_agent_guard.Sealed.Manifest.{
  PayloadFile, ManifestEntry, LogicalManifest, BuildContext, attestation_name, logical_manifest,
  put_payload,
}
use kratos_agent_guard.Sealed.Candidate.{Workspace, attestation_file}

-- The fields of the build's input manifest and of its execution that the attestation reads.
pub record BuildInput : Type 0 where
  pub repository_head : String
  pub repository_dirty : Bool
  pub repository_staged : Bool
  pub repository_source_manifest_hash : String
  pub dependency_lockfile_hashes : Fields
  pub build_script_hashes : Fields
  pub configuration_hashes : Fields
  pub manifest_sha256 : String

pub record BuildExecution : Type 0 where
  pub command : List String
  pub started_at : ℕ
  pub finished_at : ℕ
  pub exit_code : ℕ

-- The constructor's call in `create_attestation`, at the time `now`.
unfoldable pub unsigned_attestation :
    String
    → BuildInput
    → BuildExecution
    → LogicalManifest
    → String
    → BuilderIdentity
    → String
    → ℕ
    → String
    → BuildAttestation
unsigned_attestation candidate_id m build payload policy_hash builder reproducibility now key_id =
    record {
      schema_version = "1.0";
      project = "itzako";
      component = "extension";
      candidate_id = candidate_id;
      source_repository = "flowwebdesign/Study-Pilot";
      source_head = m.repository_head;
      source_dirty = m.repository_dirty;
      source_staged = m.repository_staged;
      repository_source_manifest_hash = m.repository_source_manifest_hash;
      component_build_input_manifest_hash = m.manifest_sha256;
      dependency_lockfile_hashes = m.dependency_lockfile_hashes;
      build_script_hashes = m.build_script_hashes;
      configuration_hashes = m.configuration_hashes;
      builder = builder;
      guard_head = builder.guard_head;
      guard_version = builder.guard_version;
      build_command = build.command;
      build_started_at = build.started_at;
      build_finished_at = build.finished_at;
      build_exit_code = build.exit_code;
      build_environment_policy_hash = policy_hash;
      artefact_payload_manifest_hash = payload.manifest_sha256;
      artefact_file_count = payload.file_count;
      artefact_total_bytes = payload.total_bytes;
      build_reproducibility_state = reproducibility;
      signing_key_id = key_id;
      signature_algorithm = "Ed25519";
      signature = "";
      attestation_created_at = now;
      limitations =
          "Attestation proves observed controlled build provenance, not runtime loading."
          ∷ "Historical buildInfo.js metadata remains an input byte and is not trusted provenance."
          ∷ [];
      evidence_references =
          "evidence/build-input-manifest.json" ∷ "evidence/payload-manifest.json"
          ∷ "evidence/build-execution.json" ∷ [];
      integrity_sha256 = "";
    }

pub data ReproducibilityState : Type 0 where
  reproducible_build_proven reproducible_build_contradicted : ReproducibilityState

pub record ReproducibilityResult : Type 0 where
  pub state : ReproducibilityState
  pub first_payload_hash : String
  pub second_payload_hash : String
  pub differing_paths : List String
  pub first_nondeterministic_boundary : String

-- `{entry["path"]: entry["sha256"] for entry in entries}.get(path)`: the last entry of a path counts.
unfoldable pub digest_at : String → List ManifestEntry → Option String
digest_at path [] = none
digest_at path (e ∷ es) = elim (digest_at path es) [
  | some digest ↦ some digest
  | none ↦ if e.path == path then some e.sha256 else none
]

abbrev pub digests_differ : Option String → Option String → Bool
digests_differ none none = false
digests_differ none (some k) = true
digests_differ (some h) none = true
digests_differ (some h) (some k) = not (h == k)

-- The paths of some entries at which two manifests differ, sorted, each once.
unfoldable pub differing_among :
    List ManifestEntry → List ManifestEntry → List ManifestEntry → List String
unfolding digest_at insert_path
differing_among [] first second = []
differing_among (e ∷ es) first second =
    let rest = differing_among es first second in
    if digests_differ (digest_at e.path first) (digest_at e.path second)
    then insert_path e.path rest
    else rest

-- `paths[0] if paths else ""`
abbrev pub first_or_empty : List String → String
first_or_empty [] = ""
first_or_empty (path ∷ paths) = path

module _ (p : Primitives) (x : BuildContext) where
  -- `create_attestation(...)`; of the policy, its hash is read
  unfoldable pub create_attestation :
      String
      → BuildInput
      → BuildExecution
      → LogicalManifest
      → String
      → BuilderIdentity
      → String
      → ℕ
      → KeyStore
      → Result BuildAttestation
  unfolding unsigned_attestation
  create_attestation candidate_id m build payload policy_hash builder reproducibility now s = do
    key ← inspect_key p s
    signed ←
        sign_attestation p
          (unsigned_attestation candidate_id m build payload policy_hash builder reproducibility now
            key.key_id)
          s
    ok signed.1

  -- `write_candidate_evidence(...)`, on a folder whose payload is built: of the files of `evidence`,
  -- the two that are read again
  unfoldable pub write_candidate_evidence :
      BuildInput → BuildAttestation → List PayloadFile → Workspace × String
  unfolding put_payload logical_manifest
  write_candidate_evidence m a payload =
      let extension = put_payload p x (attestation_file p x a) payload in
      (
        record {
          input_manifest = ok (m.repository_head, m.manifest_sha256);
          attestation = written a;
          extension = extension;
        },
        (logical_manifest p x extension []).manifest_sha256,
      )

  -- `compare_candidates(first, second)`, on the files under the two folders `artefact/extension`
  unfoldable pub compare_candidates : List PayloadFile → List PayloadFile → ReproducibilityResult
  unfolding logical_manifest differing_among
  compare_candidates first second =
      let one = logical_manifest p x first (attestation_name ∷ []) in
      let two = logical_manifest p x second (attestation_name ∷ []) in
      let differing = differing_among (one.entries ++ two.entries) one.entries two.entries in
      record {
        state =
            if one.manifest_sha256 == two.manifest_sha256
            then reproducible_build_proven
            else reproducible_build_contradicted;
        first_payload_hash = one.manifest_sha256;
        second_payload_hash = two.manifest_sha256;
        differing_paths = differing;
        first_nondeterministic_boundary = first_or_empty differing;
      }
