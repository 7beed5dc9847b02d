-- ===== src/Sealed/Claims.antt =====
-- The build attestation (src/kratos_guard/models/build.py) and the helpers that sign it and check its
-- signature (src/kratos_guard/core/signing.py).
use kratos_agent_guard.Prelude.{ℕ, String, Bool, not, Option, List, ◌==◌, if◌then◌else◌}
use kratos_agent_guard.Failure.{Kind, Result, ok, ◌>>=◌, ◌>>◌, raise_if}
use kratos_agent_guard.Json.{Fields, bool, int, str, arr, obj, end, field, texts}
use kratos_agent_guard.Models.{
  PublicKeyFile, SignatureEvidence, signature_valid, signature_invalid, trust_root_proven,
  signer_untrusted,
}
use kratos_agent_guard.Primitives.{Primitives, Stored}
use kratos_agent_guard.Signing.Trust.{canonical_bytes, load_trusted_public_key}
use kratos_agent_guard.Signing.Store.{KeyStore, inspect_private}

pub record BuilderIdentity : Type 0 where
  pub guard_version : String
  pub guard_head : String
  pub python_version : String
  pub operating_system : String
  pub node_version : String
  pub package_manager_version : String

-- A `dict[str, str]` is the fields of its JSON object.
pub record BuildAttestation : Type 0 where
  pub schema_version : String
  pub project : String
  pub component : String
  pub candidate_id : String
  pub source_repository : String
  pub source_head : String
  pub source_dirty : Bool
  pub source_staged : Bool
  pub repository_source_manifest_hash : String
  pub component_build_input_manifest_hash : String
  pub dependency_lockfile_hashes : Fields
  pub build_script_hashes : Fields
  pub configuration_hashes : Fields
  pub builder : BuilderIdentity
  pub guard_head : String
  pub guard_version : String
  pub build_command : List String
  pub build_started_at : ℕ
  pub build_finished_at : ℕ
  pub build_exit_code : ℕ
  pub build_environment_policy_hash : String
  pub artefact_payload_manifest_hash : String
  pub artefact_file_count : ℕ
  pub artefact_total_bytes : ℕ
  pub build_reproducibility_state : String
  pub signing_key_id : String
  pub signature_algorithm : String
  pub signature : String
  pub attestation_created_at : ℕ
  pub limitations : List String
  pub evidence_references : List String
  pub integrity_sha256 : String

unfoldable pub builder_fields : BuilderIdentity → Fields
builder_fields b = field "guard_version" (str b.guard_version) (
    field "guard_head" (str b.guard_head) (
      field "python_version" (str b.python_version) (
        field "operating_system" (str b.operating_system) (
          field "node_version" (str b.node_version)
            (field "package_manager_version" (str b.package_manager_version) end)))))

module _ (p : Primitives) where
  -- `attestation.model_dump(mode="json")` without `signature` and `integrity_sha256`: what the build
  -- read and ran
  unfoldable pub input_fields : BuildAttestation → Fields → Fields
  unfolding builder_fields
  input_fields a rest = field "schema_version" (str a.schema_version) (
      field "project" (str a.project) (
        field "component" (str a.component) (
          field "candidate_id" (str a.candidate_id) (
            field "source_repository" (str a.source_repository) (
              field "source_head" (str a.source_head) (
                field "source_dirty" (bool a.source_dirty) (
                  field "source_staged" (bool a.source_staged) (
                    field "repository_source_manifest_hash" (str a.repository_source_manifest_hash)
                      (field "component_build_input_manifest_hash"
                        (str a.component_build_input_manifest_hash)
                        (field "dependency_lockfile_hashes" (obj a.dependency_lockfile_hashes) (
                          field "build_script_hashes" (obj a.build_script_hashes) (
                            field "configuration_hashes" (obj a.configuration_hashes) (
                              field "builder" (obj (builder_fields a.builder)) (
                                field "guard_head" (str a.guard_head) (
                                  field "guard_version" (str a.guard_version) (
                                    field "build_command" (arr (texts a.build_command))
                                      rest))))))))))))))))

  -- and what came out of it
  unfoldable pub output_fields : BuildAttestation → Fields
  output_fields a = field "build_started_at" (str (p.isoformat a.build_started_at)) (
      field "build_finished_at" (str (p.isoformat a.build_finished_at)) (
        field "build_exit_code" (int a.build_exit_code) (
          field "build_environment_policy_hash" (str a.build_environment_policy_hash) (
            field "artefact_payload_manifest_hash" (str a.artefact_payload_manifest_hash) (
              field "artefact_file_count" (int a.artefact_file_count) (
                field "artefact_total_bytes" (int a.artefact_total_bytes) (
                  field "build_reproducibility_state" (str a.build_reproducibility_state) (
                    field "signing_key_id" (str a.signing_key_id) (
                      field "signature_algorithm" (str a.signature_algorithm) (
                        field "attestation_created_at" (str (p.isoformat a.attestation_created_at))
                          (field "limitations" (arr (texts a.limitations)) (
                            field "evidence_references" (arr (texts a.evidence_references))
                              end))))))))))))

  -- `canonicalise_attestation_payload(attestation)`
  unfoldable pub canonicalise_attestation_payload : BuildAttestation → String
  unfolding input_fields output_fields
  canonicalise_attestation_payload a = canonical_bytes p (obj (input_fields a (output_fields a)))

  unfoldable pub calculate_attestation_integrity : BuildAttestation → String
  calculate_attestation_integrity a = p.sha256 (canonicalise_attestation_payload a)

  -- The attestation that `sign_attestation` leaves, and its answer.
  unfoldable pub signed_attestation : String → BuildAttestation → BuildAttestation
  signed_attestation private a = record a {
    integrity_sha256 = p.sha256 (canonicalise_attestation_payload a);
    signature = p.sign private (canonicalise_attestation_payload a);
  }

  unfoldable pub signing_evidence : String → BuildAttestation → SignatureEvidence
  signing_evidence key_id signed = record {
    key_id = key_id;
    payload_sha256 = signed.integrity_sha256;
    signature = signed.signature;
    signature_state = signature_valid;
    signer_trust_state = trust_root_proven;
  }

  -- `sign_attestation(attestation)`, which sets the attestation's signature and hash
  unfoldable pub sign_attestation :
      BuildAttestation → KeyStore → Result (SignatureEvidence × BuildAttestation)
  unfolding signed_attestation signing_evidence
  sign_attestation a s = do
    found ← inspect_private p s
    raise_if (not (found.0.key_id == a.signing_key_id)) Kind.value "KEY_MISMATCH"
    let signed = signed_attestation found.1 a
    ok (signing_evidence found.0.key_id signed, signed)

  -- What `verify_attestation_signature` finds under a key that it loaded.
  unfoldable pub attestation_evidence : BuildAttestation → String × String → SignatureEvidence
  attestation_evidence a (key_id, public) = record {
    key_id = a.signing_key_id;
    payload_sha256 = p.sha256 (canonicalise_attestation_payload a);
    signature = a.signature;
    signature_state =
        if p.verify public a.signature (canonicalise_attestation_payload a)
        then signature_valid
        else signature_invalid;
    signer_trust_state = if key_id == a.signing_key_id then trust_root_proven else signer_untrusted;
  }

  -- `verify_attestation_signature(attestation, trusted_key_path)`
  unfoldable pub verify_attestation_signature :
      BuildAttestation → Option (Stored PublicKeyFile) → Result SignatureEvidence
  unfolding attestation_evidence
  verify_attestation_signature a trusted = do
    trust ← load_trusted_public_key p trusted
    ok (attestation_evidence a trust)
