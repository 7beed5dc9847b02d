-- ===== src/Sealed/Candidate.antt =====
-- A candidate and the verdicts on it: `verify_attestation_claims`, `verify_candidate` and
-- `update_reproducibility` of src/kratos_guard/core/sealed_build.py.

use kratos_agent_guard.Prelude.{String, Bool, not, ◌&&◌, Option, List, [], ◌==◌, if◌then◌else◌}
use kratos_agent_guard.Failure.{Result, ok, ◌>>=◌}
use kratos_agent_guard.Models.{PublicKeyFile, SignatureEvidence}
use kratos_agent_guard.Primitives.{Primitives, Stored, written, foreign}
use kratos_agent_guard.Signing.Trust
use kratos_agent_guard.Signing.Store.{KeyStore}
use kratos_agent_guard.Gate.Qualified.{EvidenceState, proven, contradicted, unproven}
use kratos_agent_guard.Sealed.Manifest.{
  BuildContext, PayloadFile, artefact_manifest_hash, attestation_name, logical_manifest,
  put_payload,
}
use kratos_agent_guard.Sealed.Claims.{
  BuildAttestation, calculate_attestation_integrity, verify_attestation_signature, sign_attestation,
}

-- A candidate's folder: `repository_head` and `manifest_sha256` of
-- `evidence/build-input-manifest.json`, `evidence/build-attestation.json`, and the files under
-- `artefact/extension` in the order in which `rglob` gives them.
pub record Workspace : Type 0 where
  pub input_manifest : Result (String × String)
  pub attestation : Stored BuildAttestation
  pub extension : List PayloadFile

pub record AttestationVerification : Type 0 where
  pub schema_state : EvidenceState
  pub integrity_state : EvidenceState
  pub signature_state : EvidenceState
  pub signer_trust_state : EvidenceState
  pub source_claim_state : EvidenceState
  pub build_input_state : EvidenceState
  pub artefact_claim_state : EvidenceState
  pub overall_provenance_state : EvidenceState
  pub first_failing_boundary : String

-- The six tests of `verify_attestation_claims`.
pub record Checks : Type 0 where
  pub integrity : Bool
  pub signature : Bool
  pub signer : Bool
  pub source : Bool
  pub build_input : Bool
  pub artefact : Bool

abbrev pub state_or : Bool → EvidenceState → EvidenceState
state_or passed otherwise = if passed then proven else otherwise

unfoldable pub first_failing : Checks → String
first_failing c =
    if not c.integrity
    then "integrity"
    else if not c.signature
    then "signature"
    else if not c.signer
    then "signer"
    else if not c.source
    then "source"
    else if not c.build_input
    then "build-input"
    else if not c.artefact
    then "artefact"
    else ""

-- The answer that the tests give.
unfoldable pub verification_of : Checks → AttestationVerification
unfolding first_failing
verification_of c = record {
  schema_state = proven;
  integrity_state = state_or c.integrity contradicted;
  signature_state = state_or c.signature contradicted;
  signer_trust_state = state_or c.signer unproven;
  source_claim_state = state_or c.source contradicted;
  build_input_state = state_or c.build_input contradicted;
  artefact_claim_state = state_or c.artefact contradicted;
  overall_provenance_state =
      state_or (c.integrity && c.source && c.build_input && c.artefact && c.signer && c.signature)
        contradicted;
  first_failing_boundary = first_failing c;
}

module _ (p : Primitives) (x : BuildContext) where
  unfoldable pub checks_of :
      BuildAttestation → SignatureEvidence → String × String → String → Checks
  checks_of a signature (repository_head, manifest_sha256) payload_sha256 = record {
    integrity = calculate_attestation_integrity p a == a.integrity_sha256;
    signature = Trust.is_valid signature.signature_state;
    signer = Trust.is_proven signature.signer_trust_state;
    source = a.source_head == repository_head;
    build_input = a.component_build_input_manifest_hash == manifest_sha256;
    artefact = a.artefact_payload_manifest_hash == payload_sha256;
  }

  -- `verify_attestation_claims(attestation, workspace, trusted_key)`
  unfoldable pub verify_attestation_claims :
      BuildAttestation → Workspace → Option (Stored PublicKeyFile) → Result AttestationVerification
  unfolding artefact_manifest_hash checks_of verification_of
  verify_attestation_claims a w trusted = do
    signature ← verify_attestation_signature p a trusted
    input ← w.input_manifest
    ok (verification_of (checks_of a signature input (artefact_manifest_hash p x w.extension)))

  -- `BuildAttestation.model_validate_json(...)`
  abbrev pub parse_attestation : Stored BuildAttestation → Result BuildAttestation
  parse_attestation (written a) = ok a
  parse_attestation (foreign s) = x.read_attestation s

  -- `verify_candidate(workspace, trusted_key)`
  unfoldable pub verify_candidate :
      Workspace → Option (Stored PublicKeyFile) → Result AttestationVerification
  unfolding verify_attestation_claims
  verify_candidate w trusted = do
    a ← parse_attestation w.attestation
    verify_attestation_claims a w trusted

  abbrev pub attestation_file : BuildAttestation → PayloadFile
  attestation_file a = record {
    path = attestation_name;
    size = x.byte_length (x.render a);
    content = x.render a;
  }

  -- `update_reproducibility(workspace, state)`
  unfoldable pub update_reproducibility :
      String → KeyStore → Workspace → Result (Workspace × String)
  unfolding sign_attestation put_payload logical_manifest
  update_reproducibility state s w = do
    a ← parse_attestation w.attestation
    signed ←
        sign_attestation p
          (record a { build_reproducibility_state = state; signature = ""; integrity_sha256 = "" })
          s
    let extension = put_payload p x (attestation_file signed.1) w.extension
    ok (
      record w { attestation = written signed.1; extension = extension },
      (logical_manifest p x extension []).manifest_sha256,
    )
