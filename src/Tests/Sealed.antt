-- ===== src/Tests/Sealed.antt =====
-- Runs of the sealed build's attestation and of its verdicts (src/kratos_guard/core/sealed_build.py).
use Prim.Native.String.{count}
use kratos_agent_guard.Prelude.{String, ◌≡◌, ◌↔◌, refl, Option, some, true, false, [], ◌∷◌}
use kratos_agent_guard.Failure.{Kind, ok, fail}
use kratos_agent_guard.Text.{has_piece}
use kratos_agent_guard.Json.{end, sort_keys}
use kratos_agent_guard.Models.{PublicKeyFile, SigningKeyIdentity}
use kratos_agent_guard.Primitives.{Stored, written}
use kratos_agent_guard.Signing.Trust.{
  public_key_payload, key_id_of, load_trusted_public_key, canonical_bytes,
}
use kratos_agent_guard.Signing.Store.{inspect_key, inspect_private, assess_key_storage}
use kratos_agent_guard.Gate.Qualified.{proven}
use kratos_agent_guard.Inspection.Policy.{is_one_of}
use kratos_agent_guard.Sealed.Claims.{
  BuilderIdentity, BuildAttestation, canonicalise_attestation_payload, input_fields, output_fields,
  builder_fields, sign_attestation, signed_attestation, signing_evidence,
  verify_attestation_signature, attestation_evidence, calculate_attestation_integrity,
}
use kratos_agent_guard.Sealed.Manifest.{
  PayloadFile, BuildContext, file_name, attestation_name, insert_payload, sort_payload,
  payload_entries, manifest_bytes, sum_of_sizes, logical_manifest, artefact_manifest_hash, has_path,
  replace_payload, put_payload,
}
use kratos_agent_guard.Sealed.Candidate.{
  Workspace, AttestationVerification, checks_of, verification_of, first_failing,
  verify_attestation_claims, verify_candidate, update_reproducibility, parse_attestation,
}
use kratos_agent_guard.Sealed.Build.{
  BuildInput, BuildExecution, unsigned_attestation, create_attestation, write_candidate_evidence,
  compare_candidates, differing_among, digest_at,
}
use kratos_agent_guard.Folder.Compare.{insert_path}
use kratos_agent_guard.Sealed.Resigned.{update_reproducibility-verifies}
use kratos_agent_guard.Sealed.Attested.{create_attestation-verifies}
use kratos_agent_guard.Tests.Toy.{toy, toy-IsSound, digest_a, digest_b}
use kratos_agent_guard.Tests.Signing.{store}

unfoldable sealed_steps : Unit {0}
unfolding public_key_payload key_id_of load_trusted_public_key canonical_bytes sort_keys inspect_key
    inspect_private assess_key_storage canonicalise_attestation_payload input_fields output_fields
    builder_fields sign_attestation signed_attestation signing_evidence verify_attestation_signature
    attestation_evidence calculate_attestation_integrity has_piece file_name is_one_of
    insert_payload sort_payload payload_entries manifest_bytes sum_of_sizes logical_manifest
    artefact_manifest_hash checks_of verification_of first_failing verify_attestation_claims
    verify_candidate has_path replace_payload put_payload update_reproducibility
    unsigned_attestation create_attestation write_candidate_evidence compare_candidates
    differing_among digest_at insert_path
sealed_steps = tt

abbrev context : BuildContext
context = record {
  casefold = λ s. s;
  byte_length = count;
  read_attestation = λ s. fail Kind.value "BuildAttestation";
  render = λ a. a.build_reproducibility_state;
}

file_name_run : file_name "a/b/c.js" ≡ "c.js"
unfolding sealed_steps
file_name_run = refl

-- The separator of a manifest's line is one character.
separator_run : count "\0" ≡ 1
separator_run = refl

abbrev background : PayloadFile
background = record { path = "background.js"; size = 5; content = "alice" }

abbrev popup : PayloadFile
popup = record { path = "popup/popup.js"; size = 3; content = "bob" }

abbrev input : BuildInput
input = record {
  repository_head = "abcdef";
  repository_dirty = false;
  repository_staged = false;
  repository_source_manifest_hash = digest_a;
  dependency_lockfile_hashes = end;
  build_script_hashes = end;
  configuration_hashes = end;
  manifest_sha256 = digest_b;
}

abbrev execution : BuildExecution
execution = record {
  command = "node" ∷ "--check" ∷ [];
  started_at = 1;
  finished_at = 2;
  exit_code = 0;
}

abbrev builder : BuilderIdentity
builder = record {
  guard_version = "1.0";
  guard_head = "abc";
  python_version = "3.12";
  operating_system = "Linux";
  node_version = "20";
  package_manager_version = "10";
}

abbrev identity : SigningKeyIdentity
identity = record {
  key_id = "ed25519-aaaaaaaaaaaaaaaa";
  public_key_fingerprint = digest_a;
  storage = record { is_present = true; restrictive_acl = true; broadly_writable = false };
}

inspect_key_run : inspect_key toy store ≡ ok identity
unfolding sealed_steps
inspect_key_run = refl

abbrev attestation : BuildAttestation
attestation = signed_attestation toy "alice" (
    unsigned_attestation "itzako-extension-1" input execution
      (logical_manifest toy context (popup ∷ background ∷ []) (attestation_name ∷ [])) digest_a
      builder "REPRODUCIBILITY_NOT_TESTED" 3 "ed25519-aaaaaaaaaaaaaaaa")

abbrev candidate : Workspace
candidate = (write_candidate_evidence toy context input attestation (popup ∷ background ∷ [])).0

abbrev trusted : Option (Stored PublicKeyFile)
trusted = some (written (public_key_payload toy "alice"))

-- A file that is added to the payload.
manifest_run :
    (logical_manifest toy context (popup ∷ background ∷ []) (attestation_name ∷ [])).total_bytes ≡ 8
unfolding sealed_steps
manifest_run = refl

compare_run :
    (compare_candidates toy context (popup ∷ background ∷ []) (background ∷ [])).differing_paths
    ≡ "popup/popup.js" ∷ []
unfolding sealed_steps
compare_run = refl

create_attestation-verifies_example :
    (a : BuildAttestation) × (create_attestation toy context "itzako-extension-1" input execution
        (logical_manifest toy context (popup ∷ background ∷ []) (attestation_name ∷ []))
        digest_a
        builder
        "REPRODUCIBILITY_NOT_TESTED"
        3
        store
      ≡ ok a)
    × (v : AttestationVerification) × (verify_candidate toy context
          (write_candidate_evidence toy context input a (popup ∷ background ∷ [])).0
          trusted
        ≡ ok v)
    × (v.overall_provenance_state ≡ proven)
    × (v.first_failing_boundary ≡ "")
create_attestation-verifies_example =
    create_attestation-verifies toy context "itzako-extension-1" input execution digest_a builder
      "REPRODUCIBILITY_NOT_TESTED" 3 (popup ∷ background ∷ []) toy-IsSound store refl
      inspect_key_run

candidate_parsed : parse_attestation toy context candidate.attestation ≡ ok attestation
unfolding sealed_steps
candidate_parsed = refl

candidate_read : candidate.input_manifest ≡ ok ("abcdef", digest_b)
unfolding sealed_steps
candidate_read = refl

abbrev resigned_attestation : BuildAttestation
resigned_attestation = signed_attestation toy "alice" (record attestation {
  build_reproducibility_state = "REPRODUCIBLE_BUILD_PROVEN";
  signature = "";
  integrity_sha256 = "";
})

abbrev attestation_payload : PayloadFile
attestation_payload = record {
  path = attestation_name;
  size = 25;
  content = "REPRODUCIBLE_BUILD_PROVEN";
}

abbrev updated : Workspace × String
updated = (
  record {
    input_manifest = ok ("abcdef", digest_b);
    attestation = written resigned_attestation;
    extension = attestation_payload ∷ popup ∷ background ∷ [];
  },
  digest_b,
)

update_run :
    update_reproducibility toy context "REPRODUCIBLE_BUILD_PROVEN" store candidate ≡ ok updated
unfolding sealed_steps
update_run = refl

update_reproducibility-verifies_example :
    (v : AttestationVerification) × (verify_candidate toy context updated.0 trusted ≡ ok v)
    × (v.integrity_state ≡ proven)
    × (v.signature_state ≡ proven)
    × (v.signer_trust_state ≡ proven)
    × ((v.overall_provenance_state ≡ proven) ↔ (
        (attestation.source_head ≡ "abcdef")
        × (attestation.component_build_input_manifest_hash ≡ digest_b)
        × (attestation.artefact_payload_manifest_hash
            ≡ artefact_manifest_hash toy context candidate.extension)))
update_reproducibility-verifies_example =
    update_reproducibility-verifies toy toy-IsSound context "REPRODUCIBLE_BUILD_PROVEN" store
      candidate refl candidate_parsed candidate_read update_run
