-- ===== src/Tests/Attestation.antt =====
-- Runs of challenges and statements (src/kratos_guard/core/standalone.py).

use kratos_agent_guard.Prelude.{◌≡◌, ◌≢◌, refl, false, some, none, [], ◌∷◌, Option, arith}
use kratos_agent_guard.Failure.{ok}
use kratos_agent_guard.Text.{first_sixteen, is_identifier, has_length, is_digest}
use kratos_agent_guard.Json.{end, field, bool, int}
use kratos_agent_guard.Models.{PublicKeyFile, signature_valid}
use kratos_agent_guard.Signing.Trust.{
  canonical_bytes, public_key_payload, verify_payload_signature, load_trusted_public_key, key_id_of,
}
use kratos_agent_guard.Signing.Store.{
  inspect_private, inspect_key, assess_key_storage, sign_payload_bytes, put_key,
}
use kratos_agent_guard.Attestation.Records.{
  RuntimeChallenge, RuntimeStatement, challenge_bytes, statement_bytes, is_valid_challenge,
  is_valid_statement,
}
use kratos_agent_guard.Attestation.Verify.{
  Attempt, ReplayRoot, RuntimeAttestationVerification, verify_runtime_statement, verify_signatures,
  settle, settle_replay, found_blockers, signature_blockers, content_blockers, report,
  attestation_verdict, freshness_of, marker_of, fail_runtime_attestation,
  pass_synthetic_runtime_attestation, fresh, unused, replay_detected, ReplayMarker,
  unproven_synthetic_scope, attestation_replay_detected,
}
use kratos_agent_guard.Attestation.Passing.{
  Authentic, verify_runtime_statement_sound, verify_runtime_statement_complete,
}
use kratos_agent_guard.Attestation.Replay.{attempt_all, passes_at_most_once}
use kratos_agent_guard.Attestation.Issue.{
  ChallengeRequest, SyntheticRequest, issue_runtime_challenge, pending_challenge, sign_challenge,
  create_synthetic_runtime_statement, pending_statement, ephemeral_trust_root,
}
use kratos_agent_guard.Attestation.Roundtrip.{synthetic_answer_verifies, answer_attempt, Fits}
use kratos_agent_guard.Tests.Toy.{toy, toy-IsSound, digest_b}
use kratos_agent_guard.Tests.Appending.{store}
use kratos_agent_guard.Tests.Folder.{snapshot}

unfoldable attestation_steps : Unit {0}
unfolding verify_runtime_statement verify_signatures settle settle_replay found_blockers
    signature_blockers content_blockers report attestation_verdict freshness_of
    issue_runtime_challenge pending_challenge sign_challenge create_synthetic_runtime_statement
    pending_statement ephemeral_trust_root is_valid_challenge is_valid_statement inspect_private
    inspect_key assess_key_storage sign_payload_bytes public_key_payload key_id_of
    verify_payload_signature load_trusted_public_key challenge_bytes statement_bytes marker_of
    is_identifier has_length is_digest canonical_bytes first_sixteen
attestation_steps = tt

abbrev request : ChallengeRequest
request = record {
  subject = "standalone";
  expected_build_id = "";
  expected_artifact_sha256 = none;
  ttl_seconds = 300;
  now = 10;
  token_hex = "0123456789abcdef0123456789abcdef";
  token_urlsafe = "0123456789abcdef0123456789abcdef";
}

abbrev challenge : RuntimeChallenge
challenge = record {
  challenge_id = "0123456789abcdef0123456789abcdef";
  nonce = "0123456789abcdef0123456789abcdef";
  issued_at = 10;
  expires_at = 300_000_010;
  subject = "standalone";
  expected_build_id = "";
  expected_artifact_sha256 = none;
  verifier_key_id = "ed25519-aaaaaaaaaaaaaaaa";
  signature = "~alice{}";
}

issue_run : issue_runtime_challenge toy request store ≡ ok challenge
unfolding attestation_steps
issue_run = refl

abbrev synthetic : SyntheticRequest
synthetic = record {
  snapshot = snapshot;
  private = "fixture";
  build_id = "";
  now = 20;
  token_hex = "ffffffffffffffffffffffffffffffff";
  process_id = 2;
}

abbrev statement : RuntimeStatement
statement = record {
  statement_id = "ffffffffffffffffffffffffffffffff";
  challenge_id = "0123456789abcdef0123456789abcdef";
  nonce = "0123456789abcdef0123456789abcdef";
  observed_at = 20;
  subject = "standalone";
  runtime_kind = "GUARD_SYNTHETIC_FIXTURE";
  producer_scope = "GUARD_OWNED_SYNTHETIC";
  build_id = "synthetic-bbbbbbbbbbbbbbbb";
  artifact_sha256 = digest_b;
  executable_manifest_sha256 = digest_b;
  process_id = some 2;
  claims =
      field "artifact_file_count" (int 3)
        (field "artifact_total_bytes" (int 8) (field "loaded_user_profile" (bool false) end));
  producer_key_id = "synthetic-ed25519-bbbbbbbbbbbbbbbb";
  signature = "~fixture{}";
}

abbrev fixture_trust : PublicKeyFile
fixture_trust = record {
  algorithm = "Ed25519";
  key_id = "synthetic-ed25519-bbbbbbbbbbbbbbbb";
  public_key_fingerprint = digest_b;
  public_key_base64 = "fixture";
}

create_run :
    create_synthetic_runtime_statement toy challenge synthetic ≡ ok (statement, fixture_trust)
unfolding attestation_steps
create_run = refl

abbrev no_markers : ReplayRoot
no_markers = λ id. none

statement-Fits : Fits toy-IsSound challenge statement 30
statement-Fits = record {
  checked_in_time = record { after = omega arith; before = omega arith };
  observed_in_time = record { after = omega arith; before = omega arith };
  build = λ h. absurd (h refl);
  artifact = λ d h. cc h;
}

abbrev attempt : Attempt
attempt = answer_attempt toy-IsSound "alice" challenge statement fixture_trust 30

synthetic_answer_verifies_example :
    (v : RuntimeAttestationVerification) × ((verify_runtime_statement toy attempt no_markers).0
      ≡ ok v)
    × (v.blockers ≡ [])
    × (v.verdict ≢ fail_runtime_attestation)
synthetic_answer_verifies_example =
    synthetic_answer_verifies toy-IsSound "alice" store request synthetic 30 no_markers challenge
      statement fixture_trust refl issue_run create_run statement-Fits refl

abbrev passed : RuntimeAttestationVerification
passed = record {
  challenge_id = "0123456789abcdef0123456789abcdef";
  statement_id = "ffffffffffffffffffffffffffffffff";
  subject = "standalone";
  build_id = "synthetic-bbbbbbbbbbbbbbbb";
  artifact_sha256 = digest_b;
  challenge_signature_state = signature_valid;
  producer_signature_state = signature_valid;
  freshness_state = fresh;
  replay_state = unused;
  producer_scope = "GUARD_OWNED_SYNTHETIC";
  current_user_loaded_runtime_state = unproven_synthetic_scope;
  blockers = [];
  verdict = pass_synthetic_runtime_attestation;
}

abbrev one_marker : ReplayRoot
one_marker = put_key "0123456789abcdef0123456789abcdef" (marker_of toy attempt) no_markers

verify_run : verify_runtime_statement toy attempt no_markers ≡ (ok passed, one_marker)
unfolding attestation_steps
verify_run = refl

verify_runtime_statement_sound_example :
    Authentic toy attempt
    × (◌≡◌ {A = Option ReplayMarker} none none)
    × (one_marker ≡ put_key "0123456789abcdef0123456789abcdef" (marker_of toy attempt) no_markers)
verify_runtime_statement_sound_example =
    verify_runtime_statement_sound toy attempt no_markers one_marker passed verify_run (λ h. cc h)

attempt-Authentic : Authentic toy attempt
unfolding attestation_steps
attempt-Authentic = record {
  challenge_evidence = _;
  challenge_verified = refl;
  challenge_accepted = refl;
  producer_evidence = _;
  producer_verified = refl;
  producer_accepted = refl;
  answers = record {
    same_challenge = refl;
    same_nonce = refl;
    same_subject = refl;
    checked_in_time = record { after = omega arith; before = omega arith };
    observed_in_time = record { after = omega arith; before = omega arith };
    build = λ h. absurd (h refl);
    artifact = λ d h. cc h;
  };
}

verify_runtime_statement_complete_example :
    (v : RuntimeAttestationVerification) × (verify_runtime_statement toy attempt no_markers
      ≡ (ok v, one_marker))
    × (v.blockers ≡ [])
    × (v.verdict ≢ fail_runtime_attestation)
verify_runtime_statement_complete_example =
    verify_runtime_statement_complete toy attempt no_markers attempt-Authentic refl refl

-- The second time, the answer is refused.
abbrev replayed : RuntimeAttestationVerification
replayed = record passed {
  replay_state = replay_detected;
  blockers = attestation_replay_detected ∷ [];
  verdict = fail_runtime_attestation;
}

replay_run :
    verify_runtime_statement toy attempt (attempt_all toy [] one_marker) ≡ (ok replayed, one_marker)
unfolding attestation_steps attempt_all
replay_run = refl

passes_at_most_once_example : replayed.verdict ≡ fail_runtime_attestation
passes_at_most_once_example =
    passes_at_most_once toy attempt attempt [] no_markers one_marker one_marker passed replayed
      verify_run (λ h. cc h) refl replay_run
