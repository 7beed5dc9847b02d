-- ===== src/Attestation/Issue.antt =====
-- `issue_runtime_challenge` and `create_synthetic_runtime_statement` of
-- src/kratos_guard/core/standalone.py. What `secrets` returns is an argument.
use Prim.Native.String.{◌++◌}
use kratos_agent_guard.Prelude.{
  ℕ, ◌+◌, ◌*◌, String, false, not, ◌||◌, Option, some, ltb, ◌==◌, if◌then◌else◌,
}
use kratos_agent_guard.Failure.{Kind, Result, ok, ◌>>=◌, ◌>>◌, raise_if}
use kratos_agent_guard.Text.{first_sixteen}
use kratos_agent_guard.Json.{field, int, bool, end}
use kratos_agent_guard.Models.{PublicKeyFile}
use kratos_agent_guard.Primitives.{Primitives}
use kratos_agent_guard.Signing.Store.{KeyStore, inspect_key, sign_payload_bytes}
use kratos_agent_guard.Folder.Compare.{FolderSnapshot}
use kratos_agent_guard.Attestation.Records.{
  RuntimeChallenge, RuntimeStatement, is_valid_challenge, is_valid_statement, challenge_bytes,
  statement_bytes,
}

-- The arguments of `issue_runtime_challenge`, with the two random texts.
pub record ChallengeRequest : Type 0 where
  pub subject : String
  pub expected_build_id : String
  pub expected_artifact_sha256 : Option String
  pub ttl_seconds : ℕ
  pub now : ℕ
  pub token_hex : String
  pub token_urlsafe : String

unfoldable pub pending_challenge : ChallengeRequest → String → RuntimeChallenge
pending_challenge r key_id = record {
  challenge_id = r.token_hex;
  nonce = r.token_urlsafe;
  issued_at = r.now;
  expires_at = r.now + r.ttl_seconds * 1_000_000;
  subject = r.subject;
  expected_build_id = r.expected_build_id;
  expected_artifact_sha256 = r.expected_artifact_sha256;
  verifier_key_id = key_id;
  signature = "pending";
}

-- The arguments of `create_synthetic_runtime_statement`: the snapshot of the artifact, the private
-- key that is generated, and the process.
pub record SyntheticRequest : Type 0 where
  pub snapshot : FolderSnapshot
  pub private : String
  pub build_id : String
  pub now : ℕ
  pub token_hex : String
  pub process_id : ℕ

module _ (p : Primitives) where
  unfoldable pub sign_challenge : RuntimeChallenge → KeyStore → Result RuntimeChallenge
  sign_challenge pending s = do
    raise_if (not (is_valid_challenge pending)) Kind.value "RuntimeChallenge"
    signed ← sign_payload_bytes p (challenge_bytes p pending) s
    raise_if (not (signed.0.key_id == pending.verifier_key_id)) Kind.runtime
        "SIGNING_KEY_CHANGED_DURING_CHALLENGE"
    ok (record pending { signature = signed.1 })

  -- `issue_runtime_challenge(...)`
  unfoldable pub issue_runtime_challenge : ChallengeRequest → KeyStore → Result RuntimeChallenge
  issue_runtime_challenge r s = do
    raise_if (ltb r.ttl_seconds 1 || ltb 3600 r.ttl_seconds) Kind.value
        "ttl_seconds must be between 1 and 3600"
    identity ← inspect_key p s
    sign_challenge (pending_challenge r identity.key_id) s

  -- The file that `_write_ephemeral_trust_root` writes, but for its field `scope`, which no one reads.
  unfoldable pub ephemeral_trust_root : String → PublicKeyFile
  unfolding first_sixteen
  ephemeral_trust_root private = record {
    algorithm = "Ed25519";
    key_id = "synthetic-ed25519-" ++ first_sixteen (p.sha256 (p.public_bytes private));
    public_key_fingerprint = p.sha256 (p.public_bytes private);
    public_key_base64 = p.b64encode (p.public_bytes private);
  }

  unfoldable pub pending_statement : RuntimeChallenge → SyntheticRequest → RuntimeStatement
  unfolding first_sixteen
  pending_statement c r = record {
    statement_id = r.token_hex;
    challenge_id = c.challenge_id;
    nonce = c.nonce;
    observed_at = r.now;
    subject = c.subject;
    runtime_kind = "GUARD_SYNTHETIC_FIXTURE";
    producer_scope = "GUARD_OWNED_SYNTHETIC";
    build_id =
        if r.build_id == ""
        then "synthetic-" ++ first_sixteen r.snapshot.manifest_sha256
        else r.build_id;
    artifact_sha256 = r.snapshot.manifest_sha256;
    executable_manifest_sha256 = r.snapshot.manifest_sha256;
    process_id = some r.process_id;
    claims = field "artifact_file_count" (int r.snapshot.file_count) (
        field "artifact_total_bytes" (int r.snapshot.total_bytes)
          (field "loaded_user_profile" (bool false) end));
    producer_key_id = (ephemeral_trust_root r.private).key_id;
    signature = "pending";
  }

  -- `create_synthetic_runtime_statement(...)`, with the trust file that it writes
  unfoldable pub create_synthetic_runtime_statement :
      RuntimeChallenge → SyntheticRequest → Result (RuntimeStatement × PublicKeyFile)
  create_synthetic_runtime_statement c r = do
    raise_if (not (is_valid_statement (pending_statement c r))) Kind.value "RuntimeStatement"
    let pending = pending_statement c r
    ok (
      record pending { signature = p.sign r.private (statement_bytes p pending) },
      ephemeral_trust_root r.private,
    )
