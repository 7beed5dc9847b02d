-- ===== src/Attestation/Records.antt =====
-- `RuntimeChallenge` and `RuntimeStatement` of src/kratos_guard/models/standalone.py, and the bytes
-- that are signed (`_model_signing_bytes` of src/kratos_guard/core/standalone.py).
use kratos_agent_guard.Prelude.{ℕ, String, Bool, true, not, ◌&&◌, Option, none, some, leb, ◌==◌}
use kratos_agent_guard.Text.{has_length, is_digest, is_identifier}
use kratos_agent_guard.Json.{Json, Fields, null, obj, int, str, field, end}
use kratos_agent_guard.Primitives.{Primitives}
use kratos_agent_guard.Signing.Trust.{canonical_bytes}

pub record RuntimeChallenge : Type 0 where
  pub challenge_id : String
  pub nonce : String
  pub issued_at : ℕ
  pub expires_at : ℕ
  pub subject : String
  pub expected_build_id : String
  pub expected_artifact_sha256 : Option String
  pub verifier_key_id : String
  pub signature : String

pub record RuntimeStatement : Type 0 where
  pub statement_id : String
  pub challenge_id : String
  pub nonce : String
  pub observed_at : ℕ
  pub subject : String
  pub runtime_kind : String
  pub producer_scope : String
  pub build_id : String
  pub artifact_sha256 : String
  pub executable_manifest_sha256 : String
  pub process_id : Option ℕ
  pub claims : Fields
  pub producer_key_id : String
  pub signature : String

abbrev is_optional_digest : Option String → Bool
is_optional_digest none = true
is_optional_digest (some d) = is_digest d

-- The constraints of the fields of `RuntimeChallenge`.
unfoldable pub is_valid_challenge : RuntimeChallenge → Bool
is_valid_challenge c =
    is_identifier c.challenge_id
    && has_length 32 200 c.nonce
    && has_length 1 500 c.subject
    && is_optional_digest c.expected_artifact_sha256
    && not (c.verifier_key_id == "")
    && not (c.signature == "")

abbrev is_process : Option ℕ → Bool
is_process none = true
is_process (some n) = leb 1 n

-- The constraints of the fields of `RuntimeStatement`.
unfoldable pub is_valid_statement : RuntimeStatement → Bool
is_valid_statement s =
    is_identifier s.statement_id
    && is_identifier s.challenge_id
    && has_length 32 200 s.nonce
    && has_length 1 500 s.subject
    && has_length 1 100 s.runtime_kind
    && has_length 1 100 s.producer_scope
    && has_length 1 500 s.build_id
    && is_digest s.artifact_sha256
    && is_digest s.executable_manifest_sha256
    && is_process s.process_id
    && not (s.producer_key_id == "")
    && not (s.signature == "")

abbrev optional_text : Option String → Json
optional_text none = null
optional_text (some s) = str s

abbrev optional_number : Option ℕ → Json
optional_number none = null
optional_number (some n) = int n

module _ (p : Primitives) where
  -- `_model_signing_bytes(challenge)`
  unfoldable pub challenge_bytes : RuntimeChallenge → String
  challenge_bytes c = canonical_bytes p (
      obj (
        field "schema_version" (str "kratos-guard.runtime-challenge.v1") (
          field "challenge_id" (str c.challenge_id) (
            field "nonce" (str c.nonce) (
              field "issued_at" (str (p.isoformat c.issued_at)) (
                field "expires_at" (str (p.isoformat c.expires_at)) (
                  field "subject" (str c.subject) (
                    field "expected_build_id" (str c.expected_build_id) (
                      field "expected_artifact_sha256" (optional_text c.expected_artifact_sha256)
                        (field "verifier_key_id" (str c.verifier_key_id) end))))))))))

  -- `_model_signing_bytes(statement)`
  unfoldable pub statement_bytes : RuntimeStatement → String
  statement_bytes s = canonical_bytes p (
      obj (
        field "schema_version" (str "kratos-guard.runtime-statement.v1") (
          field "statement_id" (str s.statement_id) (
            field "challenge_id" (str s.challenge_id) (
              field "nonce" (str s.nonce) (
                field "observed_at" (str (p.isoformat s.observed_at)) (
                  field "subject" (str s.subject) (
                    field "runtime_kind" (str s.runtime_kind) (
                      field "producer_scope" (str s.producer_scope) (
                        field "build_id" (str s.build_id) (
                          field "artifact_sha256" (str s.artifact_sha256) (
                            field "executable_manifest_sha256" (str s.executable_manifest_sha256) (
                              field "process_id" (optional_number s.process_id) (
                                field "claims" (obj s.claims) (
                                  field "producer_key_id" (str s.producer_key_id) end)))))))))))))))
