-- ===== src/Models.antt =====
-- The records of src/kratos_guard/models/standalone.py and models/build.py that the
-- key store and the ledger keep. A time is a number of microseconds.
use kratos_agent_guard.Prelude.{ℕ, String, Bool, ◌&&◌, not, leb, ◌==◌}
use kratos_agent_guard.Text.{is_digest, is_event_type, has_length}
use kratos_agent_guard.Json.{Json}

-- The JSON object that `_public_key_payload` builds.
pub record PublicKeyFile : Type 0 where
  pub algorithm : String
  pub key_id : String
  pub public_key_fingerprint : String
  pub public_key_base64 : String

pub record KeyRotationRecord : Type 0 where
  pub previous_key_id : String
  pub new_key_id : String
  pub rotated_at : ℕ
  pub reason : String
  pub previous_key_signature : String
  pub new_key_signature : String

pub record KeyRevocationRecord : Type 0 where
  pub revoked_key_id : String
  pub authorised_by_key_id : String
  pub revoked_at : ℕ
  pub reason : String
  pub signature : String

pub record LedgerEntry : Type 0 where
  pub sequence : ℕ
  pub recorded_at : ℕ
  pub event_type : String
  pub subject : String
  pub payload : Json
  pub previous_entry_hash : String
  pub signing_key_id : String
  pub signature : String
  pub entry_hash : String

pub record KeyStorageAssessment : Type 0 where
  pub is_present : Bool
  pub restrictive_acl : Bool
  pub broadly_writable : Bool

pub record SigningKeyIdentity : Type 0 where
  pub key_id : String
  pub public_key_fingerprint : String
  pub storage : KeyStorageAssessment

pub data SignatureState : Type 0 where
  signature_valid signature_invalid signature_revoked unproven : SignatureState

pub data SignerTrustState : Type 0 where
  trust_root_proven signer_untrusted : SignerTrustState

pub record SignatureEvidence : Type 0 where
  pub key_id : String
  pub payload_sha256 : String
  pub signature : String
  pub signature_state : SignatureState
  pub signer_trust_state : SignerTrustState

-- What the constructors of the records check (`Field(ge=..., min_length=..., pattern=...)`).
unfoldable pub is_valid_entry : LedgerEntry → Bool
unfolding is_digest is_event_type has_length
is_valid_entry e =
    leb 1 e.sequence
    && is_event_type e.event_type
    && has_length 1 500 e.subject
    && is_digest e.previous_entry_hash
    && not (e.signing_key_id == "")
    && not (e.signature == "")
    && is_digest e.entry_hash

unfoldable pub is_valid_rotation : KeyRotationRecord → Bool
unfolding has_length
is_valid_rotation r =
    not (r.previous_key_id == "")
    && not (r.new_key_id == "")
    && has_length 1 500 r.reason
    && not (r.previous_key_signature == "")
    && not (r.new_key_signature == "")

unfoldable pub is_valid_revocation : KeyRevocationRecord → Bool
unfolding has_length
is_valid_revocation r =
    not (r.revoked_key_id == "")
    && not (r.authorised_by_key_id == "")
    && has_length 1 500 r.reason
    && not (r.signature == "")
