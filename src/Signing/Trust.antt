-- ===== src/Signing/Trust.antt =====
-- The trust directory and the checks that only read it: `load_trusted_public_key`,
-- `verify_payload_signature`, `verify_key_rotation` and `key_revocation_state` of
-- src/kratos_guard/core/signing.py.
use Prim.Native.String.{◌++◌}
use kratos_agent_guard.Prelude.{
  String, Bool, true, false, not, ◌&&◌, ◌||◌, Option, none, some, ◌==◌, if◌then◌else◌,
}
use kratos_agent_guard.Failure.{Kind, Result, ok, fail, ◌>>=◌, ◌>>◌, raise_if, recover}
use kratos_agent_guard.Text.{first_sixteen}
use kratos_agent_guard.Json.{Json, obj, str, field, end, sort_keys}
use kratos_agent_guard.Models.{
  PublicKeyFile, KeyRotationRecord, KeyRevocationRecord, SignatureState, SignerTrustState,
  SignatureEvidence, signature_valid, signature_invalid, trust_root_proven, signer_untrusted,
  is_valid_rotation, is_valid_revocation,
}
use kratos_agent_guard.Primitives.{Primitives, Stored, written, foreign}

-- The files of a trust directory: `{key_id}.pub.json`, `rotations/{previous}-to-{new}.json` and
-- `revocations/{key_id}.json`.
pub record TrustDirectory : Type 0 where
  pub public_key : String → Option (Stored PublicKeyFile)
  pub rotation : String → String → Option (Stored KeyRotationRecord)
  pub revocation : String → Option (Stored KeyRevocationRecord)

-- A path that is a public key file, a directory, or neither; the last two stand in a directory.
pub data TrustPath : Type 0 where
  file : Stored PublicKeyFile → TrustDirectory → TrustPath
  directory : TrustDirectory → TrustPath
  missing : TrustDirectory → TrustPath

-- `trusted_key_path(trust_path, key_id)`, as the file that stands there
unfoldable pub trusted_key_path : TrustPath → String → Option (Stored PublicKeyFile)
trusted_key_path (file f parent) key_id = some f
trusted_key_path (directory d) key_id = d.public_key key_id
trusted_key_path (missing parent) key_id = none

-- `state == "SIGNATURE_VALID"` and `state == "TRUST_ROOT_PROVEN"`
abbrev pub is_valid : SignatureState → Bool
is_valid SignatureState.signature_valid = true
is_valid SignatureState.signature_invalid = false
is_valid SignatureState.signature_revoked = false
is_valid SignatureState.unproven = false

abbrev pub is_proven : SignerTrustState → Bool
is_proven SignerTrustState.trust_root_proven = true
is_proven SignerTrustState.signer_untrusted = false

abbrev pub is_accepted : SignatureEvidence → Bool
is_accepted e = is_valid e.signature_state && is_proven e.signer_trust_state

-- What `key_revocation_state` answers.
pub data RevocationState : Type 0 where
  not_revoked revocation_invalid revoked : RevocationState

module _ (p : Primitives) where
  open p use {
    sha256, dumps, isoformat, b64encode, b64decode, public_bytes, is_public_key, verify,
    read_public_key, read_rotation, read_revocation,
  }

  -- `_canonical_bytes(payload)`
  unfoldable pub canonical_bytes : Json → String
  canonical_bytes payload = dumps (sort_keys payload)

  -- `f"ed25519-{fingerprint[:16]}"`
  unfoldable pub key_id_of : String → String
  unfolding first_sixteen
  key_id_of fingerprint = "ed25519-" ++ first_sixteen fingerprint

  unfoldable pub public_key_payload : String → PublicKeyFile
  public_key_payload private = record {
    algorithm = "Ed25519";
    key_id = key_id_of (sha256 (public_bytes private));
    public_key_fingerprint = sha256 (public_bytes private);
    public_key_base64 = b64encode (public_bytes private);
  }

  unfoldable pub rotation_signing_bytes : KeyRotationRecord → String
  unfolding canonical_bytes
  rotation_signing_bytes r = canonical_bytes (
      obj (
        field "schema_version" (str "kratos-guard.key-rotation.v1") (
          field "previous_key_id" (str r.previous_key_id) (
            field "new_key_id" (str r.new_key_id) (
              field "rotated_at" (str (isoformat r.rotated_at))
                (field "reason" (str r.reason) end))))))

  unfoldable pub revocation_signing_bytes : KeyRevocationRecord → String
  unfolding canonical_bytes
  revocation_signing_bytes r = canonical_bytes (
      obj (
        field "schema_version" (str "kratos-guard.key-revocation.v1") (
          field "revoked_key_id" (str r.revoked_key_id) (
            field "authorised_by_key_id" (str r.authorised_by_key_id) (
              field "revoked_at" (str (isoformat r.revoked_at))
                (field "reason" (str r.reason) end))))))

  abbrev pub parse_public_key : Stored PublicKeyFile → Result PublicKeyFile
  parse_public_key (written f) = ok f
  parse_public_key (foreign s) = read_public_key s

  abbrev pub parse_rotation : Stored KeyRotationRecord → Result KeyRotationRecord
  parse_rotation (written r) =
      if is_valid_rotation r then ok r else fail Kind.value "KeyRotationRecord"
  parse_rotation (foreign s) = read_rotation s

  abbrev pub parse_revocation : Stored KeyRevocationRecord → Result KeyRevocationRecord
  parse_revocation (written r) =
      if is_valid_revocation r then ok r else fail Kind.value "KeyRevocationRecord"
  parse_revocation (foreign s) = read_revocation s

  -- The trusted key's identifier and its raw public key.
  check_public_key : PublicKeyFile → Option String → Result (String × String)
  check_public_key f none = fail Kind.value "Incorrect padding"
  check_public_key f (some bytes) = do
    raise_if (not (sha256 bytes == f.public_key_fingerprint)) Kind.value
        "trusted public-key fingerprint mismatch"
    raise_if (not (is_public_key bytes)) Kind.value "An Ed25519 public key is 32 bytes long"
    ok (f.key_id, bytes)

  unfoldable pub load_trusted_public_key : Option (Stored PublicKeyFile) → Result (String × String)
  unfolding check_public_key
  load_trusted_public_key none = fail Kind.file_not_found "No such file or directory"
  load_trusted_public_key (some text) = do
    f ← parse_public_key text
    check_public_key f (b64decode f.public_key_base64)

  evidence : String → String → String → String × String → SignatureEvidence
  evidence payload signature expected_key_id (key_id, public) = record {
    key_id = expected_key_id;
    payload_sha256 = sha256 payload;
    signature = signature;
    signature_state =
        if verify public signature payload then signature_valid else signature_invalid;
    signer_trust_state = if key_id == expected_key_id then trust_root_proven else signer_untrusted;
  }

  -- `verify_payload_signature(payload, signature, trusted_key_path, expected_key_id)`
  unfoldable pub verify_payload_signature :
      String → String → Option (Stored PublicKeyFile) → String → Result SignatureEvidence
  unfolding evidence
  verify_payload_signature payload signature trusted expected_key_id = do
    trust ← load_trusted_public_key trusted
    ok (evidence payload signature expected_key_id trust)

  -- The body of the `try` in `verify_key_rotation`, on the record that was read.
  unfoldable pub check_rotation : String → String → TrustDirectory → KeyRotationRecord → Result Bool
  check_rotation previous_key_id new_key_id d r =
      if not (r.previous_key_id == previous_key_id) || not (r.new_key_id == new_key_id)
      then ok false
      else do
        previous ←
            verify_payload_signature (rotation_signing_bytes r) r.previous_key_signature
              (d.public_key previous_key_id) previous_key_id
        new ←
            verify_payload_signature (rotation_signing_bytes r) r.new_key_signature
              (d.public_key new_key_id) new_key_id
        ok (is_accepted previous && is_accepted new)

  abbrev pub rotation_answer :
      String → String → TrustDirectory → Option (Stored KeyRotationRecord) → Result Bool
  rotation_answer previous_key_id new_key_id d none = ok false
  rotation_answer previous_key_id new_key_id d (some text) =
      recover (parse_rotation text >>= check_rotation previous_key_id new_key_id d) false

  unfoldable pub verify_key_rotation : String → String → TrustDirectory → Result Bool
  verify_key_rotation previous_key_id new_key_id d =
      rotation_answer previous_key_id new_key_id d (d.rotation previous_key_id new_key_id)

  unfoldable pub check_revocation :
      String → TrustDirectory → KeyRevocationRecord → Result RevocationState
  check_revocation key_id d r =
      if not (r.revoked_key_id == key_id) then ok revocation_invalid else do
        verification ←
            verify_payload_signature (revocation_signing_bytes r) r.signature
              (d.public_key r.authorised_by_key_id) r.authorised_by_key_id
        ok (if is_accepted verification then revoked else revocation_invalid)

  abbrev pub revocation_answer :
      String → TrustDirectory → Option (Stored KeyRevocationRecord) → Result RevocationState
  revocation_answer key_id d none = ok not_revoked
  revocation_answer key_id d (some text) =
      recover (parse_revocation text >>= check_revocation key_id d) revocation_invalid

  unfoldable pub key_revocation_state : String → TrustDirectory → Result RevocationState
  key_revocation_state key_id d = revocation_answer key_id d (d.revocation key_id)

  -- `is_key_revoked`
  unfoldable pub is_key_revoked : String → TrustDirectory → Result Bool
  is_key_revoked key_id d = do
    state ← key_revocation_state key_id d
    ok (elim state [ not_revoked ↦ false | _ ↦ true ])
