-- ===== src/Signing/Lifecycle.antt =====
-- `export_trust_bundle`, `rotate_key`, `revoke_key` and `verify_local_payload_signature` of
-- src/kratos_guard/core/signing.py.
use kratos_agent_guard.Prelude.{
  ℕ, String, Bool, true, false, not, Option, none, some, [], ◌∷◌, is_empty, ◌==◌, if◌then◌else◌,
}
use kratos_agent_guard.Failure.{Kind, Result, fail}
use kratos_agent_guard.Text.{strip}
use kratos_agent_guard.Models.{
  KeyRotationRecord, KeyRevocationRecord, SigningKeyIdentity, SignatureEvidence, is_valid_rotation,
  is_valid_revocation,
}
use kratos_agent_guard.Primitives.{Primitives, Stored, written}
use kratos_agent_guard.Signing.Trust.{
  TrustDirectory, public_key_payload, rotation_signing_bytes, revocation_signing_bytes,
  verify_payload_signature,
}
use kratos_agent_guard.Signing.Store.{
  KeyStore, ed25519, Action, ◌>>=◌, ◌>>◌, pure, raise_if, gets, reads, is_some, modify, generate,
  put_key, ed25519_key, inspect_key, write_local_public_key, initialise_key, sign_payload_bytes,
}

-- A file of the first directory where it has one, else of the second.
abbrev overlay {ℓ} : {A : Type ℓ} → Option A → Option A → Option A
overlay (some a) old = some a
overlay none old = old

-- The copies that `export_trust_bundle` makes.
unfoldable pub copy_over : TrustDirectory → TrustDirectory → TrustDirectory
copy_over source destination = record {
  public_key = λ k. overlay (source.public_key k) (destination.public_key k);
  rotation = λ k j. overlay (source.rotation k j) (destination.rotation k j);
  revocation = λ k. overlay (source.revocation k) (destination.revocation k);
}

abbrev pub put_rotation :
    String → String → Stored KeyRotationRecord → TrustDirectory → TrustDirectory
put_rotation previous new text d = record d {
  rotation = λ i j. if i == previous then put_key new text (d.rotation i) j else d.rotation i j;
}

abbrev pub put_revocation : String → Stored KeyRevocationRecord → TrustDirectory → TrustDirectory
put_revocation key_id text d = record d { revocation = put_key key_id text d.revocation }

-- `try: ... finally: lock_path.unlink(missing_ok=True)`, once the lock file is made.
unfoldable pub while_locked {ℓ} : {A : Type ℓ} → Action A → Action A
while_locked m s =
    let (r, s') = m (record s { rotation_lock = true }) in (r, record s' { rotation_lock = false })

module _ (p : Primitives) where
  -- `export_trust_bundle(destination)`, without the list of paths that it returns
  unfoldable pub export_trust_bundle : Action (Unit {0})
  unfolding copy_over
  export_trust_bundle = do
    identity ← initialise_key p
    modify (λ s. record s { exported = copy_over s.trust s.exported })

  -- `load_pem_private_key` and the `isinstance` test, on the private key file
  unfoldable pub load_private : KeyStore → Result String
  load_private s = elim s.private_key [
    | none ↦ fail Kind.file_not_found "No such file or directory"
    | some key ↦ ed25519_key p key
  ]

  unfoldable pub pending_rotation : String → String → ℕ → String → KeyRotationRecord
  pending_rotation previous new now reason = record {
    previous_key_id = previous;
    new_key_id = new;
    rotated_at = now;
    reason = strip reason;
    previous_key_signature = "pending";
    new_key_signature = "pending";
  }

  unfoldable pub signed_rotation : String → String → KeyRotationRecord → KeyRotationRecord
  signed_rotation old_private new_private r = record r {
    previous_key_signature = p.sign old_private (rotation_signing_bytes p r);
    new_key_signature = p.sign new_private (rotation_signing_bytes p r);
  }

  -- The new record beside both public keys: `_write_public_key`, twice, and `open("x")`.
  unfoldable pub publish_rotation : String → String → KeyRotationRecord → Action (Unit {0})
  unfolding write_local_public_key
  publish_rotation old_private new_private r = do
    write_local_public_key p old_private
    write_local_public_key p new_private
    exists ← gets (λ s. is_some (s.trust.rotation r.previous_key_id r.new_key_id))
    raise_if exists Kind.file_exists "File exists"
    modify
        (λ s. record s { trust = put_rotation r.previous_key_id r.new_key_id (written r) s.trust })

  -- The new private key is written beside the old one and then replaces it.
  unfoldable pub replace_private : String → String → Action (Unit {0})
  replace_private new_key_id new_private = do
    clear ← gets (λ s. is_empty s.next_files)
    raise_if (not clear) Kind.file_exists "File exists"
    modify (λ s. record s { next_files = new_key_id ∷ [] })
    modify (λ s. record s { next_files = []; private_key = some (ed25519 new_private) })

  unfoldable pub export_if : Bool → Action (Unit {0})
  unfolding export_trust_bundle
  export_if true = export_trust_bundle
  export_if false = pure tt

  -- What `rotate_key` does while it holds `rotation.lock`.
  unfoldable pub rotate_locked : String → String → String → Bool → ℕ → Action SigningKeyIdentity
  unfolding generate replace_private
  rotate_locked old_key_id old_private reason export now = do
    modify (λ s. record s { next_files = [] })
    new_private ← generate
    let new_key_id = (public_key_payload p new_private).key_id
    let pending = pending_rotation old_key_id new_key_id now reason
    raise_if (not (is_valid_rotation pending)) Kind.value "KeyRotationRecord"
    publish_rotation old_private new_private (signed_rotation old_private new_private pending)
    replace_private new_key_id new_private
    export_if export
    reads (inspect_key p)

  -- What `rotate_key` does from the identity of the old key on.
  unfoldable pub rotate_from : String → Bool → ℕ → SigningKeyIdentity → Action SigningKeyIdentity
  rotate_from reason export now old = do
    old_private ← reads load_private
    locked ← gets (λ s. s.rotation_lock)
    raise_if locked Kind.runtime "KEY_ROTATION_ALREADY_ACTIVE"
    while_locked (rotate_locked old.key_id old_private reason export now)

  -- `rotate_key(reason, trust_directory, now=now)`; `export` says that a directory was given
  unfoldable pub rotate_key : String → Bool → ℕ → Action SigningKeyIdentity
  rotate_key reason export now = do
    raise_if (strip reason == "") Kind.value "rotation reason is required"
    old ← initialise_key p
    rotate_from reason export now old

  unfoldable pub pending_revocation : String → String → ℕ → String → KeyRevocationRecord
  pending_revocation key_id current now reason = record {
    revoked_key_id = key_id;
    authorised_by_key_id = current;
    revoked_at = now;
    reason = strip reason;
    signature = "pending";
  }

  -- `destination.open("x")` and the write of the signed record.
  unfoldable pub publish_revocation : String → KeyRevocationRecord → Action (Unit {0})
  publish_revocation key_id r = do
    exists ← gets (λ s. is_some (s.trust.revocation key_id))
    raise_if exists Kind.file_exists "File exists"
    modify (λ s. record s { trust = put_revocation key_id (written r) s.trust })

  -- `revoke_key(key_id, reason, trust_directory, now=now)`
  unfoldable pub revoke_key : String → String → Bool → ℕ → Action KeyRevocationRecord
  unfolding initialise_key sign_payload_bytes pending_revocation publish_revocation export_if
  revoke_key key_id reason export now = do
    raise_if (strip reason == "") Kind.value "revocation reason is required"
    current ← initialise_key p
    raise_if (key_id == current.key_id) Kind.value "ACTIVE_KEY_MUST_BE_ROTATED_BEFORE_REVOCATION"
    known ← gets (λ s. is_some (s.trust.public_key key_id))
    raise_if (not known) Kind.file_not_found "REVOCATION_KEY_UNKNOWN"
    let pending = pending_revocation key_id current.key_id now reason
    raise_if (not (is_valid_revocation pending)) Kind.value "KeyRevocationRecord"
    signed ← reads (sign_payload_bytes p (revocation_signing_bytes p pending))
    let r = record pending { signature = signed.1 }
    publish_revocation key_id r
    export_if export
    pure r

  -- `verify_local_payload_signature(payload, signature, expected_key_id)`
  unfoldable pub verify_local_payload_signature :
      String → String → String → Action SignatureEvidence
  unfolding initialise_key
  verify_local_payload_signature payload signature expected_key_id = do
    identity ← initialise_key p
    reads (λ s.
        verify_payload_signature p payload signature (s.trust.public_key expected_key_id)
          expected_key_id)
