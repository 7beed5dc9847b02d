-- ===== src/Tests/Signing.antt =====
-- Runs of the key store (src/kratos_guard/core/signing.py).
use kratos_agent_guard.Prelude.{◌≡◌, refl, true, false, some, none, [], ◌∷◌}
use kratos_agent_guard.Failure.{ok}
use kratos_agent_guard.Text.{strip}
use kratos_agent_guard.Models.{is_valid_rotation, is_valid_revocation}
use kratos_agent_guard.Signing.Trust.{
  TrustDirectory, public_key_payload, verify_key_rotation, key_revocation_state, revoked,
  rotation_signing_bytes, revocation_signing_bytes, check_revocation, check_rotation,
  verify_payload_signature, load_trusted_public_key, key_id_of,
}
use kratos_agent_guard.Signing.Store.{
  KeyStore, on_posix, posix, ed25519, initialise_key, create_key, inspect_private, inspect_key,
  write_local_public_key, write_public_key, generate, assess_key_storage, sign_payload_bytes,
  restrict_key_directory,
}
use kratos_agent_guard.Signing.Lifecycle.{
  rotate_key, revoke_key, rotate_from, rotate_locked, load_private, while_locked, pending_rotation,
  signed_rotation, publish_rotation, replace_private, export_if, export_trust_bundle,
  pending_revocation, publish_revocation,
}
use kratos_agent_guard.Signing.Permanence.{initialise, rotate, revoke, apply_all, apply_all-Grows}
use kratos_agent_guard.Signing.Growth.{Grows}
use kratos_agent_guard.Signing.Standing.{revoked_for_good, rotated_for_good}
use kratos_agent_guard.Tests.Toy.{toy}

abbrev empty_trust : TrustDirectory
empty_trust = record { public_key = λ k. none; rotation = λ j k. none; revocation = λ k. none }

abbrev pub store : KeyStore
store = record {
  platform = on_posix;
  key_directory = posix 0o700;
  private_key = some (ed25519 "alice");
  rotation_lock = false;
  next_files = [];
  trust = empty_trust;
  exported = empty_trust;
  generator = λ n. "bob";
  generated = 0;
}

-- Everything that a run of the key store's methods computes through.
unfoldable rotate_steps : Unit {0}
unfolding revoke_key rotate_from rotate_locked initialise_key create_key inspect_private inspect_key
    write_local_public_key write_public_key load_private while_locked generate pending_rotation
    signed_rotation publish_rotation replace_private export_if export_trust_bundle strip
    is_valid_rotation is_valid_revocation public_key_payload assess_key_storage
    rotation_signing_bytes revocation_signing_bytes pending_revocation publish_revocation
    sign_payload_bytes verify_key_rotation key_revocation_state check_revocation check_rotation
    verify_payload_signature load_trusted_public_key restrict_key_directory key_id_of
rotate_steps = tt

-- The state and the answer of one rotation.
abbrev rotated_store : KeyStore
rotated_store = (rotate_key toy "scheduled" true 7 store).1

-- After the rotation the old key is revoked.
abbrev revoked_store : KeyStore
revoked_store = (revoke_key toy "ed25519-aaaaaaaaaaaaaaaa" "lost" false 8 rotated_store).1

revoke_run : key_revocation_state toy "ed25519-aaaaaaaaaaaaaaaa" revoked_store.trust ≡ ok revoked
unfolding rotate_key rotate_steps
revoke_run = refl

revoked_for_good_example :
    key_revocation_state toy "ed25519-aaaaaaaaaaaaaaaa"
      (apply_all toy (initialise ∷ rotate "again" false 9 ∷ []) revoked_store).trust
    ≡ ok revoked
revoked_for_good_example =
    revoked_for_good toy (initialise ∷ rotate "again" false 9 ∷ []) revoked_store
      "ed25519-aaaaaaaaaaaaaaaa" revoke_run

rotation_run :
    verify_key_rotation toy "ed25519-aaaaaaaaaaaaaaaa" "ed25519-bbbbbbbbbbbbbbbb"
      rotated_store.trust
    ≡ ok true
unfolding rotate_key rotate_steps
rotation_run = refl

rotated_for_good_example :
    verify_key_rotation toy "ed25519-aaaaaaaaaaaaaaaa" "ed25519-bbbbbbbbbbbbbbbb"
      (apply_all toy (revoke "ed25519-aaaaaaaaaaaaaaaa" "lost" false 8 ∷ []) rotated_store).trust
    ≡ ok true
rotated_for_good_example =
    rotated_for_good toy (revoke "ed25519-aaaaaaaaaaaaaaaa" "lost" false 8 ∷ []) rotated_store
      "ed25519-aaaaaaaaaaaaaaaa" "ed25519-bbbbbbbbbbbbbbbb" rotation_run

apply_all-Grows_example :
    Grows store.trust (apply_all toy (rotate "scheduled" true 7 ∷ []) store).trust
apply_all-Grows_example = apply_all-Grows toy (rotate "scheduled" true 7 ∷ []) store
