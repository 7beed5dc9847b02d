-- ===== src/Signing/Succession.antt =====
-- A key that `rotate_key` puts in place follows its predecessor in the eyes of
-- `verify_key_rotation`.
use kratos_agent_guard.Prelude.{String, ◌≡◌, true, false, some}
use kratos_agent_guard.Failure.{ok}
use kratos_agent_guard.Models.{SigningKeyIdentity}
use kratos_agent_guard.Primitives.{Primitives, IsSound}
use kratos_agent_guard.Signing.Trust.{public_key_payload, verify_key_rotation}
use kratos_agent_guard.Signing.Store.{
  KeyStore, ed25519, continue, ◌>>◌, pure, write_local_public_key, initialise_key, inspect_private,
}

module _ {p : Primitives} (sound : IsSound p) where
  -- The store holds a new key, `i` names it, the trust directory proves the step from the key `k`
  -- to it, and the rotation lock is free.
  abbrev pub IsSucceeded : String → SigningKeyIdentity → KeyStore → Type 0
  IsSucceeded k i t =
      (new : String) × (t.private_key ≡ some (ed25519 new))
      × (i.key_id ≡ (public_key_payload p new).key_id)
      × (verify_key_rotation p (public_key_payload p k).key_id i.key_id t.trust ≡ ok true)
      × (t.rotation_lock ≡ false)

  module _ (k : String) (s : KeyStore) (held : s.private_key ≡ some (ed25519 k)) where
    pub initialise-known :
        initialise_key p s
        ≡ continue (inspect_private p s) (λ f. write_local_public_key p f.1 >> pure f.0) s
    unfolding initialise_key
    initialise-known = simp held
