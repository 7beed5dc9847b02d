-- ===== src/Signing/Signatures.antt =====
-- What a signature by a key of the store is worth to the checks of Signing/Trust.
use kratos_agent_guard.Prelude.{String, ◌≡◌, refl, true, some, eq_refl}
use kratos_agent_guard.Failure.{ok}
use kratos_agent_guard.Models.{SignatureEvidence, signature_valid, trust_root_proven}
use kratos_agent_guard.Primitives.{Primitives, IsSound, written}
use kratos_agent_guard.Signing.Trust.{
  public_key_payload, verify_payload_signature, load_trusted_public_key, is_accepted,
}

abbrev pub evidence_of : Primitives → String → String → SignatureEvidence
evidence_of p private payload = record {
  key_id = (public_key_payload p private).key_id;
  payload_sha256 = p.sha256 payload;
  signature = p.sign private payload;
  signature_state = signature_valid;
  signer_trust_state = trust_root_proven;
}

module _ {p : Primitives} (sound : IsSound p) where
  -- The public key file that the Guard writes for a key loads as that key.
  pub load-public_key_payload :
      (private : String)
      → load_trusted_public_key p (some (written (public_key_payload p private)))
        ≡ ok ((public_key_payload p private).key_id, p.public_bytes private)
  unfolding load_trusted_public_key public_key_payload
  load-public_key_payload private = rw (sound.b64decode-b64encode (p.public_bytes private)) (
      rw (eq_refl (p.sha256 (p.public_bytes private)))
        (rw (sound.is_public_key-public_bytes private)))

  -- What a key signs is accepted under the file that the Guard writes for it.
  pub verify_payload_signature-sign :
      (private payload : String)
      → verify_payload_signature p payload
          (p.sign private payload)
          (some (written (public_key_payload p private)))
          (public_key_payload p private).key_id
        ≡ ok (evidence_of p private payload)
  unfolding verify_payload_signature
  verify_payload_signature-sign private payload =
      rw (load-public_key_payload private) (
        rw (sound.verify-sign private payload) (rw (eq_refl (public_key_payload p private).key_id)))

  -- A public key file under any identifier at all passes for that identifier: the loader compares
  -- the file's fingerprint with its key, and never the identifier with the fingerprint. What the
  -- file's key signs is then accepted as signed by the identifier.
  pub verify_payload_signature-any_key_id :
      (private payload key_id : String)
      → (v : SignatureEvidence) × (verify_payload_signature p payload
            (p.sign private payload)
            (some (written (record (public_key_payload p private) { key_id = key_id })))
            key_id
          ≡ ok v)
        × (v.key_id ≡ key_id)
        × (is_accepted v ≡ true)
  unfolding verify_payload_signature load_trusted_public_key public_key_payload
  verify_payload_signature-any_key_id private payload key_id = (
    record {
      key_id = key_id;
      payload_sha256 = p.sha256 payload;
      signature = p.sign private payload;
      signature_state = signature_valid;
      signer_trust_state = trust_root_proven;
    },
    rw (sound.b64decode-b64encode (p.public_bytes private)) (
        rw (eq_refl (p.sha256 (p.public_bytes private))) (
          rw (sound.is_public_key-public_bytes private)
            (rw (sound.verify-sign private payload) (rw (eq_refl key_id) refl)))),
    refl,
    refl,
  )
