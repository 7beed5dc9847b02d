-- ===== src/Sealed/Signed.antt =====
-- What a signed attestation is worth, and when a candidate's claims are proven
-- (`sign_attestation` and `verify_attestation_signature` of src/kratos_guard/core/signing.py,
-- `verify_attestation_claims` of src/kratos_guard/core/sealed_build.py).
use kratos_agent_guard.Prelude.{String, ◌≡◌, ◌↔◌, refl, sym, true, some, ◌==◌, eq_refl, arith}
use kratos_agent_guard.Failure.{ok}
use kratos_agent_guard.Primitives.{Primitives, IsSound, written}
use kratos_agent_guard.Signing.Trust.{public_key_payload}
use kratos_agent_guard.Signing.Signatures.{evidence_of, load-public_key_payload}
use kratos_agent_guard.Gate.Qualified.{proven}
use kratos_agent_guard.Sealed.Claims.{
  BuildAttestation, calculate_attestation_integrity, canonicalise_attestation_payload,
  signed_attestation, verify_attestation_signature, attestation_evidence,
}
use kratos_agent_guard.Sealed.Candidate.{Checks, verification_of}

module _ {p : Primitives} (sound : IsSound p) where
  -- A signed attestation is accepted under the public key file of the key that signed it.
  pub verify_attestation_signature-signed :
      (private : String) (a : BuildAttestation)
      → (public_key_payload p private).key_id ≡ a.signing_key_id
      → verify_attestation_signature p
          (signed_attestation p private a)
          (some (written (public_key_payload p private)))
        ≡ ok (evidence_of p private (canonicalise_attestation_payload p a))
  unfolding verify_attestation_signature attestation_evidence signed_attestation
      canonicalise_attestation_payload
  verify_attestation_signature-signed private a named = rw (load-public_key_payload sound private) (
      rw (sound.verify-sign private (canonicalise_attestation_payload p a))
        (rw (sym named) (rw (eq_refl (public_key_payload p private).key_id) refl)))

  -- A signed attestation carries its own hash.
  pub integrity-signed :
      (private : String) (a : BuildAttestation)
      → (calculate_attestation_integrity p (signed_attestation p private a)
          == (signed_attestation p private a).integrity_sha256)
        ≡ true
  unfolding calculate_attestation_integrity signed_attestation canonicalise_attestation_payload
  integrity-signed private a = eq_refl (p.sha256 (canonicalise_attestation_payload p a))

-- The overall state is PROVEN exactly when all six tests pass, and then no boundary is named.
pub verification_of-proven_iff :
    (c : Checks)
    → ((verification_of c).overall_provenance_state ≡ proven) ↔ (
        (c.integrity ≡ true)
        × (c.signature ≡ true)
        × (c.signer ≡ true)
        × (c.source ≡ true)
        × (c.build_input ≡ true)
        × (c.artefact ≡ true))
unfolding verification_of
verification_of-proven_iff c = (λ h. ground (arith, h), λ h. ground (arith, h))
