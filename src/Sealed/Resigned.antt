-- ===== src/Sealed/Resigned.antt =====
-- What `update_reproducibility` of src/kratos_guard/core/sealed_build.py leaves to verify.
use kratos_agent_guard.Prelude.{
  String, ◌≡◌, ◌↔◌, refl, sym, ap, ◌∙◌, true, String-cases, some, [], inl, inr, ◌==◌, eq_refl,
  eq_iff, arith,
}
use kratos_agent_guard.Failure.{ok, Result-cases, ok-injective}
use kratos_agent_guard.Primitives.{Primitives, IsSound, written}
use kratos_agent_guard.Signing.Trust.{public_key_payload}
use kratos_agent_guard.Signing.Store.{KeyStore, ed25519, inspect_private}
use kratos_agent_guard.Gate.Qualified.{proven}
use kratos_agent_guard.Models.{SignatureEvidence, SigningKeyIdentity}
use kratos_agent_guard.Sealed.Claims.{
  BuildAttestation, signed_attestation, sign_attestation, signing_evidence,
}
use kratos_agent_guard.Sealed.Manifest.{
  BuildContext, artefact_manifest_hash, logical_manifest, put_payload,
}
use kratos_agent_guard.Sealed.Candidate.{
  Workspace, AttestationVerification, Checks, verification_of, attestation_file, checks_of,
  parse_attestation, verify_candidate, verify_attestation_claims, update_reproducibility,
}
use kratos_agent_guard.Sealed.Payload.{artefact_manifest_hash-put}
use kratos_agent_guard.Sealed.Signed.{
  integrity-signed, verify_attestation_signature-signed, verification_of-proven_iff,
}

module _ (p : Primitives) where
  -- What the store's key is, where the store gives one to sign with.
  pub inspect_private-private :
      (s : KeyStore) {k private : String} {i : SigningKeyIdentity}
      → s.private_key ≡ some (ed25519 private)
      → inspect_private p s ≡ ok (i, k)
      → (k ≡ private) × (i.key_id ≡ (public_key_payload p private).key_id)
  unfolding inspect_private public_key_payload
  inspect_private-private s here found = ground (arith, here, found)

  pub signs :
      (a : BuildAttestation) (s : KeyStore) (f : SigningKeyIdentity × String)
      → inspect_private p s ≡ ok f
      → f.0.key_id ≡ a.signing_key_id
      → sign_attestation p a s
        ≡ ok
            (signing_evidence p f.0.key_id (signed_attestation p f.1 a), signed_attestation p f.1 a)
  unfolding sign_attestation
  signs a s f found named = rw found (rw named (rw (eq_refl a.signing_key_id) refl))

  -- A signature that returns is by the store's key, which the attestation names.
  pub sign_attestation-ok :
      (a : BuildAttestation) (s : KeyStore) {private : String} {r : _}
      → s.private_key ≡ some (ed25519 private)
      → sign_attestation p a s ≡ ok r
      → ((public_key_payload p private).key_id ≡ a.signing_key_id)
        × (r.1 ≡ signed_attestation p private a)
  unfolding sign_attestation
  sign_attestation-ok a s here signed = elim (Result-cases (inspect_private p s)) [
    | inl (f, found) ↦ elim (String-cases f.0.key_id a.signing_key_id) [
      | inl named ↦ (
        sym (inspect_private-private s here found).1 ∙ named,
        ap (λ x. x.1) (ok-injective (sym signed ∙ signs a s f found named))
            ∙ ap (λ k. signed_attestation p k a) (inspect_private-private s here found).0,
      )
      | inr other ↦ ground (arith, found, other, signed)
    ]
    | inr (e, failed) ↦ ground (arith, failed, signed)
  ]

  -- What `update_reproducibility` signs, and the folder that it leaves.
  abbrev pub reset : String → BuildAttestation → BuildAttestation
  reset state a = record a {
    build_reproducibility_state = state;
    signature = "";
    integrity_sha256 = "";
  }

  abbrev pub resigned : BuildContext → String → BuildAttestation → Workspace → Workspace
  resigned x private a w = record w {
    attestation = written (signed_attestation p private a);
    extension = put_payload p x (attestation_file p x (signed_attestation p private a)) w.extension;
  }

  update_reproducibility-signed :
      (x : BuildContext) (state : String) (s : KeyStore) (w : Workspace) {a : BuildAttestation}
      (f : SignatureEvidence × BuildAttestation)
      → parse_attestation p x w.attestation ≡ ok a
      → sign_attestation p (reset state a) s ≡ ok f
      → update_reproducibility p x state s w ≡ (
          let extension = put_payload p x (attestation_file p x f.1) w.extension in
          ok (
            record w { attestation = written f.1; extension = extension },
            (logical_manifest p x extension []).manifest_sha256,
          ))
  unfolding update_reproducibility
  update_reproducibility-signed x state s w f parsed signed = rw parsed (rw signed refl)

  update_reproducibility-ok :
      (x : BuildContext) (state : String) (s : KeyStore) (w : Workspace) {private : String}
      {a : BuildAttestation} {r : Workspace × String}
      → s.private_key ≡ some (ed25519 private)
      → parse_attestation p x w.attestation ≡ ok a
      → update_reproducibility p x state s w ≡ ok r
      → ((public_key_payload p private).key_id ≡ a.signing_key_id)
        × (r.0 ≡ resigned x private (reset state a) w)
  unfolding update_reproducibility
  update_reproducibility-ok x state s w {private} {a} {r} here parsed updated =
      elim (Result-cases (sign_attestation p (reset state a) s)) [
        | inl (f, signed) ↦
            let key = sign_attestation-ok (reset state a) s here signed in
            (
              key.0,
              ap (λ y. y.0)
                    (ok-injective
                      (sym updated ∙ update_reproducibility-signed x state s w f parsed signed))
                  ∙ ap
                      (λ b. record w {
                        attestation = written b;
                        extension = put_payload p x (attestation_file p x b) w.extension;
                      })
                      key.1,
            )
        | inr (e, failed) ↦ ground (arith, parsed, failed, updated)
      ]

  abbrev pub claims : BuildContext → BuildAttestation → String × String → Workspace → Checks
  claims x a input w = record {
    integrity = true;
    signature = true;
    signer = true;
    source = a.source_head == input.0;
    build_input = a.component_build_input_manifest_hash == input.1;
    artefact = a.artefact_payload_manifest_hash == artefact_manifest_hash p x w.extension;
  }

  pub verify_candidate-resigned :
      IsSound p
      → (x : BuildContext) (w : Workspace) (private : String) (a : BuildAttestation)
        {input : String × String}
      → (public_key_payload p private).key_id ≡ a.signing_key_id
      → w.input_manifest ≡ ok input
      → verify_candidate p x
          (resigned x private a w)
          (some (written (public_key_payload p private)))
        ≡ ok (verification_of (claims x a input w))
  unfolding verify_candidate verify_attestation_claims checks_of signed_attestation
  verify_candidate-resigned sound x w private a named read =
      rw (verify_attestation_signature-signed sound private a named) (
        rw read (
          rw
            (artefact_manifest_hash-put p x (attestation_file p x (signed_attestation p private a))
              w.extension refl)
            rw (integrity-signed sound private a) refl))

  -- A candidate that update_reproducibility has returned, under the store's Ed25519 key, verifies under
  -- that key's public key file: the hash, the signature and the signer are PROVEN, and the whole is
  -- exactly when the attestation's three claims hold of the build input and of the payload as they were
  -- before.
  pub update_reproducibility-verifies :
      IsSound p
      → (x : BuildContext) (state : String) (s : KeyStore) (w : Workspace) {private : String}
        {a : BuildAttestation} {input : String × String} {r : Workspace × String}
      → s.private_key ≡ some (ed25519 private)
      → parse_attestation p x w.attestation ≡ ok a
      → w.input_manifest ≡ ok input
      → update_reproducibility p x state s w ≡ ok r
      → (v : AttestationVerification) × (verify_candidate p x r.0
            (some (written (public_key_payload p private)))
          ≡ ok v)
        × (v.integrity_state ≡ proven)
        × (v.signature_state ≡ proven)
        × (v.signer_trust_state ≡ proven)
        × ((v.overall_provenance_state ≡ proven) ↔ (
            (a.source_head ≡ input.0)
            × (a.component_build_input_manifest_hash ≡ input.1)
            × (a.artefact_payload_manifest_hash ≡ artefact_manifest_hash p x w.extension)))
  unfolding verification_of
  update_reproducibility-verifies sound x state s w {private} {a} {input} here parsed read updated =
      let step = update_reproducibility-ok x state s w here parsed updated in
      (
        verification_of (claims x a input w),
        ap (λ u. verify_candidate p x u (some (written (public_key_payload p private)))) step.1
            ∙ verify_candidate-resigned sound x w private (reset state a) step.0 read,
        refl,
        refl,
        refl,
        (
          λ overall.
              let passed = (verification_of-proven_iff (claims x a input w)).0 overall in
              (
                (eq_iff a.source_head input.0).0 passed.3,
                (eq_iff a.component_build_input_manifest_hash input.1).0 passed.4,
                (eq_iff a.artefact_payload_manifest_hash (artefact_manifest_hash p x w.extension)).0
                    passed.5,
              ),
          λ h. (verification_of-proven_iff (claims x a input w)).1 (
            refl,
            refl,
            refl,
            (eq_iff a.source_head input.0).1 h.0,
            (eq_iff a.component_build_input_manifest_hash input.1).1 h.1,
            (eq_iff a.artefact_payload_manifest_hash (artefact_manifest_hash p x w.extension)).1
                h.2,
          ),
        ),
      )
