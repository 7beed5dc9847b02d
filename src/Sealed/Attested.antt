-- ===== src/Sealed/Attested.antt =====
-- What a build attests verifies (`create_attestation`, `write_candidate_evidence` and
-- `verify_candidate` of src/kratos_guard/core/sealed_build.py).
use kratos_agent_guard.Prelude.{
  ℕ, String, ◌≡◌, refl, sym, ap, ◌∙◌, true, some, List, [], ◌∷◌, eq_refl, arith,
}
use kratos_agent_guard.Failure.{ok}
use kratos_agent_guard.Models.{SigningKeyIdentity}
use kratos_agent_guard.Primitives.{Primitives, IsSound, written}
use kratos_agent_guard.Signing.Trust.{public_key_payload}
use kratos_agent_guard.Signing.Store.{KeyStore, ed25519, inspect_private, inspect_key}
use kratos_agent_guard.Gate.Qualified.{proven}
use kratos_agent_guard.Sealed.Claims.{BuilderIdentity, BuildAttestation, signed_attestation}
use kratos_agent_guard.Sealed.Manifest.{
  PayloadFile, LogicalManifest, BuildContext, attestation_name, artefact_manifest_hash,
  logical_manifest,
}
use kratos_agent_guard.Sealed.Candidate.{
  AttestationVerification, Workspace, Checks, verification_of, first_failing, verify_candidate,
}
use kratos_agent_guard.Sealed.Build.{
  BuildInput, BuildExecution, unsigned_attestation, create_attestation, write_candidate_evidence,
}
use kratos_agent_guard.Sealed.Resigned.{
  inspect_private-private, signs, claims, verify_candidate-resigned,
}

module _ (p : Primitives) where
  inspect_key-private :
      (s : KeyStore) {private : String} {i : SigningKeyIdentity}
      → s.private_key ≡ some (ed25519 private)
      → inspect_key p s ≡ ok i
      → inspect_private p s ≡ ok (i, private)
  unfolding inspect_key inspect_private
  inspect_key-private s here found = ground (arith, here, found)

-- The folder of a candidate before its attestation is written beside the payload.
abbrev built : BuildInput → BuildAttestation → List PayloadFile → Workspace
built m a files = record {
  input_manifest = ok (m.repository_head, m.manifest_sha256);
  attestation = written a;
  extension = files;
}

abbrev all_pass : Checks
all_pass = record {
  integrity = true;
  signature = true;
  signer = true;
  source = true;
  build_input = true;
  artefact = true;
}

module _ (p : Primitives) (x : BuildContext) (candidate_id : String) (m : BuildInput)
    (build : BuildExecution) (policy_hash : String) (builder : BuilderIdentity)
    (reproducibility : String) (now : ℕ) (files : List PayloadFile) where
  abbrev payload : LogicalManifest
  payload = logical_manifest p x files (attestation_name ∷ [])

  abbrev unsigned : String → BuildAttestation
  unsigned =
      unsigned_attestation candidate_id m build payload policy_hash builder reproducibility now

  create_attestation-signed :
      (s : KeyStore) {private : String} {i : SigningKeyIdentity}
      → s.private_key ≡ some (ed25519 private)
      → inspect_key p s ≡ ok i
      → create_attestation p x candidate_id m build payload policy_hash builder reproducibility now
          s
        ≡ ok (signed_attestation p private (unsigned i.key_id))
  unfolding create_attestation
  create_attestation-signed s {private} {i} here found = rw found (
      rw (signs p (unsigned i.key_id) s (i, private) (inspect_key-private p s here found) refl)
        refl)

  claims-unsigned :
      (key_id : String)
      → claims p x
          (unsigned key_id)
          (m.repository_head, m.manifest_sha256)
          (built m (unsigned key_id) files)
        ≡ all_pass
  unfolding unsigned_attestation artefact_manifest_hash
  claims-unsigned key_id =
      rw (eq_refl m.repository_head)
        (rw (eq_refl m.manifest_sha256) (rw (eq_refl payload.manifest_sha256) refl))

  -- Where inspect_key returns the store's Ed25519 key, create_attestation returns on any build. The
  -- candidate that is then written verifies under the key's public key file: the whole is PROVEN, and
  -- no boundary fails.
  pub create_attestation-verifies :
      IsSound p
      → (s : KeyStore) {private : String} {i : SigningKeyIdentity}
      → s.private_key ≡ some (ed25519 private)
      → inspect_key p s ≡ ok i
      → (a : BuildAttestation) × (create_attestation p x candidate_id m build payload policy_hash
            builder reproducibility now s
          ≡ ok a)
        × (v : AttestationVerification) × (verify_candidate p x
              (write_candidate_evidence p x m a files).0
              (some (written (public_key_payload p private)))
            ≡ ok v)
        × (v.overall_provenance_state ≡ proven)
        × (v.first_failing_boundary ≡ "")
  unfolding write_candidate_evidence verification_of first_failing unsigned_attestation
  create_attestation-verifies sound s {private} {i} here found =
      let named = (inspect_private-private p s here (inspect_key-private p s here found)).1 in
      (
        signed_attestation p private (unsigned i.key_id),
        create_attestation-signed s here found,
        verification_of all_pass,
        verify_candidate-resigned p sound x (built m (unsigned i.key_id) files) private
              (unsigned i.key_id) (sym named) refl
            ∙ ap (λ c. ok (verification_of c)) (claims-unsigned i.key_id),
        refl,
        refl,
      )
