-- ===== src/Attestation/Roundtrip.antt =====
-- A challenge that the Guard issues, answered by its own synthetic statement, verifies.
use mathlib.Core.Path.{subst}
use kratos_agent_guard.Prelude.{
  ℕ, String, ◌≡◌, ◌≢◌, refl, ap, none, some, [], ltb, ◌||◌, arith, eq_refl, eq_iff, inl, inr,
  Bool-cases,
}
use kratos_agent_guard.Failure.{Result, ok, Result-cases}
use kratos_agent_guard.Models.{PublicKeyFile, SignatureEvidence, signature_valid, trust_root_proven}
use kratos_agent_guard.Primitives.{Primitives, IsSound, written}
use kratos_agent_guard.Signing.Trust.{
  public_key_payload, verify_payload_signature, load_trusted_public_key,
}
use kratos_agent_guard.Signing.Store.{
  KeyStore, ed25519, inspect_key, inspect_private, sign_payload_bytes,
}
use kratos_agent_guard.Signing.Signatures.{evidence_of, verify_payload_signature-sign}
use kratos_agent_guard.Signing.Rotation.{inspect_key-id}
use kratos_agent_guard.Attestation.Records.{
  RuntimeChallenge, RuntimeStatement, challenge_bytes, statement_bytes, is_valid_statement,
}
use kratos_agent_guard.Attestation.Verify.{
  Attempt, ReplayRoot, verify_runtime_statement, RuntimeAttestationVerification,
  fail_runtime_attestation,
}
use kratos_agent_guard.Attestation.Authentic.{Answers, Within}
use kratos_agent_guard.Attestation.Passing.{Authentic, verify_runtime_statement_complete}
use kratos_agent_guard.Attestation.Issue.{
  ChallengeRequest, SyntheticRequest, pending_challenge, sign_challenge, issue_runtime_challenge,
  ephemeral_trust_root, pending_statement, create_synthetic_runtime_statement,
}

module _ {p : Primitives} (sound : IsSound p) where
  abbrev synthetic_evidence : String → String → SignatureEvidence
  synthetic_evidence private payload = record {
    key_id = (ephemeral_trust_root p private).key_id;
    payload_sha256 = p.sha256 payload;
    signature = p.sign private payload;
    signature_state = signature_valid;
    signer_trust_state = trust_root_proven;
  }

  verify_payload_signature-ephemeral :
      (private payload : String)
      → verify_payload_signature p payload
          (p.sign private payload)
          (some (written (ephemeral_trust_root p private)))
          (ephemeral_trust_root p private).key_id
        ≡ ok (synthetic_evidence private payload)
  unfolding verify_payload_signature load_trusted_public_key ephemeral_trust_root
  verify_payload_signature-ephemeral private payload =
      rw (sound.b64decode-b64encode (p.public_bytes private)) (
        rw (eq_refl (p.sha256 (p.public_bytes private))) (
          rw (sound.is_public_key-public_bytes private) (
            rw (sound.verify-sign private payload)
              (rw (eq_refl (ephemeral_trust_root p private).key_id) refl))))

  abbrev signed_by : String → RuntimeChallenge → RuntimeChallenge
  signed_by k c = record c { signature = p.sign k (challenge_bytes p c) }

  abbrev signed_statement : String → RuntimeStatement → RuntimeStatement
  signed_statement k st = record st { signature = p.sign k (statement_bytes p st) }

  sign_challenge-ok :
      (k : String) (s : KeyStore) (pending c : RuntimeChallenge)
      → s.private_key ≡ some (ed25519 k)
      → sign_challenge p pending s ≡ ok c
      → (signed_by k pending ≡ c) × (pending.verifier_key_id ≡ (public_key_payload p k).key_id)
  unfolding sign_challenge sign_payload_bytes inspect_private public_key_payload
  sign_challenge-ok k s pending c held h =
      ground (arith, held, eq_iff (public_key_payload p k).key_id pending.verifier_key_id)

  issue_runtime_challenge-ok :
      (k : String) (s : KeyStore) (r : ChallengeRequest) (c : RuntimeChallenge)
      → s.private_key ≡ some (ed25519 k)
      → issue_runtime_challenge p r s ≡ ok c
      → signed_by k (pending_challenge r (public_key_payload p k).key_id) ≡ c
  unfolding issue_runtime_challenge
  issue_runtime_challenge-ok k s r c held h =
      elim (Bool-cases (ltb r.ttl_seconds 1 || ltb 3600 r.ttl_seconds)) [
        | inl refused ↦ cc (rw (refused, issue_runtime_challenge) at h)
        | inr in_range ↦ elim (Result-cases (inspect_key p s)) [
          | inr (x, failed) ↦ cc (rw (in_range, failed, issue_runtime_challenge) at h)
          | inl (i, found) ↦
              let signed =
                sign_challenge-ok k s (pending_challenge r i.key_id) c held
                  (rw (in_range, found, issue_runtime_challenge) at h) in
              subst (λ (x : String). signed_by k (pending_challenge r x) ≡ c)
                (inspect_key-id p s k i held found) signed.0
        ]
      ]

  create_synthetic-ok :
      (c : RuntimeChallenge) (q : SyntheticRequest) (st : RuntimeStatement) (trust : PublicKeyFile)
      → create_synthetic_runtime_statement p c q ≡ ok (st, trust)
      → (signed_statement q.private (pending_statement p c q) ≡ st)
        × (ephemeral_trust_root p q.private ≡ trust)
  unfolding create_synthetic_runtime_statement
  create_synthetic-ok c q st trust h =
      elim (Bool-cases (is_valid_statement (pending_statement p c q))) [
        | inr refused ↦ cc (rw (refused, create_synthetic_runtime_statement) at h)
        | inl valid ↦ ground (arith, rw (valid, create_synthetic_runtime_statement) at h)
      ]

  -- The signature of an issued challenge is accepted under the key's public file.
  challenge-verified :
      (k : String) (r : ChallengeRequest)
      → let c = signed_by k (pending_challenge r (public_key_payload p k).key_id) in
        verify_payload_signature p
          (challenge_bytes p c)
          c.signature
          (some (written (public_key_payload p k)))
          c.verifier_key_id
        ≡ ok (evidence_of p k (challenge_bytes p c))
  unfolding pending_challenge challenge_bytes
  challenge-verified k r = verify_payload_signature-sign sound k _

  statement-verified :
      (c : RuntimeChallenge) (q : SyntheticRequest)
      → let st = signed_statement q.private (pending_statement p c q) in
        verify_payload_signature p
          (statement_bytes p st)
          st.signature
          (some (written (ephemeral_trust_root p q.private)))
          st.producer_key_id
        ≡ ok (synthetic_evidence q.private (statement_bytes p st))
  unfolding pending_statement statement_bytes
  statement-verified c q = verify_payload_signature-ephemeral q.private _

  abbrev pub answer_attempt :
      String → RuntimeChallenge → RuntimeStatement → PublicKeyFile → ℕ → Attempt
  answer_attempt k c st trust now = record {
    challenge = c;
    statement = st;
    guard_trust = some (written (public_key_payload p k));
    producer_trust = some (written trust);
    now = now;
    raced = none;
  }

  -- What the challenge expects of a build and an artifact, and when the answer is made and checked.
  pub record Fits (c : RuntimeChallenge) (st : RuntimeStatement) (now : ℕ) : Type 0 where
    pub checked_in_time : Within c now
    pub observed_in_time : Within c st.observed_at
    pub build : c.expected_build_id ≢ "" → st.build_id ≡ c.expected_build_id
    pub artifact :
        (d : String) → c.expected_artifact_sha256 ≡ some d → d ≢ "" → st.artifact_sha256 ≡ d

  pending-Answers :
      (k : String) (r : ChallengeRequest) (q : SyntheticRequest) (now : ℕ)
      → let c = signed_by k (pending_challenge r (public_key_payload p k).key_id) in
        let st = signed_statement q.private (pending_statement p c q) in
        Fits c st now → Answers c st now
  unfolding pending_statement
  pending-Answers k r q now fits = record {
    same_challenge = refl;
    same_nonce = refl;
    same_subject = refl;
    checked_in_time = fits.checked_in_time;
    observed_in_time = fits.observed_in_time;
    build = fits.build;
    artifact = fits.artifact;
  }

  pending-Authentic :
      (k : String) (r : ChallengeRequest) (q : SyntheticRequest) (now : ℕ)
      → let c = signed_by k (pending_challenge r (public_key_payload p k).key_id) in
        let st = signed_statement q.private (pending_statement p c q) in
        Fits c st now → Authentic p (answer_attempt k c st (ephemeral_trust_root p q.private) now)
  pending-Authentic k r q now fits =
      let c = signed_by k (pending_challenge r (public_key_payload p k).key_id) in
      record {
        challenge_evidence = evidence_of p k (challenge_bytes p c);
        challenge_verified = challenge-verified k r;
        challenge_accepted = refl;
        producer_evidence =
            synthetic_evidence q.private
              (statement_bytes p (signed_statement q.private (pending_statement p c q)));
        producer_verified = statement-verified c q;
        producer_accepted = refl;
        answers = pending-Answers k r q now fits;
      }

  -- A challenge issued by the store's key and answered by a synthetic statement passes under the
  -- store's public key file and the trust file of the answer, without a blocker, if its replay
  -- marker is not there, the answer is made and checked within its window, and it fits what the
  -- challenge expects of a build and an artifact.
  pub synthetic_answer_verifies :
      (k : String) (s : KeyStore) (r : ChallengeRequest) (q : SyntheticRequest) (now : ℕ)
      (markers : ReplayRoot) (c : RuntimeChallenge) (st : RuntimeStatement) (trust : PublicKeyFile)
      → s.private_key ≡ some (ed25519 k)
      → issue_runtime_challenge p r s ≡ ok c
      → create_synthetic_runtime_statement p c q ≡ ok (st, trust)
      → Fits c st now
      → markers c.challenge_id ≡ none
      → (v : RuntimeAttestationVerification) × ((verify_runtime_statement p
            (answer_attempt k c st trust now)
            markers).0
          ≡ ok v)
        × (v.blockers ≡ [])
        × (v.verdict ≢ fail_runtime_attestation)
  synthetic_answer_verifies k s r q now markers c st trust held issued created fits free =
      let same_c = issue_runtime_challenge-ok k s r c held issued in
      let (same_st, same_trust) = create_synthetic-ok c q st trust created in
      let authentic : Authentic p (answer_attempt k c st trust now) =
        subst (λ (t : PublicKeyFile). Authentic p (answer_attempt k c st t now)) same_trust
          (subst
            (λ (x : RuntimeStatement).
              Fits c x now
              → Authentic p (answer_attempt k c x (ephemeral_trust_root p q.private) now))
            same_st
            (subst
              (λ (x : RuntimeChallenge).
                Fits x (signed_statement q.private (pending_statement p x q)) now
                → Authentic p (
                    answer_attempt k x (signed_statement q.private (pending_statement p x q))
                      (ephemeral_trust_root p q.private) now))
              same_c (pending-Authentic k r q now))
            fits) in
      let (v, verified, clear, passes) =
        verify_runtime_statement_complete p (answer_attempt k c st trust now) markers authentic free
          refl in
      (
        v,
        ap (λ (x : Result RuntimeAttestationVerification × ReplayRoot). x.0) verified,
        clear,
        passes,
      )
