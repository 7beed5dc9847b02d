-- ===== src/Attestation/Passing.antt =====
-- `verify_runtime_statement` passes exactly the authentic, unused answers.
use kratos_agent_guard.Prelude.{
  String, ◌≡◌, ◌≢◌, refl, sym, ap, ◌∙◌, inl, inr, true, not, Option, none, List, [], ◌∷◌, arith,
  Option-cases,
}
use kratos_agent_guard.Failure.{Result, ok, Result-cases, ok-injective}
use kratos_agent_guard.Models.{SignatureEvidence}
use kratos_agent_guard.Primitives.{Primitives}
use kratos_agent_guard.Signing.Trust.{verify_payload_signature, is_accepted}
use kratos_agent_guard.Signing.Store.{put_key}
use kratos_agent_guard.Attestation.Records.{RuntimeStatement, challenge_bytes, statement_bytes}
use kratos_agent_guard.Attestation.Verify.{
  Outcome, unused, Blocker, challenge_signature_invalid, producer_signature_invalid, Attempt,
  ReplayMarker, ReplayRoot, signature_blockers, found_blockers, verify_signatures, settle_replay,
  settle, report, marker_of, verify_runtime_statement, RuntimeAttestationVerification,
  fail_runtime_attestation, attestation_verdict,
}
use kratos_agent_guard.Attestation.Authentic.{
  Answers, note_if-nil, content_blockers-nil, content_blockers-Answers,
}

-- Both records carry trusted signatures, and the statement answers the challenge.
pub record Authentic (p : Primitives) (a : Attempt) : Type 0 where
  pub challenge_evidence : SignatureEvidence
  pub challenge_verified :
      verify_payload_signature p
        (challenge_bytes p a.challenge)
        a.challenge.signature
        a.guard_trust
        a.challenge.verifier_key_id
      ≡ ok challenge_evidence
  pub challenge_accepted : is_accepted challenge_evidence ≡ true
  pub producer_evidence : SignatureEvidence
  pub producer_verified :
      verify_payload_signature p
        (statement_bytes p a.statement)
        a.statement.signature
        a.producer_trust
        a.statement.producer_key_id
      ≡ ok producer_evidence
  pub producer_accepted : is_accepted producer_evidence ≡ true
  pub answers : Answers a.challenge a.statement a.now

module _ (p : Primitives) (a : Attempt) where
  verify_signatures-ok :
      (c s : SignatureEvidence)
      → verify_signatures p a ≡ ok (c, s)
      → (verify_payload_signature p
            (challenge_bytes p a.challenge)
            a.challenge.signature
            a.guard_trust
            a.challenge.verifier_key_id
          ≡ ok c)
        × (verify_payload_signature p
              (statement_bytes p a.statement)
              a.statement.signature
              a.producer_trust
              a.statement.producer_key_id
            ≡ ok s)
  unfolding verify_signatures
  verify_signatures-ok c s h = ground arith

  found_blockers-nil :
      (c s : SignatureEvidence)
      → found_blockers p a c s ≡ []
      → (is_accepted c ≡ true) × (is_accepted s ≡ true) × Answers a.challenge a.statement a.now
  unfolding found_blockers signature_blockers
  found_blockers-nil c s h =
      let (x, h1) = note_if-nil (not (is_accepted c)) challenge_signature_invalid h in
      let (y, h2) = note_if-nil (not (is_accepted s)) producer_signature_invalid h1 in
      (ground (arith, x), ground (arith, y), content_blockers-nil a.challenge a.statement a.now h2)

settle_replay-clear :
    (found : List Blocker) (id : String) (m : ReplayMarker) (raced : Option ReplayMarker)
    (r : ReplayRoot)
    → (settle_replay found id m raced r).blockers ≡ []
    → (found ≡ [])
      × (r id ≡ none)
      × (raced ≡ none)
      × ((settle_replay found id m raced r).markers ≡ put_key id m r)
unfolding settle_replay
settle_replay-clear [] id m raced r h = elim (Option-cases (r id)) [
  | inr (x, taken) ↦ cc (rw taken at h)
  | inl free ↦ elim (Option-cases raced) [
    | inr (x, lost) ↦ cc (rw (free, lost) at h)
    | inl alone ↦ (refl, free, alone, rw (free, alone) refl)
  ]
]
settle_replay-clear (b ∷ bs) id m raced r h = elim (Option-cases (r id)) [
  | inr (x, taken) ↦ cc (rw taken at h)
  | inl free ↦ cc (rw free at h)
]

attestation_verdict-pass :
    (bs : List Blocker) (st : RuntimeStatement)
    → attestation_verdict bs st ≢ fail_runtime_attestation
    → bs ≡ []
unfolding attestation_verdict
attestation_verdict-pass [] st h = refl
attestation_verdict-pass (b ∷ bs) st h = absurd (h refl)

-- A statement that passes is authentic: both signatures are by trusted keys, the statement names
-- the challenge, its nonce, its subject and what it expects, and both times lie in the challenge's
-- window. The challenge had no replay marker, and now it has one.
pub verify_runtime_statement_sound :
    (p : Primitives) (a : Attempt) (r r' : ReplayRoot) (v : RuntimeAttestationVerification)
    → verify_runtime_statement p a r ≡ (ok v, r')
    → v.verdict ≢ fail_runtime_attestation
    → Authentic p a
      × (r a.challenge.challenge_id ≡ none)
      × (r' ≡ put_key a.challenge.challenge_id (marker_of p a) r)
unfolding verify_runtime_statement report settle
verify_runtime_statement_sound p a r r' v h pass = elim (Result-cases (verify_signatures p a)) [
  | inr (x, failed) ↦ cc (rw (failed, verify_runtime_statement) at h)
  | inl ((c, s), signed) ↦
      let h1 = rw (signed, verify_runtime_statement) at h in
      let same =
        ok-injective (ap (λ (x : Result RuntimeAttestationVerification × ReplayRoot). x.0) h1) in
      let left = ap (λ (x : Result RuntimeAttestationVerification × ReplayRoot). x.1) h1 in
      let none_left = attestation_verdict-pass (settle p a (c, s) r).blockers a.statement (λ fails.
        pass (sym (ap (λ (x : RuntimeAttestationVerification). x.verdict) same) ∙ fails)) in
      let (clear, free, alone, marked) =
        settle_replay-clear (found_blockers p a c s) a.challenge.challenge_id (marker_of p a)
          a.raced r none_left in
      let (challenge_verified, producer_verified) = verify_signatures-ok p a c s signed in
      let (challenge_accepted, producer_accepted, answers) = found_blockers-nil p a c s clear in
      (
        record {
          challenge_evidence = c;
          challenge_verified = challenge_verified;
          challenge_accepted = challenge_accepted;
          producer_evidence = s;
          producer_verified = producer_verified;
          producer_accepted = producer_accepted;
          answers = answers;
        },
        free,
        sym left ∙ marked,
      )
]

unfoldable settled : (p : Primitives) (a : Attempt) (r : ReplayRoot) → Outcome
settled p a r = record {
  blockers = [];
  replay_state = unused;
  markers = put_key a.challenge.challenge_id (marker_of p a) r;
}

settle-Authentic :
    (p : Primitives) (a : Attempt) (r : ReplayRoot) (authentic : Authentic p a)
    → r a.challenge.challenge_id ≡ none
    → a.raced ≡ none
    → settle p a (authentic.challenge_evidence, authentic.producer_evidence) r ≡ settled p a r
unfolding settled settle settle_replay found_blockers signature_blockers
settle-Authentic p a r authentic free alone =
    rw
      (
        authentic.challenge_accepted,
        authentic.producer_accepted,
        content_blockers-Answers a.challenge a.statement a.now authentic.answers,
        free,
        alone,
      )
      refl

attestation_verdict-clear :
    (st : RuntimeStatement) → attestation_verdict [] st ≢ fail_runtime_attestation
unfolding attestation_verdict
attestation_verdict-clear st h = ground arith

-- An authentic statement on an unused challenge passes without a blocker, and its marker is
-- written, unless another process writes one in the meantime.
pub verify_runtime_statement_complete :
    (p : Primitives) (a : Attempt) (r : ReplayRoot)
    → Authentic p a
    → r a.challenge.challenge_id ≡ none
    → a.raced ≡ none
    → (v : RuntimeAttestationVerification) × (verify_runtime_statement p a r
        ≡ (ok v, put_key a.challenge.challenge_id (marker_of p a) r))
      × (v.blockers ≡ [])
      × (v.verdict ≢ fail_runtime_attestation)
unfolding verify_runtime_statement verify_signatures report settled
verify_runtime_statement_complete p a r authentic free alone = (
  report a.challenge a.statement authentic.challenge_evidence authentic.producer_evidence a.now
      (settled p a r),
  rw
      (
        authentic.challenge_verified,
        authentic.producer_verified,
        settle-Authentic p a r authentic free alone,
      )
      refl,
  refl,
  attestation_verdict-clear a.statement,
)
