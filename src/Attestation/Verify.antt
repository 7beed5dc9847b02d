-- ===== src/Attestation/Verify.antt =====
-- `verify_runtime_statement` of src/kratos_guard/core/standalone.py, on the folder of replay markers.
use kratos_agent_guard.Prelude.{
  ℕ, String, Bool, false, not, ◌&&◌, ◌||◌, Option, none, some, List, [], ◌∷◌, ◌++◌, ltb, ◌==◌,
  is_empty, if◌then◌else◌,
}
use kratos_agent_guard.Failure.{Result, ok, err, ◌>>=◌}
use kratos_agent_guard.Models.{PublicKeyFile, SignatureEvidence, SignatureState}
use kratos_agent_guard.Primitives.{Primitives, Stored}
use kratos_agent_guard.Signing.Trust.{verify_payload_signature, is_accepted}
use kratos_agent_guard.Signing.Store.{put_key, is_some}
use kratos_agent_guard.Attestation.Records.{
  RuntimeChallenge, RuntimeStatement, challenge_bytes, statement_bytes,
}

pub data Blocker : Type 0 where
  challenge_signature_invalid producer_signature_invalid challenge_id_mismatch nonce_mismatch :
      Blocker
  subject_mismatch challenge_expired statement_outside_challenge_window : Blocker
  build_id_mismatch artifact_sha256_mismatch attestation_replay_detected : Blocker

pub data FreshnessState : Type 0 where
  fresh expired outside_challenge_window : FreshnessState

pub data ReplayState : Type 0 where
  unused replay_detected : ReplayState

pub data LoadedState : Type 0 where
  unproven_synthetic_scope unproven_external_attestation_scope : LoadedState

pub data AttestationVerdict : Type 0 where
  pass_synthetic_runtime_attestation pass_runtime_attestation : AttestationVerdict
  fail_runtime_attestation : AttestationVerdict

pub record RuntimeAttestationVerification : Type 0 where
  pub challenge_id : String
  pub statement_id : String
  pub subject : String
  pub build_id : String
  pub artifact_sha256 : String
  pub challenge_signature_state : SignatureState
  pub producer_signature_state : SignatureState
  pub freshness_state : FreshnessState
  pub replay_state : ReplayState
  pub producer_scope : String
  pub current_user_loaded_runtime_state : LoadedState
  pub blockers : List Blocker
  pub verdict : AttestationVerdict

-- The JSON object in a replay marker.
pub record ReplayMarker : Type 0 where
  pub challenge_id : String
  pub nonce_sha256 : String
  pub statement_id : String
  pub verified_at : ℕ

-- The files `<challenge_id>.json` of the replay folder.
abbrev pub ReplayRoot : Type 0
ReplayRoot = String → Option ReplayMarker

-- `if test: blockers.append(...)`, before the blockers that follow
abbrev pub note_if : Bool → Blocker → List Blocker → List Blocker
note_if b x later = if b then x ∷ later else later

-- `text and other != text`
abbrev pub expects_other : String → String → Bool
expects_other text other = not (text == "") && not (other == text)

abbrev pub artifact_differs : Option String → String → Bool
artifact_differs none sha = false
artifact_differs (some d) sha = expects_other d sha

abbrev pub outside : ℕ → RuntimeChallenge → Bool
outside time c = ltb time c.issued_at || ltb c.expires_at time

-- The blockers on the content of the two records, in order.
unfoldable pub content_blockers : RuntimeChallenge → RuntimeStatement → ℕ → List Blocker
content_blockers c st now =
    note_if (not (st.challenge_id == c.challenge_id)) challenge_id_mismatch (
      note_if (not (st.nonce == c.nonce)) nonce_mismatch (
        note_if (not (st.subject == c.subject)) subject_mismatch (
          note_if (outside now c) challenge_expired (
            note_if (outside st.observed_at c) statement_outside_challenge_window (
              note_if (expects_other c.expected_build_id st.build_id) build_id_mismatch (
                note_if (artifact_differs c.expected_artifact_sha256 st.artifact_sha256)
                  artifact_sha256_mismatch []))))))

unfoldable pub signature_blockers :
    SignatureEvidence → SignatureEvidence → List Blocker → List Blocker
signature_blockers challenge producer later =
    note_if (not (is_accepted challenge)) challenge_signature_invalid
      (note_if (not (is_accepted producer)) producer_signature_invalid later)

unfoldable pub freshness_of : RuntimeChallenge → RuntimeStatement → ℕ → FreshnessState
freshness_of c st now =
    if outside st.observed_at c
    then outside_challenge_window
    else if outside now c
    then expired
    else fresh

abbrev pub is_synthetic : RuntimeStatement → Bool
is_synthetic st = st.producer_scope == "GUARD_OWNED_SYNTHETIC"

unfoldable pub attestation_verdict : List Blocker → RuntimeStatement → AttestationVerdict
attestation_verdict blockers st =
    if is_empty blockers && is_synthetic st
    then pass_synthetic_runtime_attestation
    else if is_empty blockers
    then pass_runtime_attestation
    else fail_runtime_attestation

abbrev replay_blockers : ReplayState → List Blocker
replay_blockers unused = []
replay_blockers replay_detected = attestation_replay_detected ∷ []

-- The blockers found before the marker is created; the replay state; the folder that is left.
pub record Outcome : Type 0 where
  pub blockers : List Blocker
  pub replay_state : ReplayState
  pub markers : ReplayRoot

-- `os.open(replay_marker, O_CREAT | O_EXCL)`: `raced` is a marker that another process has created
-- since the look at the folder.
abbrev create_marker : String → ReplayMarker → Option ReplayMarker → ReplayRoot → Outcome
create_marker id marker none markers = record {
  blockers = [];
  replay_state = unused;
  markers = put_key id marker markers;
}
create_marker id marker (some other) markers = record {
  blockers = attestation_replay_detected ∷ [];
  replay_state = replay_detected;
  markers = put_key id other markers;
}

abbrev create_if_clear :
    List Blocker → String → ReplayMarker → Option ReplayMarker → ReplayRoot → Outcome
create_if_clear [] id marker raced markers = create_marker id marker raced markers
create_if_clear (b ∷ bs) id marker raced markers = record {
  blockers = b ∷ bs;
  replay_state = unused;
  markers = markers;
}

-- From the look for the marker on.
unfoldable pub settle_replay :
    List Blocker → String → ReplayMarker → Option ReplayMarker → ReplayRoot → Outcome
settle_replay found id marker raced markers =
    if is_some (markers id)
    then record {
      blockers = found ++ attestation_replay_detected ∷ [];
      replay_state = replay_detected;
      markers = markers;
    }
    else create_if_clear found id marker raced markers

unfoldable pub report :
    RuntimeChallenge
    → RuntimeStatement
    → SignatureEvidence
    → SignatureEvidence
    → ℕ
    → Outcome
    → RuntimeAttestationVerification
report c st challenge producer now o = record {
  challenge_id = c.challenge_id;
  statement_id = st.statement_id;
  subject = st.subject;
  build_id = st.build_id;
  artifact_sha256 = st.artifact_sha256;
  challenge_signature_state = challenge.signature_state;
  producer_signature_state = producer.signature_state;
  freshness_state = freshness_of c st now;
  replay_state = o.replay_state;
  producer_scope = st.producer_scope;
  current_user_loaded_runtime_state =
      if is_synthetic st then unproven_synthetic_scope else unproven_external_attestation_scope;
  blockers = o.blockers;
  verdict = attestation_verdict o.blockers st;
}

-- What the caller passes: the two records, the two trusted keys, and the time.
pub record Attempt : Type 0 where
  pub challenge : RuntimeChallenge
  pub statement : RuntimeStatement
  pub guard_trust : Option (Stored PublicKeyFile)
  pub producer_trust : Option (Stored PublicKeyFile)
  pub now : ℕ
  pub raced : Option ReplayMarker

module _ (p : Primitives) where
  unfoldable pub marker_of : Attempt → ReplayMarker
  marker_of a = record {
    challenge_id = a.challenge.challenge_id;
    nonce_sha256 = p.sha256 a.challenge.nonce;
    statement_id = a.statement.statement_id;
    verified_at = a.now;
  }

  unfoldable pub verify_signatures : Attempt → Result (SignatureEvidence × SignatureEvidence)
  verify_signatures a = do
    challenge ←
        verify_payload_signature p (challenge_bytes p a.challenge) a.challenge.signature
          a.guard_trust a.challenge.verifier_key_id
    producer ←
        verify_payload_signature p (statement_bytes p a.statement) a.statement.signature
          a.producer_trust a.statement.producer_key_id
    ok (challenge, producer)

  unfoldable pub found_blockers : Attempt → SignatureEvidence → SignatureEvidence → List Blocker
  found_blockers a challenge producer =
      signature_blockers challenge producer (content_blockers a.challenge a.statement a.now)

  unfoldable pub settle : Attempt → SignatureEvidence × SignatureEvidence → ReplayRoot → Outcome
  settle a (challenge, producer) markers =
      settle_replay (found_blockers a challenge producer) a.challenge.challenge_id (marker_of a)
        a.raced markers

  abbrev conclude :
      Attempt
      → Result (SignatureEvidence × SignatureEvidence)
      → ReplayRoot
      → Result RuntimeAttestationVerification × ReplayRoot
  conclude a (err x) markers = (err x, markers)
  conclude a (ok s) markers = (
    ok (report a.challenge a.statement s.0 s.1 a.now (settle a s markers)),
    (settle a s markers).markers,
  )

  -- `verify_runtime_statement(...)`
  unfoldable pub verify_runtime_statement :
      Attempt → ReplayRoot → Result RuntimeAttestationVerification × ReplayRoot
  verify_runtime_statement a markers = conclude a (verify_signatures a) markers
