-- ===== src/Attestation/Authentic.antt =====
-- What a passed runtime statement establishes, and that nothing more is asked of one.
use kratos_agent_guard.Prelude.{
  ℕ, ◌≤◌, String, ◌≡◌, ◌≢◌, inl, inr, refl, Bool, true, false, not, Option, none, some, List, [],
  ◌==◌, arith, eq_iff, eq_refl, Bool-cases, String-cases,
}
use kratos_agent_guard.Attestation.Records.{RuntimeChallenge, RuntimeStatement}
use kratos_agent_guard.Attestation.Verify.{
  Blocker, challenge_id_mismatch, nonce_mismatch, subject_mismatch, challenge_expired,
  statement_outside_challenge_window, build_id_mismatch, note_if, outside, expects_other,
  artifact_differs, content_blockers,
}

-- The time lies between the challenge's issue and its expiry.
pub record Within (c : RuntimeChallenge) (time : ℕ) : Type 0 where
  pub after : c.issued_at ≤ time
  pub before : time ≤ c.expires_at

-- The statement answers the challenge.
pub record Answers (c : RuntimeChallenge) (st : RuntimeStatement) (now : ℕ) : Type 0 where
  pub same_challenge : st.challenge_id ≡ c.challenge_id
  pub same_nonce : st.nonce ≡ c.nonce
  pub same_subject : st.subject ≡ c.subject
  pub checked_in_time : Within c now
  pub observed_in_time : Within c st.observed_at
  pub build : c.expected_build_id ≢ "" → st.build_id ≡ c.expected_build_id
  pub artifact :
      (d : String) → c.expected_artifact_sha256 ≡ some d → d ≢ "" → st.artifact_sha256 ≡ d

pub note_if-nil :
    (b : Bool) (x : Blocker) {xs : List Blocker} → note_if b x xs ≡ [] → (b ≡ false) × (xs ≡ [])
note_if-nil true x h = cc h
note_if-nil false x h = (refl, h)

outside-Within : (time : ℕ) (c : RuntimeChallenge) → outside time c ≡ false → Within c time
outside-Within time c h = record { after = ground arith; before = ground arith }

Within-outside : (time : ℕ) (c : RuntimeChallenge) → Within c time → outside time c ≡ false
Within-outside time c w = ground (arith, w.after, w.before)

not-false : (s t : String) → not (s == t) ≡ false → s ≡ t
not-false s t h = ground (arith, eq_iff s t)

expects_other-false :
    (text other : String) → expects_other text other ≡ false → text ≢ "" → other ≡ text
expects_other-false text other h given = ground (arith, eq_iff text "", eq_iff other text, given)

expects_other-holds :
    (text other : String) → (text ≢ "" → other ≡ text) → expects_other text other ≡ false
expects_other-holds text other h = elim (String-cases text "") [
  | inl empty ↦ simp empty
  | inr given ↦
      let same : other ≡ text = h (λ empty. cc (given, empty, eq_refl text)) in
      rw (same, given) (rw (eq_refl text))
]

artifact_differs-false :
    (o : Option String) (sha : String)
    → artifact_differs o sha ≡ false
    → (d : String) → o ≡ some d
    → d ≢ ""
    → sha ≡ d
artifact_differs-false o sha h d same given = expects_other-false d sha (rw same at h) given

artifact_differs-holds :
    (o : Option String) (sha : String)
    → ((d : String) → o ≡ some d → d ≢ "" → sha ≡ d)
    → artifact_differs o sha ≡ false
artifact_differs-holds none sha h = refl
artifact_differs-holds (some d) sha h = expects_other-holds d sha (h d refl)

pub content_blockers-nil :
    (c : RuntimeChallenge) (st : RuntimeStatement) (now : ℕ)
    → content_blockers c st now ≡ []
    → Answers c st now
unfolding content_blockers
content_blockers-nil c st now h =
    let (a, h1) = note_if-nil (not (st.challenge_id == c.challenge_id)) challenge_id_mismatch h in
    let (b, h2) = note_if-nil (not (st.nonce == c.nonce)) nonce_mismatch h1 in
    let (d, h3) = note_if-nil (not (st.subject == c.subject)) subject_mismatch h2 in
    let (e, h4) = note_if-nil (outside now c) challenge_expired h3 in
    let (f, h5) = note_if-nil (outside st.observed_at c) statement_outside_challenge_window h4 in
    let (g, h6) =
      note_if-nil (expects_other c.expected_build_id st.build_id) build_id_mismatch h5 in
    let differs : artifact_differs c.expected_artifact_sha256 st.artifact_sha256 ≡ false =
      elim (Bool-cases (artifact_differs c.expected_artifact_sha256 st.artifact_sha256)) [
        | inl other ↦ cc (rw other at h6)
        | inr same ↦ same
      ] in
    record {
      same_challenge = not-false st.challenge_id c.challenge_id a;
      same_nonce = not-false st.nonce c.nonce b;
      same_subject = not-false st.subject c.subject d;
      checked_in_time = outside-Within now c e;
      observed_in_time = outside-Within st.observed_at c f;
      build = expects_other-false c.expected_build_id st.build_id g;
      artifact = artifact_differs-false c.expected_artifact_sha256 st.artifact_sha256 differs;
    }

pub content_blockers-Answers :
    (c : RuntimeChallenge) (st : RuntimeStatement) (now : ℕ)
    → Answers c st now
    → content_blockers c st now ≡ []
unfolding content_blockers
content_blockers-Answers c st now a = simp (
  a.same_challenge,
  a.same_nonce,
  a.same_subject,
  eq_refl,
  Within-outside now c a.checked_in_time,
  Within-outside st.observed_at c a.observed_in_time,
  expects_other-holds c.expected_build_id st.build_id a.build,
  artifact_differs-holds c.expected_artifact_sha256 st.artifact_sha256 a.artifact,
)
