-- ===== src/Attestation/Replay.antt =====
-- A challenge passes at most once: its replay marker is never removed.
use kratos_agent_guard.Prelude.{
  String, ◌≡◌, ◌≢◌, ◌⊎◌, refl, sym, inl, inr, true, Option, List, [], ◌∷◌, arith, eq_refl,
}
use kratos_agent_guard.Failure.{ok, Result-cases}
use kratos_agent_guard.Primitives.{Primitives}
use kratos_agent_guard.Signing.Store.{is_some}
use kratos_agent_guard.Attestation.Verify.{
  Blocker, Attempt, ReplayMarker, ReplayRoot, settle_replay, settle, verify_runtime_statement,
  verify_signatures, RuntimeAttestationVerification, AttestationVerdict, pass_runtime_attestation,
  pass_synthetic_runtime_attestation, fail_runtime_attestation, marker_of,
}
use kratos_agent_guard.Attestation.Passing.{verify_runtime_statement_sound}

settle_replay_keeps :
    (found : List Blocker) (id k : String) (m : ReplayMarker) (raced : Option ReplayMarker)
    (r : ReplayRoot)
    → is_some (r k) ≡ true
    → is_some ((settle_replay found id m raced r).markers k) ≡ true
unfolding settle_replay
settle_replay_keeps found id k m raced r h = ground arith

verdict-cases :
    (v : AttestationVerdict) → (v ≡ fail_runtime_attestation) ⊎ (v ≢ fail_runtime_attestation)
verdict-cases fail_runtime_attestation = inl refl
verdict-cases pass_runtime_attestation = inr (λ h. cc h)
verdict-cases pass_synthetic_runtime_attestation = inr (λ h. cc h)

module _ (p : Primitives) where
  verify_runtime_statement_keeps :
      (a : Attempt) (r : ReplayRoot) (k : String)
      → is_some (r k) ≡ true
      → is_some ((verify_runtime_statement p a r).1 k) ≡ true
  unfolding verify_runtime_statement settle
  verify_runtime_statement_keeps a r k h = elim (Result-cases (verify_signatures p a)) [
    | inr (x, failed) ↦ rw failed h
    | inl (s, signed) ↦
        rw signed (settle_replay_keeps _ a.challenge.challenge_id k (marker_of p a) a.raced r h)
  ]

  -- The replay folder after the attempts, in turn.
  unfoldable pub attempt_all : List Attempt → ReplayRoot → ReplayRoot
  attempt_all [] r = r
  attempt_all (a ∷ as') r = attempt_all as' (verify_runtime_statement p a r).1

  attempt_all_keeps :
      (attempts : List Attempt) (r : ReplayRoot) (k : String)
      → is_some (r k) ≡ true
      → is_some (attempt_all attempts r k) ≡ true
  unfolding attempt_all
  attempt_all_keeps [] r k h = h
  attempt_all_keeps (a ∷ rest) r k h =
      attempt_all_keeps rest (verify_runtime_statement p a r).1 k
        (verify_runtime_statement_keeps a r k h)

  -- Once a statement has passed for a challenge, no statement passes for a challenge with the same
  -- identifier, whatever attempts are made between the two.
  pub passes_at_most_once :
      (a b : Attempt) (between : List Attempt) (r r' r'' : ReplayRoot)
      (v w : RuntimeAttestationVerification)
      → verify_runtime_statement p a r ≡ (ok v, r')
      → v.verdict ≢ fail_runtime_attestation
      → b.challenge.challenge_id ≡ a.challenge.challenge_id
      → verify_runtime_statement p b (attempt_all between r') ≡ (ok w, r'')
      → w.verdict ≡ fail_runtime_attestation
  passes_at_most_once a b between r r' r'' v w first passed same second =
      elim (verdict-cases w.verdict) [
        | inl failed ↦ failed
        | inr other ↦
            let (authentic, free, marked) =
              verify_runtime_statement_sound p a r r' v first passed in
            let (authentic', free', marked') =
              verify_runtime_statement_sound p b (attempt_all between r') r'' w second other in
            let there : is_some (r' a.challenge.challenge_id) ≡ true =
              rw marked (rw (eq_refl a.challenge.challenge_id) refl) in
            let stays = attempt_all_keeps between r' a.challenge.challenge_id there in
            cc (rw (sym same, free') at stays)
      ]
