-- ===== src/Signing/Standing.antt =====
-- Answers of the trust directory that stand: a key that is revoked stays revoked, and a rotation
-- that is accepted stays accepted, while the directory grows.
use kratos_agent_guard.Prelude.{
  String, ◌≡◌, refl, true, false, none, some, arith, Option-cases, inl, inr, List, ◌⊎◌,
}
use kratos_agent_guard.Failure.{Kind, Result, ok, err, recover, fail, Result-cases}
use kratos_agent_guard.Models.{KeyRotationRecord, KeyRevocationRecord, SignatureEvidence}
use kratos_agent_guard.Primitives.{Primitives, Stored}
use kratos_agent_guard.Signing.Trust.{
  TrustDirectory, revoked, revocation_invalid, check_revocation, check_rotation,
  key_revocation_state, verify_key_rotation, revocation_answer, rotation_answer,
  verify_payload_signature, load_trusted_public_key, parse_revocation, parse_rotation,
  revocation_signing_bytes, rotation_signing_bytes,
}
use kratos_agent_guard.Signing.Store.{KeyStore}
use kratos_agent_guard.Signing.Growth.{Grows}
use kratos_agent_guard.Signing.Permanence.{KeyOperation, apply_all, apply_all-Grows}

-- An answer that no failure stands for comes from the call itself.
recover-eq-ok {ℓ} :
    {A : Type ℓ} (m : Result A) (a b : A) → recover m a ≡ ok b → (m ≡ ok b) ⊎ (a ≡ b)
recover-eq-ok (ok x) a b h = inl h
recover-eq-ok (err e) a b h = inr (ground arith)

verify-none :
    (p : Primitives) (payload signature k : String)
    → verify_payload_signature p payload signature none k
      ≡ fail Kind.file_not_found "No such file or directory"
unfolding verify_payload_signature load_trusted_public_key
verify-none p payload signature k = refl

module _ (p : Primitives) (d e : TrustDirectory) (grows : Grows d e) where
  -- A check that passed had its key file, so it passes in the larger directory.
  pub verify-Grows :
      (payload signature k : String) {v : SignatureEvidence}
      → verify_payload_signature p payload signature (d.public_key k) k ≡ ok v
      → verify_payload_signature p payload signature (e.public_key k) k ≡ ok v
  verify-Grows payload signature k h = elim (Option-cases (d.public_key k)) [
    | inl gone ↦ cc (verify-none p payload signature k, rw gone at h)
    | inr (t, there) ↦ rw (grows.public_key k t there) (rw there at h)
  ]

  check_revocation-Grows :
      (k : String) (r : KeyRevocationRecord)
      → check_revocation p k d r ≡ ok revoked
      → check_revocation p k e r ≡ ok revoked
  unfolding check_revocation
  check_revocation-Grows k r h =
      let signer = r.authorised_by_key_id in
      let payload = revocation_signing_bytes p r in
      elim (Result-cases
        (verify_payload_signature p payload r.signature (d.public_key signer) signer)) [
          | inl (v, same) ↦ rw (verify-Grows payload r.signature signer same) (rw same at h)
          | inr (x, same) ↦ ground arith
        ]

  check_rotation-Grows :
      (j k : String) (r : KeyRotationRecord)
      → check_rotation p j k d r ≡ ok true
      → check_rotation p j k e r ≡ ok true
  unfolding check_rotation
  check_rotation-Grows j k r h =
      let payload = rotation_signing_bytes p r in
      elim (Result-cases
        (verify_payload_signature p payload r.previous_key_signature (d.public_key j) j)) [
          | inr (x, same) ↦ ground arith
          | inl (v, same) ↦
              elim (Result-cases
                (verify_payload_signature p payload r.new_key_signature (d.public_key k) k)) [
                  | inr (x, same') ↦ ground arith
                  | inl (w, same') ↦ rw (verify-Grows payload r.previous_key_signature j same) (
                      rw (verify-Grows payload r.new_key_signature k same') (rw (same, same') at h))
                ]
        ]

  revocation_answer-Grows :
      (k : String) (text : Stored KeyRevocationRecord)
      → revocation_answer p k d (some text) ≡ ok revoked
      → revocation_answer p k e (some text) ≡ ok revoked
  revocation_answer-Grows k text h = elim (Result-cases (parse_revocation p text)) [
    | inl (r, same) ↦
        elim (recover-eq-ok (check_revocation p k d r) revocation_invalid revoked (rw same at h)) [
          | inl passed ↦ rw same (rw (check_revocation-Grows k r passed))
          | inr differ ↦ cc
        ]
    | inr (x, same) ↦ ground arith
  ]

  rotation_answer-Grows :
      (j k : String) (text : Stored KeyRotationRecord)
      → rotation_answer p j k d (some text) ≡ ok true
      → rotation_answer p j k e (some text) ≡ ok true
  rotation_answer-Grows j k text h = elim (Result-cases (parse_rotation p text)) [
    | inl (r, same) ↦ elim (recover-eq-ok (check_rotation p j k d r) false true (rw same at h)) [
      | inl passed ↦ rw same (rw (check_rotation-Grows j k r passed))
      | inr differ ↦ cc
    ]
    | inr (x, same) ↦ ground arith
  ]

  pub key_revocation_state-Grows :
      (k : String)
      → key_revocation_state p k d ≡ ok revoked
      → key_revocation_state p k e ≡ ok revoked
  unfolding key_revocation_state
  key_revocation_state-Grows k h = elim (Option-cases (d.revocation k)) [
    | inl gone ↦ cc (gone, h)
    | inr (text, there) ↦
        rw (grows.revocation k text there)
          (revocation_answer-Grows k text (rw (there, key_revocation_state) at h))
  ]

  pub verify_key_rotation-Grows :
      (j k : String) → verify_key_rotation p j k d ≡ ok true → verify_key_rotation p j k e ≡ ok true
  unfolding verify_key_rotation
  verify_key_rotation-Grows j k h = elim (Option-cases (d.rotation j k)) [
    | inl gone ↦ cc (gone, h)
    | inr (text, there) ↦
        rw (grows.rotation j k text there)
          (rotation_answer-Grows j k text (rw (there, verify_key_rotation) at h))
  ]

module _ (p : Primitives) where
  -- Once a key is revoked, it is revoked after any further calls of the key store's methods,
  -- whether these return or raise.
  pub revoked_for_good :
      (os : List KeyOperation) (s : KeyStore) (k : String)
      → key_revocation_state p k s.trust ≡ ok revoked
      → key_revocation_state p k (apply_all p os s).trust ≡ ok revoked
  revoked_for_good os s k =
      key_revocation_state-Grows p s.trust (apply_all p os s).trust (apply_all-Grows p os s) k

  -- A rotation that is accepted is accepted after any further calls of the key store's methods.
  pub rotated_for_good :
      (os : List KeyOperation) (s : KeyStore) (j k : String)
      → verify_key_rotation p j k s.trust ≡ ok true
      → verify_key_rotation p j k (apply_all p os s).trust ≡ ok true
  rotated_for_good os s j k =
      verify_key_rotation-Grows p s.trust (apply_all p os s).trust (apply_all-Grows p os s) j k
