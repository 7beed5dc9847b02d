-- ===== src/Signing/Rotation.antt =====
-- The steps of a successful `rotate_key`: what each has written, and what it has left alone.
use mathlib.Core.Path.{subst}
use kratos_agent_guard.Prelude.{
  ℕ, ◌+◌, [], is_empty, Bool-cases, String, ◌≡◌, refl, ap, Bool, true, false, some, arith,
  Option-cases, inl, inr, eq_refl,
}
use kratos_agent_guard.Failure.{Result, ok, Result-cases}
use kratos_agent_guard.Models.{KeyRotationRecord, SigningKeyIdentity, is_valid_rotation}
use kratos_agent_guard.Primitives.{Primitives, IsSound, written}
use kratos_agent_guard.Signing.Trust.{
  TrustDirectory, public_key_payload, check_rotation, rotation_signing_bytes,
}
use kratos_agent_guard.Signing.Store.{
  KeyStore, ◌>>◌, reads, continue-ok, PrivateKey, ed25519, inspect_private, inspect_key,
  initialise_key, write_public_key, write_local_public_key,
}
use kratos_agent_guard.Signing.Lifecycle.{
  replace_private, rotate_locked, pending_rotation, export_if, export_trust_bundle, put_rotation,
  publish_rotation, signed_rotation,
}
use kratos_agent_guard.Signing.Permanence.{export_if-GrowsTrust}
use kratos_agent_guard.Signing.Growth.{Grows, write-published, write-Grows}
use kratos_agent_guard.Signing.Signatures.{verify_payload_signature-sign}

module _ {p : Primitives} (sound : IsSound p) where
  -- A record that both keys signed is accepted where their files stand.
  pub signed_rotation-accepted :
      (d : TrustDirectory) (old new : String) (r : KeyRotationRecord)
      → d.public_key (public_key_payload p old).key_id ≡ some (written (public_key_payload p old))
      → d.public_key (public_key_payload p new).key_id ≡ some (written (public_key_payload p new))
      → r.previous_key_id ≡ (public_key_payload p old).key_id
      → r.new_key_id ≡ (public_key_payload p new).key_id
      → check_rotation p
          (public_key_payload p old).key_id
          (public_key_payload p new).key_id
          d
          (signed_rotation p old new r)
        ≡ ok true
  unfolding check_rotation signed_rotation rotation_signing_bytes
  signed_rotation-accepted d old new r there there' same same' =
      simp (same, same', eq_refl, there, there', verify_payload_signature-sign sound)

module _ (p : Primitives) where
  -- What `_write_public_key` for both keys and the record's file leave behind.
  pub publish_rotation-ok :
      (old new : String) (r : KeyRotationRecord) (s s' : KeyStore)
      → publish_rotation p old new r s ≡ (ok tt, s')
      → (d : TrustDirectory) × (d.public_key (public_key_payload p old).key_id
          ≡ some (written (public_key_payload p old)))
        × (d.public_key (public_key_payload p new).key_id
            ≡ some (written (public_key_payload p new)))
        × (record s { trust = put_rotation r.previous_key_id r.new_key_id (written r) d } ≡ s')
  unfolding publish_rotation write_local_public_key
  publish_rotation-ok old new r s s' h = elim (Result-cases (write_public_key p old s.trust)) [
    | inr (x, refused) ↦ cc (rw refused at h)
    | inl (d, first) ↦ elim (Result-cases (write_public_key p new d)) [
      | inr (x, refused) ↦ cc (rw (first, refused) at h)
      | inl (e, second) ↦ elim (Option-cases (e.rotation r.previous_key_id r.new_key_id)) [
        | inr (t, there) ↦ cc (rw (first, second, there) at h)
        | inl free ↦ (
          e,
          (write-Grows p new d e second).public_key _ _ (write-published p old s.trust d first),
          write-published p new d e second,
          ap (λ (x : Result (Unit {0}) × KeyStore). x.1) (rw (first, second, free) at h),
        )
      ]
    ]
  ]

  -- The private key that a store holds is the one that `inspect_key` names.
  pub inspect_key-id :
      (s : KeyStore) (k : String) (i : SigningKeyIdentity)
      → s.private_key ≡ some (ed25519 k)
      → inspect_key p s ≡ ok i
      → i.key_id ≡ (public_key_payload p k).key_id
  unfolding inspect_key inspect_private public_key_payload
  inspect_key-id s k i held h = ground arith

  write_local-private_key :
      (k : String) (s : KeyStore) → (write_local_public_key p k s).1.private_key ≡ s.private_key
  unfolding write_local_public_key
  write_local-private_key k s = elim (Result-cases (write_public_key p k s.trust)) [
    | inl (d, e) ↦ rw e
    | inr (x, e) ↦ rw e
  ]

  pub initialise-private_key :
      (s : KeyStore) (k : PrivateKey)
      → s.private_key ≡ some k
      → (initialise_key p s).1.private_key ≡ some k
  unfolding initialise_key
  initialise-private_key s k held = elim (Result-cases (inspect_private p s)) [
    | inr (x, e) ↦ simp held (ground arith)
    | inl (found, e) ↦ simp held (ground (arith, write_local-private_key found.1 s))
  ]

  export_if-private_key :
      (b : Bool) (s : KeyStore) (k : PrivateKey)
      → s.private_key ≡ some k
      → (export_if p b s).1.private_key ≡ some k
  unfolding export_if export_trust_bundle
  export_if-private_key true s k held = ground (arith, initialise-private_key s k held)
  export_if-private_key false s k held = held

  -- The last steps of `rotate_key`, from the state in which the rotation is published.
  finish-ok :
      (key_id new : String) (export : Bool) (s : KeyStore) (i : SigningKeyIdentity) (t : KeyStore)
      → (replace_private p key_id new >> (export_if p export >> reads (inspect_key p))) s
        ≡ (ok i, t)
      → Grows s.trust t.trust × (t.private_key ≡ some (ed25519 new)) × (inspect_key p t ≡ ok i)
  unfolding replace_private
  finish-ok key_id new export s i t h = elim (Bool-cases (is_empty s.next_files)) [
    | inr busy ↦ cc (rw (busy, replace_private) at h)
    | inl clear ↦
        let s2 = record s { next_files = []; private_key = some (ed25519 new) } in
        let (a, u, exported, rest) =
          continue-ok (export_if p export s2) _ (rw (clear, replace_private) at h) in
        let same : u ≡ t = ap (λ (x : Result SigningKeyIdentity × KeyStore). x.1) rest in
        (
          subst (λ (x : KeyStore). Grows s.trust x.trust) same
              (rw exported at ((export_if-GrowsTrust p export).at s2)),
          subst (λ (x : KeyStore). x.private_key ≡ some (ed25519 new)) same
              (rw exported at (export_if-private_key export s2 (ed25519 new) refl)),
          subst (λ (x : KeyStore). inspect_key p x ≡ ok i) same
              (ap (λ (x : Result SigningKeyIdentity × KeyStore). x.0) rest),
        )
  ]

  pub rotate_locked-ok :
      (key_id old reason : String) (export : Bool) (now : ℕ) (s : KeyStore) (i : SigningKeyIdentity)
      (t : KeyStore)
      → rotate_locked p key_id old reason export now s ≡ (ok i, t)
      → (s' : KeyStore) × let new = s.generator s.generated in
          let r = pending_rotation p key_id (public_key_payload p new).key_id now reason in
          (publish_rotation p old new
              (signed_rotation p old new r)
              (record s { next_files = []; generated = s.generated + 1 })
            ≡ (ok tt, s'))
          × (is_valid_rotation r ≡ true)
          × Grows s'.trust t.trust
          × (t.private_key ≡ some (ed25519 new))
          × (inspect_key p t ≡ ok i)
  unfolding rotate_locked
  rotate_locked-ok key_id old reason export now s i t h =
      elim (Bool-cases (
        is_valid_rotation (
          pending_rotation p key_id (public_key_payload p (s.generator s.generated)).key_id now
            reason))) [
              | inr refused ↦ cc (rw (refused, rotate_locked) at h)
              | inl valid ↦
                  let new = s.generator s.generated in
                  let r = pending_rotation p key_id (public_key_payload p new).key_id now reason in
                  let (a, s1, published, k1) =
                    continue-ok
                      (publish_rotation p old new (signed_rotation p old new r)
                        (record s { next_files = []; generated = s.generated + 1 }))
                      _ (rw (valid, rotate_locked) at h) in
                  let (grown, held, found) =
                    finish-ok (public_key_payload p new).key_id new export s1 i t k1 in
                  (s1, (published, valid, grown, held, found))
            ]
