-- ===== src/Ledger/Existing.antt =====
-- The loop over the existing entries in `append_ledger_entry` accepts exactly what `verify_ledger`
-- accepts under the local trust directory, and leaves the key store alone.
use mathlib.Core.Path.{subst}
use kratos_agent_guard.Prelude.{
  ℕ, ◌+◌, String, ◌≡◌, refl, sym, ap, ◌∙◌, inl, inr, true, false, some, List, [], ◌∷◌, arith,
  eq_iff, eq_refl, Bool-cases, length,
}
use kratos_agent_guard.Failure.{Failure, Result, ok, err, Result-cases}
use kratos_agent_guard.Models.{LedgerEntry, SigningKeyIdentity, SignatureEvidence}
use kratos_agent_guard.Primitives.{Primitives, IsSound, written}
use kratos_agent_guard.Signing.Trust.{
  TrustDirectory, directory, public_key_payload, not_revoked, revoked, revocation_invalid,
  key_revocation_state, verify_payload_signature, is_accepted, trusted_key_path,
}
use kratos_agent_guard.Signing.Store.{
  KeyStore, ed25519, continue-ok, inspect_private, initialise_key, write_public_key,
  write_local_public_key,
}
use kratos_agent_guard.Signing.Lifecycle.{verify_local_payload_signature}
use kratos_agent_guard.Signing.Succession.{initialise-known}
use kratos_agent_guard.Ledger.Verify.{
  Line, is_blank, model_signing_bytes, ledger_hash, parse_entry, check_transition,
}
use kratos_agent_guard.Ledger.Chain.{Accepts, Chained, Reads, end, blank, entry}
use kratos_agent_guard.Ledger.Append.{
  Tail, may_succeed, check_place, check_signer, check_entry_signature, check_existing,
  scan_existing, full_lines,
}

-- The store holds the key `k`, and its public key file stands in the trust directory.
pub record IsPublished (p : Primitives) (k : String) (s : KeyStore) : Type 0 where
  pub held : s.private_key ≡ some (ed25519 k)
  pub listed :
      s.trust.public_key (public_key_payload p k).key_id ≡ some (written (public_key_payload p k))

abbrev pub tail_of : LedgerEntry → Tail
tail_of e = record { previous_hash = e.entry_hash; previous_key_id = e.signing_key_id }

abbrev pub tail_after : Tail → List LedgerEntry → Tail
tail_after t [] = t
tail_after t (e ∷ es) = tail_after (tail_of e) es

write-listed :
    (p : Primitives) (k : String) (d : TrustDirectory)
    → d.public_key (public_key_payload p k).key_id ≡ some (written (public_key_payload p k))
    → write_public_key p k d ≡ ok d
unfolding write_public_key
write-listed p k d listed = rw (listed, write_public_key) (simp eq_refl)

module _ {p : Primitives} (sound : IsSound p) (k : String) (s : KeyStore)
    (published : IsPublished p k s) where
  write_local-published : write_local_public_key p k s ≡ (ok tt, s)
  unfolding write_local_public_key
  write_local-published = rw (write-listed p k s.trust published.listed)

  pub inspect_private-key :
      (f : SigningKeyIdentity × String)
      → inspect_private p s ≡ ok f
      → (f.1 ≡ k) × (f.0.key_id ≡ (public_key_payload p k).key_id)
  unfolding inspect_private public_key_payload
  inspect_private-key f h = ground (arith, published.held)

  pub verify_local-unreadable :
      (x : Failure) (payload signature key_id : String)
      → inspect_private p s ≡ err x
      → verify_local_payload_signature p payload signature key_id s ≡ (err x, s)
  unfolding verify_local_payload_signature
  verify_local-unreadable x payload signature key_id failed =
      rw (initialise-known sound k s published.held, failed)

  module _ (f : SigningKeyIdentity × String) (found : inspect_private p s ≡ ok f) where
    initialise-published : initialise_key p s ≡ (ok f.0, s)
    initialise-published =
        initialise-known sound k s published.held
        ∙ rw found (rw (inspect_private-key f found).0 (rw write_local-published))

    pub verify_local-published :
        (payload signature key_id : String)
        → verify_local_payload_signature p payload signature key_id s
          ≡ (verify_payload_signature p payload signature (s.trust.public_key key_id) key_id, s)
    unfolding verify_local_payload_signature
    verify_local-published payload signature key_id = rw initialise-published

    pub may_succeed-eq :
        (previous new : String)
        → may_succeed p previous new s ≡ check_transition p (directory s.trust) previous new
    unfolding may_succeed check_transition
    may_succeed-eq previous new = ground arith

    check_place-ok :
        (n : ℕ) (t : Tail) (e : LedgerEntry)
        → check_place p n t e ≡ ok tt
        → (e.sequence ≡ n)
          × (e.previous_entry_hash ≡ t.previous_hash)
          × (ledger_hash p e ≡ e.entry_hash)
    unfolding check_place
    check_place-ok n t e h =
        ground (
          arith,
          eq_iff e.previous_entry_hash t.previous_hash,
          eq_iff (ledger_hash p e) e.entry_hash,
        )

    pub check_signer-ok :
        (invalid gone : String) (t : Tail) (key_id : String)
        → check_signer p invalid gone t key_id s ≡ ok tt
        → (key_revocation_state p key_id s.trust ≡ ok not_revoked)
          × (check_transition p (directory s.trust) t.previous_key_id key_id ≡ ok true)
    unfolding check_signer
    check_signer-ok invalid gone t key_id h =
        elim (Result-cases (key_revocation_state p key_id s.trust)) [
          | inr (x, failed) ↦ cc (rw (failed, check_signer) at h)
          | inl (revoked, failed) ↦ cc (rw (failed, check_signer) at h)
          | inl (revocation_invalid, failed) ↦ cc (rw (failed, check_signer) at h)
          | inl (not_revoked, unrevoked) ↦
              elim (Result-cases (may_succeed p t.previous_key_id key_id s)) [
                | inr (x, failed) ↦ cc (rw (unrevoked, failed, check_signer) at h)
                | inl (false, failed) ↦ cc (rw (unrevoked, failed, check_signer) at h)
                | inl (true, follows) ↦
                    (unrevoked, sym (may_succeed-eq t.previous_key_id key_id) ∙ follows)
              ]
        ]

    check_entry_signature-ok :
        (e : LedgerEntry) (v : SignatureEvidence) (t : Tail)
        → check_entry_signature p e v ≡ ok t
        → (is_accepted v ≡ true) × (tail_of e ≡ t)
    unfolding check_entry_signature
    check_entry_signature-ok e v t h = ground arith

    check_existing-ok :
        (n : ℕ) (t t' : Tail) (e : LedgerEntry) (u : KeyStore)
        → check_existing p n t e s ≡ (ok t', u)
        → Accepts p (directory s.trust) n t.previous_hash t.previous_key_id e
          × (tail_of e ≡ t')
          × (s ≡ u)
    unfolding check_existing trusted_key_path
    check_existing-ok n t t' e u h = elim (Result-cases (check_place p n t e)) [
      | inr (x, failed) ↦ cc (rw (failed, check_existing) at h)
      | inl (tt, placed) ↦
          elim (Result-cases (
            check_signer p "LEDGER_REVOCATION_RECORD_INVALID" "LEDGER_SIGNING_KEY_REVOKED" t
              e.signing_key_id s)) [
                | inr (x, failed) ↦ cc (rw (placed, failed, check_existing) at h)
                | inl (tt, signer) ↦
                    elim (Result-cases (
                      verify_payload_signature p (model_signing_bytes p e) e.signature
                        (s.trust.public_key e.signing_key_id) e.signing_key_id)) [
                          | inr (x, failed) ↦ cc (
                              rw
                                (
                                  placed,
                                  signer,
                                  verify_local-published (model_signing_bytes p e) e.signature
                                      e.signing_key_id,
                                  failed,
                                  check_existing,
                                )
                                at h)
                          | inl (v, verified) ↦
                              let rest : (check_entry_signature p e v, s) ≡ (ok t', u) =
                                rw
                                  (
                                    placed,
                                    signer,
                                    verify_local-published (model_signing_bytes p e) e.signature
                                        e.signing_key_id,
                                    verified,
                                    check_existing,
                                  )
                                  at h in
                              let (accepted, same) =
                                check_entry_signature-ok e v t'
                                  (ap (λ (x : Result Tail × KeyStore). x.0) rest) in
                              let (counted, linked, hashed) = check_place-ok n t e placed in
                              let (unrevoked, follows) =
                                check_signer-ok _ _ t e.signing_key_id signer in
                              (
                                record {
                                  counted = counted;
                                  linked = linked;
                                  hashed = hashed;
                                  unrevoked = unrevoked;
                                  follows = follows;
                                  evidence = v;
                                  verified = verified;
                                  accepted = accepted;
                                },
                                same,
                                ap (λ (x : Result Tail × KeyStore). x.1) rest,
                              )
                        ]
              ]
    ]

    -- The entries that the loop accepts form a chain, up to the tail that it returns.
    pub scan_existing-ok :
        (n : ℕ) (t t' : Tail) (ls : List Line) (u : KeyStore)
        → scan_existing p (n + 1) t (full_lines ls) s ≡ (ok t', u)
        → (es : List LedgerEntry) × Reads p ls es
          × Chained p (directory s.trust) n t.previous_hash t.previous_key_id es
          × (tail_after t es ≡ t')
          × (length (full_lines ls) ≡ length es)
          × (s ≡ u)
    unfolding scan_existing full_lines
    scan_existing-ok n t t' [] u h = ([], end, tt, ground arith, refl, ground arith)
    scan_existing-ok n t t' (l ∷ ls) u h = elim (Bool-cases (is_blank l)) [
      | inl skipped ↦
          let (es, r, c, ends, same, left) =
            scan_existing-ok n t t' ls u (rw (skipped, full_lines) at h) in
          (es, blank skipped r, c, ends, rw (skipped, full_lines) same, left)
      | inr kept ↦ elim (Result-cases (parse_entry p l)) [
        | inr (x, failed) ↦ cc (rw (kept, failed, full_lines, scan_existing) at h)
        | inl (e, parsed) ↦
            let (t1, s1, checked, rest) =
              continue-ok (check_existing p (n + 1) t e s)
                (λ t1. scan_existing p (n + 1 + 1) t1 (full_lines ls))
                (rw (kept, parsed, full_lines, scan_existing) at h) in
            let (a, next, left) = check_existing-ok (n + 1) t t1 e s1 checked in
            let (es, r, c, ends, same, left') = scan_existing-ok (n + 1) (tail_of e) t' ls u (
              subst (λ (x : Tail). scan_existing p (n + 1 + 1) x (full_lines ls) s ≡ (ok t', u))
                (sym next)
                (subst
                  (λ (x : KeyStore). scan_existing p (n + 1 + 1) t1 (full_lines ls) x ≡ (ok t', u))
                  (sym left) rest)) in
            (e ∷ es, entry kept parsed r, (a, c), ends, rw (kept, full_lines) (rw same refl), left')
      ]
    ]
