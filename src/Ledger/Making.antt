-- ===== src/Ledger/Making.antt =====
-- What the steps of `append_ledger_entry` (src/kratos_guard/core/standalone.py) return: the tail of a
-- chain, and a signed entry that may stand behind it.

use kratos_agent_guard.Prelude.{
  ℕ, ◌+◌, String, ◌≡◌, refl, inl, inr, true, false, Option, none, some, List, [], ◌==◌, arith,
  eq-false_of_ne, length,
}
use kratos_agent_guard.Failure.{ok, Result-cases}
use kratos_agent_guard.Models.{LedgerEntry, SigningKeyIdentity, is_valid_entry}
use kratos_agent_guard.Primitives.{Primitives, IsSound, written}
use kratos_agent_guard.Signing.Trust.{directory, public_key_payload, trusted_key_path}
use kratos_agent_guard.Signing.Store.{
  KeyStore, inspect_private, sign_payload_bytes, continue-ok, pure,
}
use kratos_agent_guard.Signing.Signatures.{evidence_of, verify_payload_signature-sign}
use kratos_agent_guard.Ledger.Verify.{
  Line, model_signing_bytes, ledger_hash, parse_entry, hashed_bytes, zero_hash,
}
use kratos_agent_guard.Ledger.Chain.{Accepts, Chained, Reads, end}
use kratos_agent_guard.Ledger.Append.{
  Tail, Event, check_signer, scan_existing, full_lines, sign_entry, make_entry, pending_entry,
  sealed_entry, read_tail, no_tail, lines_of,
}
use kratos_agent_guard.Ledger.Existing.{
  IsPublished, tail_after, inspect_private-key, check_signer-ok, scan_existing-ok,
}

module _ {p : Primitives} (sound : IsSound p) where
  pub sealed_entry-valid :
      (pending : LedgerEntry) (k : String)
      → is_valid_entry pending ≡ true
      → let e = sealed_entry p pending (p.sign k (model_signing_bytes p pending)) in
        parse_entry p (written e) ≡ ok e
  unfolding sealed_entry parse_entry is_valid_entry ledger_hash
  sealed_entry-valid pending k h =
      let filled : (p.sign k (model_signing_bytes p pending) == "") ≡ false =
        eq-false_of_ne (p.sign k (model_signing_bytes p pending)) ""
          (sound.sign-ne-empty k (model_signing_bytes p pending)) in
      ground (
        arith,
        filled,
        sound.is_digest-sha256 (
            hashed_bytes p
              (record pending { signature = p.sign k (model_signing_bytes p pending) })),
      )

  module _ (k : String) (s : KeyStore) (published : IsPublished p k s)
      (f : SigningKeyIdentity × String) (found : inspect_private p s ≡ ok f) where
    pub sign_entry-ok :
        (pending e : LedgerEntry) (u : KeyStore)
        → sign_entry p pending s ≡ (ok e, u)
        → (is_valid_entry pending ≡ true)
          × (sealed_entry p pending (p.sign k (model_signing_bytes p pending)) ≡ e)
          × (s ≡ u)
    unfolding sign_entry sign_payload_bytes
    sign_entry-ok pending e u h =
        ground (arith, found, (inspect_private-key sound k s published f found).0)

    pub make_entry-ok :
        (t : Tail) (n : ℕ) (event : Event) (e : LedgerEntry) (u : KeyStore)
        → make_entry p t n event f.0 s ≡ (ok e, u)
        → (check_signer p "ACTIVE_KEY_REVOCATION_RECORD_INVALID" "ACTIVE_SIGNING_KEY_REVOKED" t
              f.0.key_id s
            ≡ ok tt)
          × (sign_entry p (pending_entry p n t event f.0.key_id) s ≡ (ok e, u))
    unfolding make_entry
    make_entry-ok t n event e u h =
        elim (Result-cases (
          check_signer p "ACTIVE_KEY_REVOCATION_RECORD_INVALID" "ACTIVE_SIGNING_KEY_REVOKED" t
            f.0.key_id s)) [
              | inr (x, failed) ↦ cc (rw (failed, make_entry) at h)
              | inl (tt, signer) ↦ (signer, rw (signer, make_entry) at h)
            ]

    pub read_tail-ok :
        (file : Option (List Line)) (r : Tail × ℕ) (u : KeyStore)
        → read_tail p file s ≡ (ok r, u)
        → (es : List LedgerEntry) × Reads p (lines_of file) es
          × Chained p (directory s.trust) 0 zero_hash "" es
          × (tail_after no_tail es ≡ r.0)
          × (r.1 ≡ length es + 1)
          × (s ≡ u)
    unfolding read_tail
    read_tail-ok none r u h = ([], end, tt, ground arith, ground arith, ground arith)
    read_tail-ok (some lines) r u h =
        let (t, v, scanned, rest) =
          continue-ok (scan_existing p 1 no_tail (full_lines lines) s)
            (λ t. pure (t, length (full_lines lines) + 1)) h in
        let (es, reads, chained, ends, same, left) =
          scan_existing-ok sound k s published f found 0 no_tail t lines v scanned in
        (es, reads, chained, ground (arith, ends), ground (arith, same), ground (arith, left))

    -- The new entry may stand behind the tail.
    pub sealed_entry-Accepts :
        (t : Tail) (n : ℕ) (event : Event)
        → (check_signer p "ACTIVE_KEY_REVOCATION_RECORD_INVALID" "ACTIVE_SIGNING_KEY_REVOKED" t
              f.0.key_id s
            ≡ ok tt)
        → let pending = pending_entry p n t event f.0.key_id in
          Accepts p
            (directory s.trust)
            n
            t.previous_hash
            t.previous_key_id
            (sealed_entry p pending (p.sign k (model_signing_bytes p pending)))
    unfolding pending_entry sealed_entry ledger_hash hashed_bytes model_signing_bytes
        trusted_key_path
    sealed_entry-Accepts t n event signer =
        let (unrevoked, follows) =
          check_signer-ok sound k s published f found _ _ t f.0.key_id signer in
        record {
          counted = refl;
          linked = refl;
          hashed = refl;
          unrevoked = unrevoked;
          follows = follows;
          evidence = evidence_of p k (model_signing_bytes p (pending_entry p n t event f.0.key_id));
          verified =
              rw ((inspect_private-key sound k s published f found).1, published.listed)
                (verify_payload_signature-sign sound k (
                  model_signing_bytes p
                    (pending_entry p n t event (public_key_payload p k).key_id)));
          accepted = refl;
        }
