-- ===== src/Ledger/Carrying.antt =====
-- The entry that `append_ledger_entry` (src/kratos_guard/core/standalone.py) adds is the event.
use mathlib.Core.Path.{subst}
use kratos_agent_guard.Prelude.{
  ℕ, String, ◌≡◌, refl, sym, ap, ◌∙◌, inl, inr, Option, some, List, [], ◌∷◌, ◌++◌, not, ◌==◌,
}
use kratos_agent_guard.Failure.{Kind, Result, ok, err, pair-cases, ok-injective}
use kratos_agent_guard.Models.{LedgerEntry, SigningKeyIdentity, is_valid_entry}
use kratos_agent_guard.Primitives.{Primitives, Stored, written}
use kratos_agent_guard.Signing.Store.{
  KeyStore, reads, raise_if, inspect_key, sign_payload_bytes, continue-ok,
}
use kratos_agent_guard.Ledger.Verify.{Line, model_signing_bytes}
use kratos_agent_guard.Ledger.Lock.{LockContext, LockFile, LockPayload, acquire_lock}
use kratos_agent_guard.Ledger.Append.{
  Event, Tail, LedgerWorld, lines_of, check_signer, read_tail, pending_entry, sealed_entry,
  sign_entry, make_entry, append_locked, append_under, append_ledger_entry,
}

-- The entry says what the event says.
pub record Carries (event : Event) (e : LedgerEntry) : Type 0 where
  pub event_type : e.event_type ≡ event.event_type
  pub subject : e.subject ≡ event.subject
  pub payload : e.payload ≡ event.payload
  pub recorded_at : e.recorded_at ≡ event.recorded_at

module _ (p : Primitives) (event : Event) where
  sign_entry-carries :
      (pending e : LedgerEntry) (s u : KeyStore)
      → sign_entry p pending s ≡ (ok e, u)
      → (signature : String) × (e ≡ sealed_entry p pending signature)
  unfolding sign_entry
  sign_entry-carries pending e s u h =
      let (a, s1, valid, h1) =
        continue-ok (raise_if (not (is_valid_entry pending)) Kind.value "LedgerEntry" s) _ h in
      let (signed, s2, signs, h2) =
        continue-ok (reads (sign_payload_bytes p (model_signing_bytes p pending)) s1) _ h1 in
      let (b, s3, same, h3) =
        continue-ok
          (raise_if (not (signed.0.key_id == pending.signing_key_id)) Kind.runtime
            "SIGNING_KEY_CHANGED_DURING_APPEND" s2)
          _ h2 in
      (signed.1, sym (ok-injective (ap (λ (x : Result LedgerEntry × KeyStore). x.0) h3)))

  sealed_entry-Carries :
      (t : Tail) (n : ℕ) (key_id signature : String)
      → Carries event (sealed_entry p (pending_entry p n t event key_id) signature)
  unfolding sealed_entry pending_entry
  sealed_entry-Carries t n key_id signature = record {
    event_type = refl;
    subject = refl;
    payload = refl;
    recorded_at = refl;
  }

  make_entry-Carries :
      (t : Tail) (n : ℕ) (i : SigningKeyIdentity) (e : LedgerEntry) (s u : KeyStore)
      → make_entry p t n event i s ≡ (ok e, u)
      → Carries event e
  unfolding make_entry
  make_entry-Carries t n i e s u h =
      let (a, s1, checked, h1) =
        continue-ok
          (reads
            (check_signer p "ACTIVE_KEY_REVOCATION_RECORD_INVALID" "ACTIVE_SIGNING_KEY_REVOKED" t
              i.key_id)
            s)
          _ h in
      let (signature, sealed) = sign_entry-carries (pending_entry p n t event i.key_id) e s1 u h1 in
      subst (Carries event) (sym sealed) (sealed_entry-Carries t n i.key_id signature)

  append_locked-Carries :
      (file : Option (List Line)) (e : LedgerEntry) (s u : KeyStore)
      → append_locked p file event s ≡ (ok e, u)
      → Carries event e
  unfolding append_locked
  append_locked-Carries file e s u h =
      let (i, s1, inspected, h1) = continue-ok (reads (inspect_key p) s) _ h in
      let (r, s2, read, h2) = continue-ok (read_tail p file s1) _ h1 in
      make_entry-Carries r.0 r.1 i e s2 u h2

  module _ (c : LockContext) where
    Carries-under :
        (w w' : LedgerWorld) (x : Result (Stored LockPayload) × LockFile) (e : LedgerEntry)
        → append_under p c event w x ≡ (ok e, w')
        → (w'.file ≡ some (lines_of w.file ++ written e ∷ [])) × Carries event e
    Carries-under w w' (err y, l) e h = cc
    Carries-under w w' (ok own, l) e h = elim (pair-cases (append_locked p w.file event w.store)) [
      | inr (y, u, failed) ↦ cc (rw failed at h)
      | inl (e', u, appended) ↦
          let h1 = rw appended at h in
          let same : e' ≡ e =
            ok-injective (ap (λ (z : Result LedgerEntry × LedgerWorld). z.0) h1) in
          (
            sym (ap (λ (z : Result LedgerEntry × LedgerWorld). z.1.file) h1)
                ∙ ap (λ z. some (lines_of w.file ++ written z ∷ [])) same,
            subst (Carries event) same (append_locked-Carries w.file e' w.store u appended),
          )
    ]

    -- An append that returns adds one line, the entry that it returns, and that entry says what the
    -- caller passed.
    pub append_ledger_entry-Carries :
        (stale_after : ℕ) (again : LockFile) (w w' : LedgerWorld) (e : LedgerEntry)
        → append_ledger_entry p c stale_after again event w ≡ (ok e, w')
        → (w'.file ≡ some (lines_of w.file ++ written e ∷ [])) × Carries event e
    unfolding append_ledger_entry
    append_ledger_entry-Carries stale_after again w w' e h =
        Carries-under w w' (acquire_lock c stale_after w.lock again) e h
