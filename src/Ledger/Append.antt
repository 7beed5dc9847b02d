-- ===== src/Ledger/Append.antt =====
-- `append_ledger_entry` of src/kratos_guard/core/standalone.py, from the key store and the lines
-- of the file to the entry that is written.
use kratos_agent_guard.Prelude.{
  ℕ, ◌+◌, String, Bool, true, not, Option, none, some, List, [], ◌∷◌, ◌++◌, eqb, ◌==◌, length,
  if◌then◌else◌,
}
use kratos_agent_guard.Failure
use kratos_agent_guard.Failure.{Kind, Result, ok, err, fail}
use kratos_agent_guard.Json.{Json}
use kratos_agent_guard.Models.{LedgerEntry, SigningKeyIdentity, SignatureEvidence, is_valid_entry}
use kratos_agent_guard.Primitives.{Primitives, Stored, written}
use kratos_agent_guard.Signing.Trust.{
  RevocationState, not_revoked, revoked, revocation_invalid, key_revocation_state,
  verify_key_rotation, is_accepted,
}
use kratos_agent_guard.Signing.Store.{
  KeyStore, Action, ◌>>=◌, ◌>>◌, pure, lift, reads, raise_if, inspect_key, sign_payload_bytes,
}
use kratos_agent_guard.Signing.Lifecycle.{verify_local_payload_signature}
use kratos_agent_guard.Ledger.Verify.{
  Line, is_blank, zero_hash, model_signing_bytes, ledger_hash, parse_entry,
}
use kratos_agent_guard.Ledger.Lock.{LockContext, LockFile, LockPayload, acquire_lock, release_lock}

-- `[line for line in lines if line]`
unfoldable pub full_lines : List Line → List Line
full_lines [] = []
full_lines (l ∷ ls) = let rest = full_lines ls in if is_blank l then rest else l ∷ rest

-- What the loop over the existing entries carries.
pub record Tail : Type 0 where
  pub previous_hash : String
  pub previous_key_id : String

-- What the caller passes.
pub record Event : Type 0 where
  pub event_type : String
  pub subject : String
  pub payload : Json
  pub recorded_at : ℕ

abbrev pub raise_revocation : String → String → RevocationState → Result (Unit {0})
raise_revocation invalid gone not_revoked = ok tt
raise_revocation invalid gone revocation_invalid = fail Kind.value invalid
raise_revocation invalid gone revoked = fail Kind.value gone

abbrev pub no_tail : Tail
no_tail = record { previous_hash = zero_hash; previous_key_id = "" }

module _ (p : Primitives) where
  -- `previous and previous != new and not verify_key_rotation(...)`, turned round
  unfoldable pub may_succeed : String → String → KeyStore → Result Bool
  may_succeed previous new s =
      if previous == ""
      then ok true
      else if new == previous
      then ok true
      else verify_key_rotation p previous new s.trust

  -- The checks of one existing entry: its place and hash, its signer, its signature.
  unfoldable pub check_place : ℕ → Tail → LedgerEntry → Result (Unit {0})
  check_place expected t e =
      if not (eqb e.sequence expected)
      then fail Kind.value "LEDGER_SEQUENCE_INVALID"
      else if not (e.previous_entry_hash == t.previous_hash)
      then fail Kind.value "LEDGER_CHAIN_INVALID"
      else if not (ledger_hash p e == e.entry_hash)
      then fail Kind.value "LEDGER_ENTRY_INTEGRITY_INVALID"
      else ok tt

  abbrev pub check_follows : Bool → Result (Unit {0})
  check_follows follows = if follows then ok tt else fail Kind.value "LEDGER_KEY_TRANSITION_INVALID"

  unfoldable pub check_signer : String → String → Tail → String → KeyStore → Result (Unit {0})
  check_signer invalid gone t key_id s =
      Failure.◌>>=◌ (key_revocation_state p key_id s.trust) λ state.
        Failure.◌>>=◌ (raise_revocation invalid gone state)
          λ _. Failure.◌>>=◌ (may_succeed t.previous_key_id key_id s) check_follows

  unfoldable pub check_entry_signature : LedgerEntry → SignatureEvidence → Result Tail
  check_entry_signature e signature =
      if is_accepted signature
      then ok (record { previous_hash = e.entry_hash; previous_key_id = e.signing_key_id })
      else fail Kind.value "LEDGER_ENTRY_SIGNATURE_INVALID"

  unfoldable pub check_existing : ℕ → Tail → LedgerEntry → Action Tail
  check_existing expected t e = do
    lift (check_place expected t e)
    reads (
        check_signer "LEDGER_REVOCATION_RECORD_INVALID" "LEDGER_SIGNING_KEY_REVOKED" t
          e.signing_key_id)
    signature ←
        verify_local_payload_signature p (model_signing_bytes p e) e.signature e.signing_key_id
    lift (check_entry_signature e signature)

  unfoldable pub scan_existing : ℕ → Tail → List Line → Action Tail
  scan_existing expected t [] = pure t
  scan_existing expected t (l ∷ ls) = do
    e ← lift (parse_entry p l)
    t' ← check_existing expected t e
    scan_existing (expected + 1) t' ls

  -- The tail and the next sequence number.
  unfoldable pub read_tail : Option (List Line) → Action (Tail × ℕ)
  unfolding full_lines
  read_tail none = pure (no_tail, 1)
  read_tail (some lines) = do
    t ← scan_existing 1 no_tail (full_lines lines)
    pure (t, length (full_lines lines) + 1)

  unfoldable pub pending_entry : ℕ → Tail → Event → String → LedgerEntry
  pending_entry sequence t event key_id = record {
    sequence = sequence;
    recorded_at = event.recorded_at;
    event_type = event.event_type;
    subject = event.subject;
    payload = event.payload;
    previous_entry_hash = t.previous_hash;
    signing_key_id = key_id;
    signature = "pending";
    entry_hash = zero_hash;
  }

  -- The new entry: `entry.signature = ...`, then `entry.entry_hash = _ledger_hash(entry)`.
  unfoldable pub sealed_entry : LedgerEntry → String → LedgerEntry
  sealed_entry e signature =
      let signed = record e { signature = signature } in
      record signed { entry_hash = ledger_hash p signed }

  -- The entry is signed, and then hashed; the key must still be the one that it names.
  unfoldable pub sign_entry : LedgerEntry → Action LedgerEntry
  sign_entry pending = do
    raise_if (not (is_valid_entry pending)) Kind.value "LedgerEntry"
    signed ← reads (sign_payload_bytes p (model_signing_bytes p pending))
    raise_if (not (signed.0.key_id == pending.signing_key_id)) Kind.runtime
        "SIGNING_KEY_CHANGED_DURING_APPEND"
    pure (sealed_entry pending signed.1)

  unfoldable pub make_entry : Tail → ℕ → Event → SigningKeyIdentity → Action LedgerEntry
  make_entry t sequence event identity = do
    reads (
        check_signer "ACTIVE_KEY_REVOCATION_RECORD_INVALID" "ACTIVE_SIGNING_KEY_REVOKED" t
          identity.key_id)
    sign_entry (pending_entry sequence t event identity.key_id)

  -- What `append_ledger_entry` does while it holds the ledger's lock.
  unfoldable pub append_locked : Option (List Line) → Event → Action LedgerEntry
  append_locked file event = do
    identity ← reads (inspect_key p)
    found ← read_tail file
    make_entry found.0 found.1 event identity

-- The ledger file, its lock file and the key store.
pub record LedgerWorld : Type 0 where
  pub store : KeyStore
  pub file : Option (List Line)
  pub lock : LockFile

abbrev pub lines_of : Option (List Line) → List Line
lines_of none = []
lines_of (some lines) = lines

module _ (p : Primitives) (c : LockContext) where
  -- The line is written, and the lock is released in either case.
  abbrev finish_append :
      LedgerWorld → LockFile → Result LedgerEntry × KeyStore → Result LedgerEntry × LedgerWorld
  finish_append w l (ok e, s) = (
    ok e,
    record { store = s; file = some (lines_of w.file ++ written e ∷ []); lock = release_lock c l },
  )
  finish_append w l (err x, s) =
      (err x, record { store = s; file = w.file; lock = release_lock c l })

  abbrev pub append_under :
      Event
      → LedgerWorld
      → Result (Stored LockPayload) × LockFile
      → Result LedgerEntry × LedgerWorld
  append_under event w (err x, l) = (err x, record w { lock = l })
  append_under event w (ok own, l) = finish_append w l (append_locked p w.file event w.store)

  -- `append_ledger_entry(...)`: `again` is the lock file at the second read of a stale lock.
  unfoldable pub append_ledger_entry :
      ℕ → LockFile → Event → LedgerWorld → Result LedgerEntry × LedgerWorld
  append_ledger_entry stale_after again event w =
      append_under event w (acquire_lock c stale_after w.lock again)
