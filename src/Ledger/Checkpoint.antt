-- ===== src/Ledger/Checkpoint.antt =====
-- `create_ledger_checkpoint` of src/kratos_guard/core/operations.py.
use Prim.Native.String.{◌++◌}
use kratos_agent_guard.Prelude.{ℕ, String, Bool, true, false, not, Option, none, some}
use kratos_agent_guard.Failure.{Kind, Result}
use kratos_agent_guard.Json.{Json, obj, field, end, str, int}
use kratos_agent_guard.Models.{LedgerEntry}
use kratos_agent_guard.Primitives.{Primitives}
use kratos_agent_guard.Stateful.{Stateful, ◌>>=◌, ◌>>◌, pure, lift, reads, raise_if}
use kratos_agent_guard.Signing.Trust.{directory}
use kratos_agent_guard.Ledger.Verify.{
  LedgerVerification, LedgerVerdict, LedgerError, pass_ledger_verified, fail_ledger_verification,
  blocked_ledger_missing, missing_ledger, malformed_entry, chain_link_invalid, entry_hash_invalid,
  revocation_record_invalid, entry_signer_revoked, key_transition_invalid, entry_signature_invalid,
  verify_ledger,
}
use kratos_agent_guard.Configuration.Folders.{GuardConfiguration}
use kratos_agent_guard.Ledger.Lock.{LockContext, LockFile}
use kratos_agent_guard.Ledger.Append.{Event, LedgerWorld, append_ledger_entry}

pub record LedgerCheckpoint : Type 0 where
  pub checkpoint_sequence : ℕ
  pub checkpoint_entry_hash : String
  pub previous_verified_head_hash : String

abbrev pub is_verified : LedgerVerdict → Bool
is_verified pass_ledger_verified = true
is_verified fail_ledger_verification = false
is_verified blocked_ledger_missing = false

abbrev verdict_text : LedgerVerdict → String
verdict_text pass_ledger_verified = "PASS_LEDGER_VERIFIED"
verdict_text fail_ledger_verification = "FAIL_LEDGER_VERIFICATION"
verdict_text blocked_ledger_missing = "BLOCKED_LEDGER_MISSING"

unfoldable pub checkpoint_payload : LedgerVerification → Json
checkpoint_payload v = obj (
    field "verified_entry_count" (int v.entry_count)
      (field "verified_head_hash" (str v.head_hash) end))

module _ (p : Primitives) where
  abbrev error_text : LedgerError → String
  error_text missing_ledger = "LEDGER_MISSING"
  error_text (malformed_entry n) = "MALFORMED_ENTRY:" ++ p.decimal n
  error_text (chain_link_invalid n) = "CHAIN_LINK_INVALID:" ++ p.decimal n
  error_text (entry_hash_invalid n) = "ENTRY_HASH_INVALID:" ++ p.decimal n
  error_text (revocation_record_invalid n) = "REVOCATION_RECORD_INVALID:" ++ p.decimal n
  error_text (entry_signer_revoked n) = "ENTRY_SIGNER_REVOKED:" ++ p.decimal n
  error_text (key_transition_invalid n) = "KEY_TRANSITION_INVALID:" ++ p.decimal n
  error_text (entry_signature_invalid n) = "ENTRY_SIGNATURE_INVALID:" ++ p.decimal n

  -- `verification.first_error or verification.verdict`
  unfoldable pub refusal : Option LedgerError → LedgerVerdict → String
  refusal none verdict = verdict_text verdict
  refusal (some x) verdict = error_text x

  unfoldable pub checkpoint_event : ℕ → LedgerVerification → Event
  checkpoint_event now v = record {
    event_type = "ledger.checkpoint";
    subject = "standalone";
    payload = checkpoint_payload v;
    recorded_at = now;
  }

  unfoldable pub answer : LedgerVerification → LedgerEntry → LedgerCheckpoint
  answer v e = record {
    checkpoint_sequence = e.sequence;
    checkpoint_entry_hash = e.entry_hash;
    previous_verified_head_hash = v.head_hash;
  }

  module _ (c : LockContext) (stale_after : ℕ) (again : LockFile) (now : ℕ) where
    -- What is done with the answer of `verify_ledger`.
    unfoldable pub append_checkpoint : LedgerVerification → Stateful LedgerWorld LedgerCheckpoint
    append_checkpoint v = do
      raise_if (not (is_verified v.verdict)) Kind.value (refusal v.first_error v.verdict)
      e ← append_ledger_entry p c stale_after again (checkpoint_event now v)
      pure (answer v e)

    -- `create_ledger_checkpoint(configuration_path)`, on what `load_configuration` returns or raises,
    -- the lock and the time of the append; the trust directory is the one that the store exports to.
    unfoldable pub create_ledger_checkpoint :
        Result GuardConfiguration → Stateful LedgerWorld LedgerCheckpoint
    create_ledger_checkpoint loaded = do
      _ ← lift loaded
      v ← reads (λ w. verify_ledger p w.file (directory w.store.exported))
      append_checkpoint v
