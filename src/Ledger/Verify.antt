-- ===== src/Ledger/Verify.antt =====
-- `verify_ledger` of src/kratos_guard/core/standalone.py, with the bytes that it hashes and the
-- bytes under its signatures.
use kratos_agent_guard.Prelude.{
  ℕ, ◌+◌, String, Bool, true, false, not, ◌&&◌, ◌||◌, Option, none, some, List, [], ◌∷◌, ltb, eqb,
  ◌==◌, if◌then◌else◌,
}
use kratos_agent_guard.Failure.{Kind, Result, ok, err, fail, ◌>>=◌}
use kratos_agent_guard.Json.{Fields, obj, int, str, field, end}
use kratos_agent_guard.Models.{
  LedgerEntry, SignatureState, signature_valid, signature_invalid, signature_revoked, unproven,
  is_valid_entry,
}
use kratos_agent_guard.Primitives.{Primitives, Stored, written, foreign}
use kratos_agent_guard.Signing.Trust.{
  TrustDirectory, TrustPath, file, directory, missing, trusted_key_path, canonical_bytes,
  verify_payload_signature, verify_key_rotation, key_revocation_state, is_accepted, is_valid,
  not_revoked, revocation_invalid, revoked,
}

pub data ChainState : Type 0 where
  chain_valid chain_invalid ledger_missing : ChainState

-- `first_error`, with the line number that its text ends in.
pub data LedgerError : Type 0 where
  missing_ledger : LedgerError
  malformed_entry chain_link_invalid entry_hash_invalid : ℕ → LedgerError
  revocation_record_invalid entry_signer_revoked : ℕ → LedgerError
  key_transition_invalid entry_signature_invalid : ℕ → LedgerError

pub data LedgerVerdict : Type 0 where
  pass_ledger_verified fail_ledger_verification blocked_ledger_missing : LedgerVerdict

pub record LedgerVerification : Type 0 where
  pub entry_count : ℕ
  pub head_hash : String
  pub chain_state : ChainState
  pub signature_state : SignatureState
  pub first_error : Option LedgerError
  pub verdict : LedgerVerdict

-- `"0" * 64`
abbrev pub zero_hash : String
zero_hash = "0000000000000000000000000000000000000000000000000000000000000000"

-- The lines of a ledger file; the blank line is `foreign ""`.
abbrev pub Line : Type 0
Line = Stored LedgerEntry

abbrev pub is_blank : Line → Bool
is_blank (written e) = false
is_blank (foreign s) = s == ""

-- The variables of the loop.
pub record Scan : Type 0 where
  pub count : ℕ
  pub previous_hash : String
  pub previous_key_id : String
  pub head_hash : String
  pub chain_state : ChainState
  pub signature_state : SignatureState
  pub first_error : Option LedgerError

abbrev pub start : Scan
start = record {
  count = 0;
  previous_hash = zero_hash;
  previous_key_id = "";
  head_hash = zero_hash;
  chain_state = ChainState.chain_valid;
  signature_state = signature_valid;
  first_error = none;
}

-- How the body of the loop ends: at its end, or by `break`.
pub data Flow : Type 0 where
  proceed break_off : Scan → Flow

abbrev pub break_chain : Scan → LedgerError → Result Flow
break_chain s e =
    ok (break_off (record s { chain_state = ChainState.chain_invalid; first_error = some e }))

abbrev pub break_signature : Scan → SignatureState → LedgerError → Result Flow
break_signature s state e =
    ok (break_off (record s { signature_state = state; first_error = some e }))

abbrev pub is_chain_valid : ChainState → Bool
is_chain_valid ChainState.chain_valid = true
is_chain_valid ChainState.chain_invalid = false
is_chain_valid ChainState.ledger_missing = false

-- `trust_path if trust_path.is_dir() else trust_path.parent`
abbrev pub trust_directory : TrustPath → TrustDirectory
trust_directory (file f parent) = parent
trust_directory (directory d) = d
trust_directory (missing parent) = parent

module _ (p : Primitives) where
  open p use {sha256, isoformat, read_entry}

  -- `model_dump` without `signature` and `entry_hash`
  abbrev pub signed_fields : LedgerEntry → Fields
  signed_fields e = field "schema_version" (str "kratos-guard.evidence-ledger-entry.v1") (
      field "sequence" (int e.sequence) (
        field "recorded_at" (str (isoformat e.recorded_at)) (
          field "event_type" (str e.event_type) (
            field "subject" (str e.subject) (
              field "payload" e.payload (
                field "previous_entry_hash" (str e.previous_entry_hash)
                  (field "signing_key_id" (str e.signing_key_id) end)))))))

  -- `_model_signing_bytes(entry)`
  unfoldable pub model_signing_bytes : LedgerEntry → String
  unfolding canonical_bytes
  model_signing_bytes e = canonical_bytes p (obj (signed_fields e))

  unfoldable pub hashed_bytes : LedgerEntry → String
  unfolding canonical_bytes
  hashed_bytes e = canonical_bytes p (obj (field "signature" (str e.signature) (signed_fields e)))

  -- `_ledger_hash(entry)`
  unfoldable pub ledger_hash : LedgerEntry → String
  unfolding hashed_bytes
  ledger_hash e = sha256 (hashed_bytes e)

  -- `LedgerEntry.model_validate_json(line)`
  unfoldable pub parse_entry : Line → Result LedgerEntry
  parse_entry (written e) = if is_valid_entry e then ok e else fail Kind.value "LedgerEntry"
  parse_entry (foreign s) = read_entry s

  abbrev pub rotation_in : TrustPath → String → String → Result Bool
  rotation_in (file f parent) previous new = ok false
  rotation_in (directory d) previous new = verify_key_rotation p previous new d
  rotation_in (missing parent) previous new = ok false

  -- Whether the entry's signer may follow the one before it.
  unfoldable pub check_transition : TrustPath → String → String → Result Bool
  check_transition trust previous new =
      if previous == "" || new == previous then ok true else rotation_in trust previous new

  -- The checks of one entry, in the order in which the loop makes them. `s` has counted the entry.
  unfoldable pub check_signature : TrustPath → Scan → ℕ → LedgerEntry → Result Flow
  unfolding check_transition
  check_signature trust s n e = do
    follows ← check_transition trust s.previous_key_id e.signing_key_id
    if not follows then break_signature s signature_invalid (key_transition_invalid n) else do
      signature ←
          verify_payload_signature p (model_signing_bytes e) e.signature
            (trusted_key_path trust e.signing_key_id) e.signing_key_id
      if not (is_accepted signature)
          then break_signature s signature_invalid (entry_signature_invalid n)
          else ok (
              proceed (record s {
                previous_hash = e.entry_hash;
                previous_key_id = e.signing_key_id;
                head_hash = e.entry_hash;
              }))

  unfoldable pub check_entry : TrustPath → Scan → ℕ → LedgerEntry → Result Flow
  check_entry trust s n e =
      if not (eqb e.sequence s.count) || not (e.previous_entry_hash == s.previous_hash)
      then break_chain s (chain_link_invalid n)
      else if not (ledger_hash e == e.entry_hash)
      then break_chain s (entry_hash_invalid n)
      else do
        revocation ← key_revocation_state p e.signing_key_id (trust_directory trust)
        elim revocation [
          | revocation_invalid ↦ break_signature s signature_invalid (revocation_record_invalid n)
          | revoked ↦ break_signature s signature_revoked (entry_signer_revoked n)
          | not_revoked ↦ check_signature trust s n e
        ]

  -- `except Exception` takes every failure of the parser.
  abbrev check_parsed : TrustPath → Scan → ℕ → Result LedgerEntry → Result Flow
  check_parsed trust s n (ok e) = check_entry trust s n e
  check_parsed trust s n (err x) = break_chain s (malformed_entry n)

  unfoldable pub check_line : TrustPath → Scan → ℕ → Line → Result Flow
  check_line trust s n line =
      check_parsed trust (record s { count = s.count + 1 }) n (parse_entry line)

  unfoldable pub scan_lines : TrustPath → ℕ → Scan → List Line → Result Scan
  scan_lines trust n s [] = ok s
  scan_lines trust n s (line ∷ lines) = elim (is_blank line) [
    | true ↦ scan_lines trust (n + 1) s lines
    | false ↦
        check_line trust s n line
        >>= elim [ proceed s' ↦ scan_lines trust (n + 1) s' lines | break_off s' ↦ ok s' ]
  ]

  unfoldable pub conclude : Scan → LedgerVerification
  conclude s = record {
    entry_count = s.count;
    head_hash = s.head_hash;
    chain_state = s.chain_state;
    signature_state = s.signature_state;
    first_error = s.first_error;
    verdict =
        if ltb 0 s.count && is_chain_valid s.chain_state && is_valid s.signature_state
        then pass_ledger_verified
        else fail_ledger_verification;
  }

  -- `verify_ledger(ledger_path, trust_path)`, on the lines of the file if there is one
  unfoldable pub verify_ledger : Option (List Line) → TrustPath → Result LedgerVerification
  verify_ledger none trust = ok (record {
    entry_count = 0;
    head_hash = zero_hash;
    chain_state = ChainState.ledger_missing;
    signature_state = unproven;
    first_error = some missing_ledger;
    verdict = blocked_ledger_missing;
  })
  verify_ledger (some lines) trust = do s ← scan_lines trust 1 start lines; ok (conclude s)
