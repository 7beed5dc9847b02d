-- ===== src/Tests/Ledger.antt =====
-- Runs of the ledger (src/kratos_guard/core/standalone.py).
use kratos_agent_guard.Prelude.{
  ℕ, String, ◌≡◌, ◌<◌, refl, some, none, List, [], ◌∷◌, ◌⊎◌, Option, arith, length,
}
use kratos_agent_guard.Failure.{ok}
use kratos_agent_guard.Json.{null}
use kratos_agent_guard.Models.{LedgerEntry, is_valid_entry}
use kratos_agent_guard.Primitives.{written, foreign}
use kratos_agent_guard.Signing.Trust.{
  TrustDirectory, directory, key_revocation_state, verify_payload_signature,
  load_trusted_public_key, key_id_of, trusted_key_path,
}
use kratos_agent_guard.Ledger.Verify.{
  Line, zero_hash, verify_ledger, scan_lines, check_line, check_entry, check_signature,
  check_transition, conclude, ledger_hash, model_signing_bytes, parse_entry, LedgerVerification,
}
use kratos_agent_guard.Ledger.Chain.{Reads, Chained, entry, blank, end}
use kratos_agent_guard.Ledger.Passing.{passed, verify_ledger_sound, verify_ledger_complete}
use kratos_agent_guard.Ledger.Tampering.{SameEntries, Collision, head_hash_pins_ledger}
use kratos_agent_guard.Tests.Toy.{toy, digest_b}

abbrev pub alice_trust : TrustDirectory
alice_trust = record {
  public_key = λ k. some (
      written (record {
        algorithm = "Ed25519";
        key_id = "ed25519-aaaaaaaaaaaaaaaa";
        public_key_fingerprint = "aaaaaaaaaaaaaaaaaaaaaaaaaaaaaaaaaaaaaaaaaaaaaaaaaaaaaaaaaaaaaaaa";
        public_key_base64 = "alice";
      }));
  rotation = λ j k. none;
  revocation = λ k. none;
}

abbrev entry_at : ℕ → String → LedgerEntry
entry_at n previous = record {
  sequence = n;
  recorded_at = n;
  event_type = "guard.initialised";
  subject = "standalone";
  payload = null;
  previous_entry_hash = previous;
  signing_key_id = "ed25519-aaaaaaaaaaaaaaaa";
  signature = "~alice{}";
  entry_hash = digest_b;
}

abbrev two_entries : List LedgerEntry
two_entries = entry_at 1 zero_hash ∷ entry_at 2 digest_b ∷ []

-- The file has a blank line between the entries.
abbrev pub two_lines : List Line
two_lines = written (entry_at 1 zero_hash) ∷ foreign "" ∷ written (entry_at 2 digest_b) ∷ []

unfoldable pub ledger_steps : Unit {0}
unfolding verify_ledger scan_lines check_line check_entry check_signature check_transition conclude
    ledger_hash model_signing_bytes parse_entry is_valid_entry key_revocation_state
    verify_payload_signature load_trusted_public_key key_id_of trusted_key_path
ledger_steps = tt

abbrev two_passed : LedgerVerification
two_passed = passed toy (directory alice_trust) two_entries

verify_run : verify_ledger toy (some two_lines) (directory alice_trust) ≡ ok two_passed
unfolding ledger_steps
verify_run = refl

two_lines-Reads : Reads toy two_lines two_entries
unfolding ledger_steps
two_lines-Reads = entry refl refl (blank refl (entry refl refl end))

two_entries-Chained : Chained toy (directory alice_trust) 0 zero_hash "" two_entries
unfolding ledger_steps
two_entries-Chained = (
  record {
    counted = refl;
    linked = refl;
    hashed = refl;
    unrevoked = refl;
    follows = refl;
    evidence = _;
    verified = refl;
    accepted = refl;
  },
  (
    record {
      counted = refl;
      linked = refl;
      hashed = refl;
      unrevoked = refl;
      follows = refl;
      evidence = _;
      verified = refl;
      accepted = refl;
    },
    tt,
  ),
)

verify_ledger_complete_example :
    verify_ledger toy (some two_lines) (directory alice_trust) ≡ ok two_passed
verify_ledger_complete_example =
    verify_ledger_complete toy (directory alice_trust) two_lines two_entries two_lines-Reads
      two_entries-Chained (omega arith)

verify_ledger_sound_example :
    (ls : List Line) × (es : List LedgerEntry) × (◌≡◌ {A = Option (List Line)}
      (some two_lines)
      (some ls))
    × Reads toy ls es
    × Chained toy (directory alice_trust) 0 zero_hash "" es
    × (0 < length es)
    × (two_passed ≡ passed toy (directory alice_trust) es)
verify_ledger_sound_example =
    verify_ledger_sound toy (directory alice_trust) (some two_lines) two_passed verify_run refl

head_hash_pins_ledger_example :
    (ls ls' : List Line) × (es es' : List LedgerEntry) × (◌≡◌ {A = Option (List Line)}
      (some two_lines)
      (some ls))
    × (◌≡◌ {A = Option (List Line)} (some two_lines) (some ls'))
    × Reads toy ls es
    × Reads toy ls' es'
    × (SameEntries toy es es' ⊎ Collision toy)
head_hash_pins_ledger_example =
    head_hash_pins_ledger toy (some two_lines) (some two_lines) (directory alice_trust)
      (directory alice_trust) two_passed two_passed verify_run verify_run refl refl refl
