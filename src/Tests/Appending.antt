-- ===== src/Tests/Appending.antt =====
-- Runs of `append_ledger_entry` (src/kratos_guard/core/standalone.py).
use kratos_agent_guard.Prelude.{◌≡◌, refl, true, false, some, none, [], ◌∷◌}
use kratos_agent_guard.Failure.{Kind, ok, fail}
use kratos_agent_guard.Json.{null}
use kratos_agent_guard.Models.{LedgerEntry, is_valid_entry}
use kratos_agent_guard.Primitives.{Stored, written, foreign}
use kratos_agent_guard.Signing.Trust.{
  TrustDirectory, public_key_payload, key_revocation_state, verify_payload_signature,
  load_trusted_public_key, key_id_of, verify_key_rotation,
}
use kratos_agent_guard.Signing.Store.{
  KeyStore, on_posix, posix, ed25519, initialise_key, create_key, inspect_private, inspect_key,
  write_local_public_key, write_public_key, assess_key_storage, sign_payload_bytes,
}
use kratos_agent_guard.Signing.Lifecycle.{verify_local_payload_signature}
use kratos_agent_guard.Ledger.Verify.{zero_hash, ledger_hash, model_signing_bytes, parse_entry}
use kratos_agent_guard.Ledger.Lock.{
  LockContext, LockFile, LockPayload, acquire_lock, recover_stale_lock, is_abandoned, release_lock,
  own_payload,
}
use kratos_agent_guard.Ledger.Append.{
  Event, LedgerWorld, append_ledger_entry, append_locked, read_tail, scan_existing, check_existing,
  check_place, check_signer, check_entry_signature, may_succeed, make_entry, sign_entry,
  pending_entry, sealed_entry, full_lines,
}
use kratos_agent_guard.Ledger.Existing.{IsPublished}
use kratos_agent_guard.Tests.Toy.{toy, digest_a, digest_b}

abbrev alice_trust : TrustDirectory
alice_trust = record {
  public_key = λ k. some (written (public_key_payload toy "alice"));
  rotation = λ j k. none;
  revocation = λ k. none;
}

abbrev pub store : KeyStore
store = record {
  platform = on_posix;
  key_directory = posix 0o700;
  private_key = some (ed25519 "alice");
  rotation_lock = false;
  next_files = [];
  trust = alice_trust;
  exported = alice_trust;
  generator = λ n. "bob";
  generated = 0;
}

abbrev pub context : LockContext
context = record {
  now = 7_200_000_000;
  pid_exists = λ n. false;
  read_lock = λ s. none;
  is_base_sixteen = λ s. true;
  own_process = 2;
  fresh_token = digest_a;
}

-- A lock that is an hour and more old, of a process that is gone.
abbrev old_lock : LockFile
old_lock = some (written (record { created_at = 1; process_id = 1; token = digest_b }))

abbrev world : LedgerWorld
world = record { store = store; file = some (foreign "" ∷ []); lock = old_lock }

abbrev pub event : Event
event = record {
  event_type = "guard.initialised";
  subject = "standalone";
  payload = null;
  recorded_at = 5;
}

unfoldable pub append_steps : Unit {0}
unfolding append_ledger_entry append_locked read_tail scan_existing check_existing check_place
    check_signer check_entry_signature may_succeed make_entry sign_entry pending_entry sealed_entry
    full_lines initialise_key create_key inspect_private inspect_key write_local_public_key
    write_public_key assess_key_storage sign_payload_bytes verify_local_payload_signature
    ledger_hash model_signing_bytes parse_entry is_valid_entry key_revocation_state
    verify_payload_signature load_trusted_public_key key_id_of public_key_payload acquire_lock
    recover_stale_lock is_abandoned release_lock own_payload verify_key_rotation
append_steps = tt

abbrev first_entry : LedgerEntry
first_entry = record {
  sequence = 1;
  recorded_at = 5;
  event_type = "guard.initialised";
  subject = "standalone";
  payload = null;
  previous_entry_hash = zero_hash;
  signing_key_id = "ed25519-aaaaaaaaaaaaaaaa";
  signature = "~alice{}";
  entry_hash = digest_b;
}

abbrev pub one_line : LedgerWorld
one_line = record {
  store = store;
  file = some (foreign "" ∷ written first_entry ∷ []);
  lock = none;
}

first_run : append_ledger_entry toy context 3600 old_lock event world ≡ (ok first_entry, one_line)
unfolding append_steps
first_run = refl

abbrev pub two_lines : LedgerWorld
two_lines = (append_ledger_entry toy context 3600 none event one_line).1

abbrev pub second_entry : LedgerEntry
second_entry = record first_entry { sequence = 2; previous_entry_hash = digest_b }

pub second_run :
    append_ledger_entry toy context 3600 none event one_line ≡ (ok second_entry, two_lines)
unfolding append_steps
second_run = refl

pub store-IsPublished : IsPublished toy "alice" store
store-IsPublished = record { held = refl; listed = refl }

-- A lock of a live process: nothing is appended.
abbrev busy : LockContext
busy = record context { pid_exists = λ n. true }

busy_run :
    append_ledger_entry toy busy 3600 old_lock event world
    ≡ (fail Kind.runtime "LOCK_ALREADY_HELD", world)
unfolding append_steps
busy_run = refl

abbrev own : Stored LockPayload
own = written (record { created_at = 7_200_000_000; process_id = 2; token = digest_a })
