-- ===== src/Lib.antt =====
-- Kratos Agent Guard: a verification of the standalone Guard's core (src/kratos_guard).
--
-- The Guard is a Python program that keeps evidence about a machine. Its key store
-- (core/signing.py) holds one Ed25519 private key and a trust directory of public key files,
-- rotation records and revocation records. Its ledger (core/standalone.py) is a file of signed
-- entries, each linked to the one before by a hash; entries are appended under a lock file, with the
-- store's key. The same file issues runtime challenges, verifies the statements that answer them,
-- and takes and compares snapshots of folders. core/operations.py keeps the configuration of
-- monitored folders, runs the monitor and judges its health, and exports, imports and verifies
-- evidence bundles, which carry a ledger and a trust directory elsewhere. core/authority_gate.py turns
-- an inspection report into a verdict and an exit code. core/sealed_build.py attests a build with the
-- store's key, and verifies what a candidate's attestation claims.
--
-- Which file models which part:
-- - Prelude, Failure, Text, Json, Models, Primitives: the shared names; exceptions as values with
--   the class that a handler tests; the string tests of the pydantic models; JSON values with
--   `sort_keys`; the records of models/standalone.py and models/build.py; and what the program calls
--   but does not implement.
-- - Signing: Trust is the trust directory (load_trusted_public_key, verify_payload_signature,
--   verify_key_rotation, key_revocation_state); Store is the state of the key store with
--   initialise_key, inspect_key and sign_payload_bytes; Lifecycle is rotate_key, revoke_key and
--   verify_local_payload_signature. Growth, Permanence, Standing, Rotation, Succession and Signatures
--   hold proofs.
-- - Ledger: Verify is verify_ledger with _model_signing_bytes and _ledger_hash; Lock is
--   _exclusive_lock and _recover_stale_lock; Append is append_ledger_entry; Checkpoint is
--   create_ledger_checkpoint. Chain defines what a chain
--   of entries is; Passing, Tampering, Existing, Extending, Making, Appending, Carrying,
--   Linking and Locking hold proofs.
-- - Attestation: Records is the challenge and the statement; Verify is verify_runtime_statement on
--   the folder of replay markers; Issue is issue_runtime_challenge and
--   create_synthetic_runtime_statement. Authentic, Passing, Replay and Roundtrip hold proofs.
-- - Folder: Snapshot is snapshot_folder on a tree of folders; Compare is compare_folder_snapshots.
--   Drift and Limits hold proofs.
-- - Bundle: Archive is the tests on the members and the manifest of a bundle; Verify is
--   verify_evidence_bundle; Transfer is export_evidence_bundle and import_evidence_bundle. Clear,
--   Pinned, Importing and Exporting hold proofs.
-- - Configuration: Folders is load_configuration, register_folder and remove_folder;
--   Initialise is initialise_configuration and write_service_template. WellFormed, Removing,
--   Registering and Initialising hold proofs.
-- - Stateful: methods on a state that may raise; Keeps has the rules by which invariants and
--   conditions after a method are proved.
-- - Monitor: Health is monitor_health; Baseline is _load_baseline and _write_baseline; Run is
--   run_monitor. Running, Invariant, Bracket, Persistence, Growth, Verified, Finishing, Unlocking and
--   Reporting hold proofs.
-- - Gate: Qualified is gate_result, qualified_gate and _best_link. Boundary holds proofs.
-- - Sealed: Claims is BuildAttestation with sign_attestation and verify_attestation_signature of
--   core/signing.py; Manifest is _logical_manifest, Candidate is verify_attestation_claims,
--   verify_candidate and update_reproducibility, and Build is create_attestation,
--   write_candidate_evidence and compare_candidates, of core/sealed_build.py. Payload, Signed,
--   Attested and Resigned hold proofs.
-- - Inspection: Policy is core/policy.py, SafeOutputPolicy of core/path_security.py and
--   core/bootstrap_gate.py; Provenance is core/loaded_evidence.py, core/mutation_witness.py, hash_file of
--   core/hashing.py and source_to_build_link of core/artifacts.py; Redaction is
--   reporting/redaction.py. Output, Linked and Redacted hold proofs.
-- - Tests: runs at concrete inputs, over an interpretation of the primitives that evaluates.
--
-- How the code is modelled. A method of the key store is a function from the store to a result and
-- the store that it leaves, also when it raises. Every other function takes the state that it reads
-- and returns the state that it writes. A file that the Guard wrote is the record it wrote
-- (`written`); any other text is `foreign`, and is read by a parameter. SHA-256, Ed25519, base64,
-- the JSON writer and the readers of foreign texts are the fields of Primitives; IsSound states
-- what is documented of them, and no theorem assumes that digests never collide. Times are
-- microseconds, and random texts, generated keys, the clock, path functions and the ZIP reader are
-- arguments. Texts of errors that hold a value keep the fixed part. One process acts at a time, but
-- for the second read of a stale lock and the creation of a replay marker, where what another
-- process has done in between is an argument.
--
-- Bounds and fuel: every loop is structural recursion over the lines of a file, the members of an
-- archive, the folders of a configuration, the rounds of a run or a tree of folders, so there is no
-- fuel. The monitor runs for the number of rounds that it is given, or until an interrupt, which comes
-- between two rounds; its environment is a function of the number of clock readings. Numbers are
-- Python's unbounded ones. The program's own limits (64 hexadecimal digits of a digest, 3600 seconds
-- of a challenge, the limits of a snapshot and of a bundle) are written out.
--
-- Not modelled: source manifests, the input manifest, the snapshot and the run of the sealed build,
-- the browser inspection and canary, phases 2E to 2I, which are later work; the DPAPI
-- secret store, the adapters, the reports and the command line,
-- which are input and output. The flush of a file to disk, and the text of paths in answers, are
-- left out.
pub mod Prelude
pub mod Failure
pub mod Text
pub mod Json
pub mod Models
pub mod Primitives
pub mod Stateful
pub mod Signing
pub mod Ledger
pub mod Attestation
pub mod Folder
pub mod Bundle
pub mod Gate
pub mod Inspection
pub mod Sealed
pub mod Configuration
pub mod Monitor
pub mod Tests
