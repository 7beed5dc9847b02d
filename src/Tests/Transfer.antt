-- ===== src/Tests/Transfer.antt =====
-- Runs of `create_ledger_checkpoint`, `import_evidence_bundle` and `export_evidence_bundle`
-- (src/kratos_guard/core/operations.py).
use kratos_agent_guard.Prelude.{String, ◌≡◌, refl, some, none, []}
use kratos_agent_guard.Failure.{Kind, ok, fail}
use kratos_agent_guard.Stateful.{stateful_steps}
use kratos_agent_guard.Signing.Lifecycle.{copy_over}
use kratos_agent_guard.Ledger.Append.{LedgerWorld}
use kratos_agent_guard.Ledger.Checkpoint.{
  LedgerCheckpoint, checkpoint_payload, refusal, checkpoint_event, answer, append_checkpoint,
  create_ledger_checkpoint,
}
use kratos_agent_guard.Bundle.Transfer.{
  BundleFile, Folder, BundleWriter, ExportWorld, unless_imported, import_name, copy_bundle,
  import_evidence_bundle, bundle_entries, bundle_manifest, bundle_members, export_portable_trust,
  place_bundle, export_evidence_bundle,
}
use kratos_agent_guard.Bundle.Importing.{ImportOutcome, import_evidence_bundle-ImportOutcome}
use kratos_agent_guard.Bundle.Exporting.{ExportOutcome, export_evidence_bundle-ExportOutcome}
use kratos_agent_guard.Tests.Toy.{toy, digest_b}
use kratos_agent_guard.Tests.Ledger.{two_lines, ledger_steps}
use kratos_agent_guard.Tests.Bundle.{members, reader, bundle_steps}
use kratos_agent_guard.Tests.Configuration
use kratos_agent_guard.Tests.Configuration.{one_folder, configuration_steps}
use kratos_agent_guard.Tests.Appending.{context, store, one_line, append_steps}

unfoldable transfer_steps : Unit {0}
unfolding stateful_steps ledger_steps append_steps configuration_steps bundle_steps
    checkpoint_payload refusal checkpoint_event answer append_checkpoint create_ledger_checkpoint
    unless_imported import_name copy_bundle import_evidence_bundle bundle_entries bundle_manifest
    bundle_members export_portable_trust place_bundle export_evidence_bundle copy_over
transfer_steps = tt

abbrev checkpoint : LedgerCheckpoint
checkpoint = record {
  checkpoint_sequence = 2;
  checkpoint_entry_hash = digest_b;
  previous_verified_head_hash = digest_b;
}

abbrev marked : LedgerWorld
marked = (create_ledger_checkpoint toy context 300 none 9 (ok one_folder) one_line).1

-- Without a ledger there is no checkpoint.
missing_run :
    create_ledger_checkpoint toy context 300 none 9
      (ok one_folder)
      (record one_line { file = none })
    ≡ (fail Kind.value "LEDGER_MISSING", record one_line { file = none })
unfolding transfer_steps
missing_run = refl

abbrev bundle : BundleFile
bundle = record { name = "b.zip"; archive = ok members; content = "zip"; copied = "zip" }

abbrev anchor : String
anchor = "ed25519-aaaaaaaaaaaaaaaa"

abbrev no_imports : Folder
no_imports = λ name. none

abbrev imported : Folder
imported = (import_evidence_bundle toy reader (ok one_folder) bundle anchor no_imports).1

import_run :
    import_evidence_bundle toy reader (ok one_folder) bundle anchor no_imports
    ≡ (ok "bbbbbbbbbbbbbbbb-b.zip", imported)
unfolding transfer_steps
import_run = refl

import_evidence_bundle-ImportOutcome_example :
    ImportOutcome toy reader bundle anchor no_imports
      (import_evidence_bundle toy reader (ok one_folder) bundle anchor no_imports)
import_evidence_bundle-ImportOutcome_example =
    import_evidence_bundle-ImportOutcome toy reader (ok one_folder) bundle anchor no_imports

-- A bundle of the same name and content is not imported twice.
again_run :
    import_evidence_bundle toy reader (ok one_folder) bundle anchor imported
    ≡ (fail Kind.file_exists "EVIDENCE_BUNDLE_ALREADY_IMPORTED", imported)
unfolding transfer_steps
again_run = refl

abbrev writer : BundleWriter
writer = record {
  ledger_text = λ ls. "l";
  trust_files = λ d. [];
  manifest_text = λ m. "m";
  byte_count = λ s. 1;
  read_back = λ ms. ok ms;
}

abbrev nothing_exported : ExportWorld
nothing_exported = record {
  store = store;
  portable = record { public_key = λ k. none; rotation = λ j k. none; revocation = λ k. none };
  bundles = λ path. none;
}

export_run :
    (export_evidence_bundle toy reader writer Configuration.context
        (ok one_folder)
        "/e/l"
        (some two_lines)
        none
        nothing_exported).1.bundles
      "/e/l"
    ≡ some members
unfolding transfer_steps
export_run = refl

export_evidence_bundle-ExportOutcome_example :
    ExportOutcome toy reader writer Configuration.context one_folder "/e/l"
      (some two_lines)
      none
      nothing_exported
      (export_evidence_bundle toy reader writer Configuration.context
        (ok one_folder)
        "/e/l"
        (some two_lines)
        none
        nothing_exported)
export_evidence_bundle-ExportOutcome_example =
    export_evidence_bundle-ExportOutcome toy reader writer Configuration.context one_folder "/e/l"
      (some two_lines) none nothing_exported
