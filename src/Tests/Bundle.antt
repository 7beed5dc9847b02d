-- ===== src/Tests/Bundle.antt =====
-- Runs of `verify_evidence_bundle` (src/kratos_guard/core/operations.py).
use kratos_agent_guard.Prelude.{String, ◌≡◌, refl, true, Bool, some, none, List, [], ◌∷◌, Option}
use kratos_agent_guard.Failure.{Result, ok}
use kratos_agent_guard.Text.{has_piece}
use kratos_agent_guard.Models.{SignatureEvidence}
use kratos_agent_guard.Primitives.{written}
use kratos_agent_guard.Signing.Trust.{
  directory, public_key_payload, verify_payload_signature, is_accepted,
}
use kratos_agent_guard.Signing.Signatures.{verify_payload_signature-any_key_id}
use kratos_agent_guard.Ledger.Verify.{pass_ledger_verified}
use kratos_agent_guard.Bundle.Archive.{
  Member, ManifestValue, object, identity, open_manifest, check_members, listed_files, check_file,
  check_files, has_name, has_duplicate, total_size, split_slash, drop_dots, is_traversal,
  any_traversal, all_named, same_names, read_member,
}
use kratos_agent_guard.Bundle.Verify.{
  BundleReader, EvidenceBundleVerification, handle, bundle_verdict, check_anchor, record_ledger,
  first_signer_in, first_ledger_signer, check_extracted, inspect_bundle, verify_evidence_bundle,
  pass_evidence_bundle_verified, fail_evidence_bundle_verification, manifest_valid, pinned_match,
  verified_as, anchor_unproven, external_trust_anchor_required,
}
use kratos_agent_guard.Bundle.Pinned.{verify_evidence_bundle_sound, IsPinned}
use kratos_agent_guard.Tests.Toy.{toy, toy-IsSound, digest_b}
use kratos_agent_guard.Tests.Ledger.{two_lines, alice_trust, ledger_steps}

abbrev pub members : List Member
members =
    record { name = "ledger.jsonl"; file_size = 1; content = "l"; content_length = 1 }
    ∷ record { name = "manifest.json"; file_size = 1; content = "m"; content_length = 1 }
    ∷ []

abbrev manifest : ManifestValue
manifest = object (record {
  schema_version = some "kratos-guard.evidence-bundle.v1";
  trust_anchor_key_id = "ed25519-aaaaaaaaaaaaaaaa";
  files = some (record { name = "ledger.jsonl"; listed = identity (some digest_b) (some 1) } ∷ []);
})

abbrev pub reader : BundleReader
reader = record {
  read_manifest = λ text. ok manifest;
  extract = λ ms. ok (record { ledger = some two_lines; trust = directory alice_trust });
}

unfoldable pub bundle_steps : Unit {0}
unfolding ledger_steps open_manifest check_members listed_files check_file check_files has_name
    has_duplicate total_size split_slash drop_dots is_traversal any_traversal all_named same_names
    read_member handle bundle_verdict check_anchor record_ledger first_signer_in first_ledger_signer
    check_extracted inspect_bundle verify_evidence_bundle has_piece
bundle_steps = tt

abbrev passed : EvidenceBundleVerification
passed = record {
  progress = record {
    file_count = 1;
    ledger_count = 2;
    ledger_head = digest_b;
    manifest_state = manifest_valid;
    ledger_state = verified_as pass_ledger_verified;
    trust_anchor_key_id = "ed25519-aaaaaaaaaaaaaaaa";
    trust_anchor_state = pinned_match;
    blockers = [];
  };
  verdict = pass_evidence_bundle_verified;
}

pinned_run :
    verify_evidence_bundle toy reader (some "ed25519-aaaaaaaaaaaaaaaa") (ok members) ≡ ok passed
unfolding bundle_steps
pinned_run = refl

verify_evidence_bundle_sound_example :
    (ms : List Member) × (key_id : String) × (◌≡◌ {A = Result (List Member)} (ok members) (ok ms))
    × (◌≡◌ {A = Option String} (some "ed25519-aaaaaaaaaaaaaaaa") (some key_id))
    × IsPinned toy reader ms key_id passed
verify_evidence_bundle_sound_example =
    verify_evidence_bundle_sound toy reader (some "ed25519-aaaaaaaaaaaaaaaa") (ok members) passed
      pinned_run refl

-- Without an anchor, the same bundle fails.
abbrev unpinned : EvidenceBundleVerification
unpinned = record {
  progress = record passed.progress {
    trust_anchor_state = anchor_unproven;
    blockers = external_trust_anchor_required ∷ [];
  };
  verdict = fail_evidence_bundle_verification;
}

unpinned_run : verify_evidence_bundle toy reader none (ok members) ≡ ok unpinned
unfolding bundle_steps
unpinned_run = refl

traversals : any_traversal ("../x" ∷ []) ≡ Bool.true
unfolding bundle_steps
traversals = refl

-- The ledger names `ed25519-aaaaaaaaaaaaaaaa`, the key of "alice"; the file under that identifier
-- holds the key "mallory", and what "mallory" signs is accepted.
verify_payload_signature-any_key_id_example :
    (v : SignatureEvidence) × (verify_payload_signature toy "payload"
        (toy.sign "mallory" "payload")
        (some (
          written
            (record (public_key_payload toy "mallory") { key_id = "ed25519-aaaaaaaaaaaaaaaa" })))
        "ed25519-aaaaaaaaaaaaaaaa"
      ≡ ok v)
    × (v.key_id ≡ "ed25519-aaaaaaaaaaaaaaaa")
    × (is_accepted v ≡ true)
verify_payload_signature-any_key_id_example =
    verify_payload_signature-any_key_id toy-IsSound "mallory" "payload" "ed25519-aaaaaaaaaaaaaaaa"
