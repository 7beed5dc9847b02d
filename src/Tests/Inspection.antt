-- ===== src/Tests/Inspection.antt =====
-- Runs of the policies, the link, the witness and the redaction (src/kratos_guard/core and
-- src/kratos_guard/reporting).
use Prim.Native.String.{◌++◌}
use kratos_agent_guard.Prelude.{String, ◌≡◌, refl, true, false, ◌==◌, [], ◌∷◌}
use kratos_agent_guard.Failure.{Kind, ok, fail}
use kratos_agent_guard.Text.{starts_with}
use kratos_agent_guard.Json.{Json, null, str, arr, obj, nil, cons, end, field, sort_keys}
use kratos_agent_guard.Gate.Qualified.{proven, contradicted}
use kratos_agent_guard.Inspection.Policy.{
  assert_read_only_git, is_one_of, Child, Target, folder, filesystem_snapshot, sorted_children,
  insert_child, first_children, assert_target_unchanged, agree_on, value_at, SafeOutputPolicy,
  any_contains, is_authorised, evaluate_from, evaluate, require_safe, bootstrap_verdict,
  any_unauthorised, blocked_local_path_ownership,
}
use kratos_agent_guard.Inspection.Provenance.{
  SourceIdentity, ArtifactIdentity, source_to_build_link, link_verdict, hash_contradicts,
  head_contradicts, both_match, envelope_integrity, without_integrity_hash, validate_envelope,
  TargetFacts, GitAnswer, hash_file, hash_sentinels, git_digest, capture, finish, same_snapshot,
  same_hashes, MutationSnapshot, MutationWitnessResult, target_changed_during_inspection,
}
use kratos_agent_guard.Inspection.Redaction.{Patterns, redact, redact_text, substitute}
use kratos_agent_guard.Tests.Toy.{toy, digest_a, digest_b}
use kratos_agent_guard.Tests.Configuration
use kratos_agent_guard.Tests.Configuration.{configuration_steps}

unfoldable inspection_steps : Unit {0}
unfolding configuration_steps starts_with sort_keys assert_read_only_git is_one_of
    filesystem_snapshot sorted_children insert_child first_children assert_target_unchanged agree_on
    value_at any_contains is_authorised evaluate_from evaluate require_safe bootstrap_verdict
    any_unauthorised source_to_build_link link_verdict hash_contradicts head_contradicts both_match
    envelope_integrity without_integrity_hash validate_envelope hash_file hash_sentinels git_digest
    capture finish same_snapshot same_hashes redact redact_text substitute
inspection_steps = tt

allowed_run : assert_read_only_git ("status" ∷ "-z" ∷ []) ≡ ok tt
unfolding inspection_steps
allowed_run = refl

refused_run :
    assert_read_only_git ("push" ∷ [])
    ≡ fail Kind.permission "Git subcommand is not read-only allowlisted: "
unfolding inspection_steps
refused_run = refl

abbrev child : String → Child
child name = record { name = name; path = "/t/" ++ name; size = 1; modified_at = 2 }

abbrev target : Target
target = folder (child "b" ∷ child ".git" ∷ child "a" ∷ [])

snapshot_run : filesystem_snapshot target ≡ child "a" ∷ child "b" ∷ []
unfolding inspection_steps
snapshot_run = refl

unchanged_run : assert_target_unchanged (child "b" ∷ child "a" ∷ []) target ≡ ok tt
unfolding inspection_steps
unchanged_run = refl

changed_run :
    assert_target_unchanged (child "a" ∷ []) target
    ≡ fail Kind.runtime "target filesystem changed during read-only inspection"
unfolding inspection_steps
changed_run = refl

bootstrap_run :
    bootstrap_verdict (record {
      remote_matches = true;
      remote_empty = true;
      local_entries = "evidence" ∷ "src" ∷ [];
      inside_target_worktree = false;
    })
    ≡ blocked_local_path_ownership
unfolding inspection_steps
bootstrap_run = refl

-- The root "/e" holds "/e/l".
abbrev policy : SafeOutputPolicy
policy = record {
  verifier_root = "/e";
  authorised_external_roots = [];
  protected_paths = record { path = "/t"; reason = "target" } ∷ [];
}

abbrev same_path : String → String
same_path path = path

require_safe_run : require_safe Configuration.context same_path policy "/e/l" ≡ ok "/e/l"
unfolding inspection_steps
require_safe_run = refl

protected_run :
    require_safe Configuration.context same_path policy "/t"
    ≡ fail Kind.value "unsafe output path: "
unfolding inspection_steps
protected_run = refl

abbrev source : SourceIdentity
source = record { head = "abcdef"; manifest_sha256 = digest_a }

abbrev artifact : ArtifactIdentity
artifact = record {
  manifest_sha256 = digest_b;
  embedded_git_head = "abc";
  embedded_source_hash = digest_a;
  parsed_metadata_source = "";
}

link_run : (source_to_build_link source artifact).verdict ≡ proven
unfolding inspection_steps
link_run = refl

other_head_run :
    (source_to_build_link source (record artifact { embedded_git_head = "abd" })).verdict
    ≡ contradicted
unfolding inspection_steps
other_head_run = refl

envelope_run :
    validate_envelope toy (λ fs. ok (tt {0}, digest_b)) (ok (field "integrity_hash" null end))
    ≡ ok tt
unfolding inspection_steps
envelope_run = refl

abbrev git : String → GitAnswer
git text = record { exit_code = 0; output = text; output_length = 5 }

abbrev facts : TargetFacts
facts = record {
  root = "/t";
  root_mode = 0;
  root_size = 0;
  status = git "x";
  tracked = git "x";
  staged = git "x";
  conflicted = git "x";
  untracked = git "x";
  sentinels = record { resolved = "/t/a"; size = 5; content = "x" } ∷ [];
}

abbrev before : MutationSnapshot
before = record {
  captured_at = 1;
  git_status_hash = digest_b;
  tracked_diff_hash = digest_b;
  staged_diff_hash = digest_b;
  conflicted_paths_hash = digest_b;
  untracked_manifest_hash = digest_b;
  sentinel_hashes = record { path = "/t/a"; digest = digest_b; byte_count = 5 } ∷ [];
  root_metadata_hash = digest_b;
}

capture_run : capture toy 1 facts ≡ ok before
unfolding inspection_steps
capture_run = refl

abbrev witnessed : MutationWitnessResult
witnessed = record {
  started_at = 0;
  finished_at = 9;
  before = before;
  after = record before { captured_at = 8; tracked_diff_hash = digest_a };
  changed = true;
  verdict = target_changed_during_inspection;
}

finish_run : finish toy 0 before 8 9 (record facts { tracked = git "alice" }) ≡ ok witnessed
unfolding inspection_steps
finish_run = refl

-- Every text becomes "x", and "token" is the secret key.
abbrev patterns : Patterns
patterns = record { substitutions = (λ text. "x") ∷ []; is_secret_key = λ k. k == "token" }

abbrev report : Json
report = arr (cons (obj (field "token" (str "abc") (field "note" (str "abc") end))) nil)

redacted_run :
    redact patterns report
    ≡ arr (cons (obj (field "token" (str "[REDACTED]") (field "note" (str "x") end))) nil)
unfolding inspection_steps
redacted_run = refl

abbrev note : String
note = "x"
