-- ===== src/Inspection/Provenance.antt =====
-- The loaded-client evidence (src/kratos_guard/core/loaded_evidence.py), the link from source to build
-- (src/kratos_guard/core/artifacts.py) and the mutation witness
-- (src/kratos_guard/core/mutation_witness.py), with hash_file of src/kratos_guard/core/hashing.py.
use Prim.Native.String.{◌++◌}
use kratos_agent_guard.Prelude.{
  ℕ, String, Bool, true, false, not, ◌&&◌, ◌||◌, List, [], ◌∷◌, ltb, eqb, ◌==◌, if◌then◌else◌,
}
use kratos_agent_guard.Failure.{Kind, Result, ok, fail, ◌>>=◌, ◌>>◌, raise_if}
use kratos_agent_guard.Text.{starts_with}
use kratos_agent_guard.Json.{obj, Fields, end, field, sort_keys}
use kratos_agent_guard.Primitives.{Primitives}
use kratos_agent_guard.Gate.Qualified.{EvidenceState, proven, contradicted, unproven}

-- `{key: value for key, value in payload.items() if key != "integrity_hash"}`
unfoldable pub without_integrity_hash : Fields → Fields
without_integrity_hash end = end
without_integrity_hash (field k v fs) =
    let rest = without_integrity_hash fs in if k == "integrity_hash" then rest else field k v rest

-- The fields of a source manifest and of an artifact manifest that the link reads.
pub record SourceIdentity : Type 0 where
  pub head : String
  pub manifest_sha256 : String

pub record ArtifactIdentity : Type 0 where
  pub manifest_sha256 : String
  pub embedded_git_head : String
  pub embedded_source_hash : String
  pub parsed_metadata_source : String

pub record ProvenanceLink : Type 0 where
  pub source_reference : String
  pub destination_reference : String
  pub verdict : EvidenceState
  pub evidence_references : List String
  pub reason : String

-- The first two tests: the hash, or the head, that the artifact names is not the source's.
unfoldable pub hash_contradicts : SourceIdentity → ArtifactIdentity → Bool
hash_contradicts s a =
    not (a.embedded_source_hash == "") && not (a.embedded_source_hash == s.manifest_sha256)

unfoldable pub head_contradicts : SourceIdentity → ArtifactIdentity → Bool
head_contradicts s a =
    not (a.embedded_git_head == "") && not (starts_with a.embedded_git_head s.head)

-- The third test: both match.
unfoldable pub both_match : SourceIdentity → ArtifactIdentity → Bool
both_match s a =
    a.embedded_source_hash == s.manifest_sha256
    && not (a.embedded_git_head == "")
    && starts_with a.embedded_git_head s.head

-- `verdict, reason`
unfoldable pub link_verdict : SourceIdentity → ArtifactIdentity → EvidenceState × String
unfolding hash_contradicts head_contradicts both_match
link_verdict s a =
    if hash_contradicts s a
    then (contradicted, "embedded source-manifest hash contradicts observed source")
    else if head_contradicts s a
    then (contradicted, "embedded Git HEAD contradicts observed source")
    else if both_match s a
    then (proven, "embedded Git HEAD and exact source-manifest hash both match")
    else (unproven, "folder names, versions, timestamps, or Git HEAD alone are insufficient")

-- `source_to_build_link(source, artifact)`
unfoldable pub source_to_build_link : SourceIdentity → ArtifactIdentity → ProvenanceLink
unfolding link_verdict
source_to_build_link s a = record {
  source_reference = s.manifest_sha256;
  destination_reference = a.manifest_sha256;
  verdict = (link_verdict s a).0;
  evidence_references =
      if a.parsed_metadata_source == "" then [] else a.parsed_metadata_source ∷ [];
  reason = (link_verdict s a).1;
}

-- What the file system says of a file, and the bytes that are read later.
pub record FileFacts : Type 0 where
  pub resolved : String
  pub size : ℕ
  pub content : String

pub record HashEvidence : Type 0 where
  pub path : String
  pub digest : String
  pub byte_count : ℕ

-- What `git` answers: the exit code, the bytes of its output and their number.
pub record GitAnswer : Type 0 where
  pub exit_code : ℕ
  pub output : String
  pub output_length : ℕ

-- What the witness sees of the target: the answers to its five commands, the sentinel files that are
-- regular files, and the mode and the size of the root.
pub record TargetFacts : Type 0 where
  pub root : String
  pub root_mode : ℕ
  pub root_size : ℕ
  pub status : GitAnswer
  pub tracked : GitAnswer
  pub staged : GitAnswer
  pub conflicted : GitAnswer
  pub untracked : GitAnswer
  pub sentinels : List FileFacts

pub record MutationSnapshot : Type 0 where
  pub captured_at : ℕ
  pub git_status_hash : String
  pub tracked_diff_hash : String
  pub staged_diff_hash : String
  pub conflicted_paths_hash : String
  pub untracked_manifest_hash : String
  pub sentinel_hashes : List HashEvidence
  pub root_metadata_hash : String

pub data WitnessVerdict : Type 0 where
  target_changed_during_inspection no_observed_target_change : WitnessVerdict

pub record MutationWitnessResult : Type 0 where
  pub started_at : ℕ
  pub finished_at : ℕ
  pub before : MutationSnapshot
  pub after : MutationSnapshot
  pub changed : Bool
  pub verdict : WitnessVerdict

unfoldable pub same_hashes : List HashEvidence → List HashEvidence → Bool
same_hashes [] [] = true
same_hashes [] (h ∷ hs) = false
same_hashes (g ∷ gs) [] = false
same_hashes (g ∷ gs) (h ∷ hs) =
    g.path == h.path && g.digest == h.digest && eqb g.byte_count h.byte_count && same_hashes gs hs

-- `==` of the dumps without `captured_at`
unfoldable pub same_snapshot : MutationSnapshot → MutationSnapshot → Bool
unfolding same_hashes
same_snapshot a b =
    a.git_status_hash == b.git_status_hash
    && a.tracked_diff_hash == b.tracked_diff_hash
    && a.staged_diff_hash == b.staged_diff_hash
    && a.conflicted_paths_hash == b.conflicted_paths_hash
    && a.untracked_manifest_hash == b.untracked_manifest_hash
    && same_hashes a.sentinel_hashes b.sentinel_hashes
    && a.root_metadata_hash == b.root_metadata_hash

module _ (p : Primitives) where
  -- `envelope_integrity(payload)`
  unfoldable pub envelope_integrity : Fields → String
  unfolding without_integrity_hash
  envelope_integrity payload = p.sha256 (p.dumps (sort_keys (obj (without_integrity_hash payload))))

  -- `validate_envelope(path)`, on what `json.loads` reads and on `model_validate`, which gives the
  -- envelope with its `integrity_hash`
  unfoldable pub validate_envelope {ℓ} :
      {E : Type ℓ} → (Fields → Result (E × String)) → Result Fields → Result E
  validate_envelope model_validate loaded = do
    payload ← loaded
    envelope ← model_validate payload
    raise_if (not (envelope.1 == envelope_integrity payload)) Kind.value
        "loaded-client evidence integrity hash mismatch"
    ok envelope.0

  -- `hash_file(path, maximum_bytes)`
  unfoldable pub hash_file : ℕ → FileFacts → Result HashEvidence
  hash_file maximum_bytes f =
      if ltb maximum_bytes f.size
      then fail Kind.value "refusing to hash file larger than "
      else ok (record { path = f.resolved; digest = p.sha256 f.content; byte_count = f.size })

  unfoldable pub hash_sentinels : List FileFacts → Result (List HashEvidence)
  unfolding hash_file
  hash_sentinels [] = ok []
  hash_sentinels (f ∷ fs) = do h ← hash_file 10_000_000 f; hs ← hash_sentinels fs; ok (h ∷ hs)

  -- `_digest(_git_bytes(root, arguments))`
  unfoldable pub git_digest : String → GitAnswer → String
  git_digest command g = p.sha256 (
      if not (eqb g.exit_code 0 || eqb g.exit_code 1)
      then "INSPECTION_FAILED:" ++ command
      else if ltb 25_000_000 g.output_length
      then "COVERAGE_LIMIT_EXCEEDED:" ++ command
      else g.output)

  -- `MutationWitness.capture()`
  unfoldable pub capture : ℕ → TargetFacts → Result MutationSnapshot
  unfolding hash_sentinels git_digest
  capture now t = do
    hashes ← hash_sentinels t.sentinels
    ok (record {
      captured_at = now;
      git_status_hash = git_digest "status" t.status;
      tracked_diff_hash = git_digest "diff" t.tracked;
      staged_diff_hash = git_digest "diff" t.staged;
      conflicted_paths_hash = git_digest "diff" t.conflicted;
      untracked_manifest_hash = git_digest "ls-files" t.untracked;
      sentinel_hashes = hashes;
      root_metadata_hash =
          p.sha256 (t.root ++ "|" ++ p.decimal t.root_mode ++ "|" ++ p.decimal t.root_size);
    })

  -- `MutationWitness.finish()`, on what the constructor kept
  unfoldable pub finish : ℕ → MutationSnapshot → ℕ → ℕ → TargetFacts → Result MutationWitnessResult
  unfolding capture same_snapshot
  finish started_at before now finished_at t = do
    after ← capture now t
    ok (record {
      started_at = started_at;
      finished_at = finished_at;
      before = before;
      after = after;
      changed = not (same_snapshot before after);
      verdict =
          if same_snapshot before after
          then no_observed_target_change
          else target_changed_during_inspection;
    })
