-- ===== src/Bundle/Verify.antt =====
-- `verify_evidence_bundle` and `_first_ledger_signer` of
-- src/kratos_guard/core/operations.py.
use kratos_agent_guard.Prelude.{
  ℕ, String, Bool, true, false, ◌&&◌, Option, none, some, List, [], ◌∷◌, ◌==◌, length, add_last,
  is_empty, if◌then◌else◌,
}
use kratos_agent_guard.Failure.{Kind, Failure, Result, ok, err, fail, ◌>>=◌}
use kratos_agent_guard.Primitives.{Primitives}
use kratos_agent_guard.Signing.Trust.{TrustPath}
use kratos_agent_guard.Ledger.Verify.{
  Line, is_blank, zero_hash, parse_entry, LedgerVerification, LedgerVerdict, LedgerError,
  pass_ledger_verified, fail_ledger_verification, blocked_ledger_missing, verify_ledger,
}
use kratos_agent_guard.Bundle.Archive.{
  Member, BundleManifest, ManifestValue, ManifestFile, open_manifest, listed_files, check_files,
}

pub data ManifestState : Type 0 where
  manifest_unproven manifest_valid manifest_invalid : ManifestState

pub data AnchorState : Type 0 where
  anchor_unproven anchor_mismatch pinned_match : AnchorState

-- The ledger's state: `UNPROVEN`, or the verdict of `verify_ledger`.
pub data LedgerState : Type 0 where
  ledger_unproven : LedgerState
  verified_as : LedgerVerdict → LedgerState

pub data BundleBlocker : Type 0 where
  bundle_trust_anchor_ledger_mismatch external_trust_anchor_required : BundleBlocker
  external_trust_anchor_mismatch : BundleBlocker
  -- `verification.first_error or verification.verdict`
  ledger_blocker : Option LedgerError → LedgerVerdict → BundleBlocker
  -- `str(error)`
  raised : Failure → BundleBlocker

pub data BundleVerdict : Type 0 where
  pass_evidence_bundle_verified fail_evidence_bundle_verification : BundleVerdict

-- The variables of `verify_evidence_bundle`.
pub record Progress : Type 0 where
  pub file_count : ℕ
  pub ledger_count : ℕ
  pub ledger_head : String
  pub manifest_state : ManifestState
  pub ledger_state : LedgerState
  pub trust_anchor_key_id : String
  pub trust_anchor_state : AnchorState
  pub blockers : List BundleBlocker

abbrev pub no_progress : Progress
no_progress = record {
  file_count = 0;
  ledger_count = 0;
  ledger_head = zero_hash;
  manifest_state = manifest_unproven;
  ledger_state = ledger_unproven;
  trust_anchor_key_id = "";
  trust_anchor_state = anchor_unproven;
  blockers = [];
}

pub record EvidenceBundleVerification : Type 0 where
  pub progress : Progress
  pub verdict : BundleVerdict

-- What an extracted archive holds: the lines of `ledger.jsonl`, if it is there, and the trust folder.
pub record Extracted : Type 0 where
  pub ledger : Option (List Line)
  pub trust : TrustPath

-- The reader of JSON texts, and `archive.extractall`.
pub record BundleReader : Type 0 where
  pub read_manifest : String → Result ManifestValue
  pub extract : List Member → Result Extracted

-- The exceptions that the `except` clause names.
abbrev pub is_caught : Kind → Bool
is_caught Kind.file_not_found = true
is_caught Kind.file_exists = true
is_caught Kind.permission = true
is_caught Kind.os = true
is_caught Kind.not_a_directory = true
is_caught Kind.key = true
is_caught Kind.type = true
is_caught Kind.value = true
is_caught Kind.bad_zip_file = true
is_caught Kind.runtime = false
is_caught Kind.attribute = false
is_caught Kind.index = false
is_caught Kind.keyboard_interrupt = false

abbrev unless_valid : ManifestState → ManifestState
unless_valid manifest_unproven = manifest_invalid
unless_valid manifest_valid = manifest_valid
unless_valid manifest_invalid = manifest_invalid

-- The `except` clause.
unfoldable pub handle : Progress → Failure → Result Progress
handle s x =
    if is_caught x.kind
    then ok (record s {
      blockers = add_last s.blockers (raised x);
      manifest_state = unless_valid s.manifest_state;
    })
    else err x

abbrev pub is_manifest_valid : ManifestState → Bool
is_manifest_valid manifest_valid = true
is_manifest_valid manifest_unproven = false
is_manifest_valid manifest_invalid = false

abbrev pub is_pass : LedgerVerdict → Bool
is_pass pass_ledger_verified = true
is_pass fail_ledger_verification = false
is_pass blocked_ledger_missing = false

abbrev pub is_ledger_verified : LedgerState → Bool
is_ledger_verified ledger_unproven = false
is_ledger_verified (verified_as v) = is_pass v

unfoldable pub bundle_verdict : Progress → BundleVerdict
bundle_verdict s =
    if is_empty s.blockers
      && is_manifest_valid s.manifest_state
      && is_ledger_verified s.ledger_state
    then pass_evidence_bundle_verified
    else fail_evidence_bundle_verification

abbrev block_anchor : Progress → AnchorState → BundleBlocker → Progress
block_anchor s state b = record s { trust_anchor_state = state; blockers = add_last s.blockers b }

abbrev pub check_expected : Progress → Option String → Progress
check_expected s none = block_anchor s anchor_unproven external_trust_anchor_required
check_expected s (some key_id) =
    if key_id == s.trust_anchor_key_id
    then record s { trust_anchor_state = pinned_match }
    else block_anchor s anchor_mismatch external_trust_anchor_mismatch

-- The first signer, the manifest's anchor and the anchor that the caller expects.
unfoldable pub check_anchor : Progress → Option String → String → Progress
check_anchor s expected first_signer =
    if first_signer == s.trust_anchor_key_id
    then check_expected s expected
    else block_anchor s anchor_mismatch bundle_trust_anchor_ledger_mismatch

unfoldable pub record_ledger : Progress → LedgerVerification → Progress
record_ledger s v =
    let noted = record s {
      ledger_count = v.entry_count;
      ledger_head = v.head_hash;
      ledger_state = verified_as v.verdict;
    } in
    if is_pass v.verdict
    then noted
    else record noted { blockers = add_last s.blockers (ledger_blocker v.first_error v.verdict) }

module _ (p : Primitives) where
  unfoldable pub first_signer_in : List Line → Result String
  first_signer_in [] = fail Kind.value "LEDGER_EMPTY"
  first_signer_in (l ∷ ls) =
      let rest = first_signer_in ls in
      if is_blank l then rest else (do e ← parse_entry p l; ok e.signing_key_id)

  -- `_first_ledger_signer(ledger)`
  unfoldable pub first_ledger_signer : Option (List Line) → Result String
  first_ledger_signer none = fail Kind.file_not_found "No such file or directory"
  first_ledger_signer (some ls) = first_signer_in ls

  abbrev after_ledger : Progress → Result LedgerVerification → Result Progress
  after_ledger s (err x) = handle s x
  after_ledger s (ok v) = ok (record_ledger s v)

  abbrev after_signer : Progress → Option String → Extracted → Result String → Result Progress
  after_signer s expected x (err e) = handle s e
  after_signer s expected x (ok signer) =
      after_ledger (check_anchor s expected signer) (verify_ledger p x.ledger x.trust)

  abbrev after_extract : Progress → Option String → Result Extracted → Result Progress
  after_extract s expected (err e) = handle s e
  after_extract s expected (ok x) = after_signer s expected x (first_ledger_signer x.ledger)

  -- From the valid manifest on: the extracted ledger and its trust folder.
  unfoldable pub check_extracted :
      BundleReader → List Member → Option String → Progress → Result Progress
  check_extracted r ms expected s = after_extract s expected (r.extract ms)

  abbrev after_files :
      BundleReader → List Member → Option String → Progress → Result (Unit {0}) → Result Progress
  after_files r ms expected s (err e) = handle s e
  after_files r ms expected s (ok _) =
      check_extracted r ms expected (record s { manifest_state = manifest_valid })

  abbrev after_listed :
      BundleReader
      → List Member
      → Option String
      → Progress
      → Result (List ManifestFile)
      → Result Progress
  after_listed r ms expected s (err e) = handle s e
  after_listed r ms expected s (ok fs) =
      after_files r ms expected (record s { file_count = length fs }) (check_files p ms fs)

  abbrev after_open :
      BundleReader
      → List Member
      → Option String
      → Progress
      → Result BundleManifest
      → Result Progress
  after_open r ms expected s (err e) = handle s e
  after_open r ms expected s (ok m) =
      after_listed r ms expected (record s { trust_anchor_key_id = m.trust_anchor_key_id })
        (listed_files ms m)

  abbrev after_archive : BundleReader → Option String → Result (List Member) → Result Progress
  after_archive r expected (err e) = handle no_progress e
  after_archive r expected (ok ms) =
      after_open r ms expected no_progress (open_manifest r.read_manifest ms)

  -- The `try` statement, on the members that `zipfile.ZipFile` finds.
  unfoldable pub inspect_bundle :
      BundleReader → Option String → Result (List Member) → Result Progress
  inspect_bundle r expected archive = after_archive r expected archive

  abbrev conclude : Progress → Result EvidenceBundleVerification
  conclude s = ok (record { progress = s; verdict = bundle_verdict s })

  -- `verify_evidence_bundle(bundle, expected_trust_anchor_key_id=expected)`
  unfoldable pub verify_evidence_bundle :
      BundleReader → Option String → Result (List Member) → Result EvidenceBundleVerification
  verify_evidence_bundle r expected archive = do s ← inspect_bundle r expected archive; conclude s
