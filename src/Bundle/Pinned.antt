-- ===== src/Bundle/Pinned.antt =====
-- What a bundle that `verify_evidence_bundle` (src/kratos_guard/core/operations.py) passes holds.

use kratos_agent_guard.Prelude.{
  String, ◌≡◌, refl, sym, ap, ◌∙◌, inl, inr, Option, some, List, length, All,
}
use kratos_agent_guard.Failure.{Result, ok, err, Result-cases, ok-injective}
use kratos_agent_guard.Primitives.{Primitives}
use kratos_agent_guard.Ledger.Verify.{LedgerVerification, pass_ledger_verified, verify_ledger}
use kratos_agent_guard.Bundle.Archive.{
  Member, BundleManifest, ManifestFile, open_manifest, listed_files, check_files,
}
use kratos_agent_guard.Bundle.Verify.{
  Progress, no_progress, manifest_valid, BundleReader, Extracted, pass_evidence_bundle_verified,
  first_ledger_signer, inspect_bundle, verify_evidence_bundle, EvidenceBundleVerification,
}
use kratos_agent_guard.Bundle.Clear.{
  IsPassing, handle-fails, IsListed, check_files-ok, IsAnchored, check_extracted-pass,
}

record IsOpened (p : Primitives) (r : BundleReader) (ms : List Member) (expected : Option String)
    (t : Progress) : Type 0 where
  pub manifest : BundleManifest
  pub opened : open_manifest r.read_manifest ms ≡ ok manifest
  pub files : List ManifestFile
  pub are_listed : listed_files ms manifest ≡ ok files
  pub are_sound : All (IsListed p ms) files
  pub anchored :
      IsAnchored p r ms expected
        (record no_progress {
          trust_anchor_key_id = manifest.trust_anchor_key_id;
          file_count = length files;
          manifest_state = manifest_valid;
        })
        t

inspect_bundle-pass :
    (p : Primitives) (r : BundleReader) (expected : Option String) (archive : Result (List Member))
    (t : Progress)
    → inspect_bundle p r expected archive ≡ ok t
    → IsPassing t
    → (ms : List Member) × (archive ≡ ok ms) × IsOpened p r ms expected t
unfolding inspect_bundle
inspect_bundle-pass p r expected (err x) t h pass = handle-fails no_progress t x h pass
inspect_bundle-pass p r expected (ok ms) t h pass =
    elim (Result-cases (open_manifest r.read_manifest ms)) [
      | inr (x, failed) ↦ handle-fails no_progress t x (rw (failed, inspect_bundle) at h) pass
      | inl (m, opened) ↦
          let s = record no_progress { trust_anchor_key_id = m.trust_anchor_key_id } in
          elim (Result-cases (listed_files ms m)) [
            | inr (x, failed) ↦ handle-fails s t x (rw (opened, failed, inspect_bundle) at h) pass
            | inl (fs, listed) ↦
                let s' = record s { file_count = length fs } in
                elim (Result-cases (check_files p ms fs)) [
                  | inr (x, failed) ↦
                      handle-fails s' t x (rw (opened, listed, failed, inspect_bundle) at h) pass
                  | inl (tt, sound) ↦ (
                    ms,
                    refl,
                    record {
                      manifest = m;
                      opened = opened;
                      files = fs;
                      are_listed = listed;
                      are_sound = check_files-ok p ms fs sound;
                      anchored =
                          check_extracted-pass p r ms expected
                            (record s' { manifest_state = manifest_valid }) t
                            (rw (opened, listed, sound, inspect_bundle) at h) pass;
                    },
                  )
                ]
          ]
    ]

-- What a bundle that passes holds, under the anchor that the caller gave.
pub record IsPinned (p : Primitives) (r : BundleReader) (ms : List Member) (key_id : String)
    (v : EvidenceBundleVerification) : Type 0 where
  pub manifest : BundleManifest
  pub opened : open_manifest r.read_manifest ms ≡ ok manifest
  pub anchor : manifest.trust_anchor_key_id ≡ key_id
  pub files : List ManifestFile
  pub are_listed : listed_files ms manifest ≡ ok files
  pub are_sound : All (IsListed p ms) files
  pub extracted : Extracted
  pub is_extracted : r.extract ms ≡ ok extracted
  pub first_signer : first_ledger_signer p extracted.ledger ≡ ok key_id
  pub verification : LedgerVerification
  pub verified : verify_ledger p extracted.ledger extracted.trust ≡ ok verification
  pub is_verified : verification.verdict ≡ pass_ledger_verified
  pub head : v.progress.ledger_head ≡ verification.head_hash
  pub count : v.progress.ledger_count ≡ verification.entry_count

-- A bundle passes only under an anchor that the caller gave: the manifest names that anchor and the
-- ledger's first entry names it as its signer, every file of the manifest is in the archive with its digest
-- and its size, and `verify_ledger` passes the extracted ledger under the extracted trust folder,
-- with the count and the head hash of the answer.
pub verify_evidence_bundle_sound :
    (p : Primitives) (r : BundleReader) (expected : Option String) (archive : Result (List Member))
    (v : EvidenceBundleVerification)
    → verify_evidence_bundle p r expected archive ≡ ok v
    → v.verdict ≡ pass_evidence_bundle_verified
    → (ms : List Member) × (key_id : String) × (archive ≡ ok ms)
      × (expected ≡ some key_id)
      × IsPinned p r ms key_id v
unfolding verify_evidence_bundle
verify_evidence_bundle_sound p r expected archive v h pass =
    elim (Result-cases (inspect_bundle p r expected archive)) [
      | inr (x, failed) ↦ cc (rw (failed, verify_evidence_bundle) at h)
      | inl (t, inspected) ↦
          let same = ok-injective (rw (inspected, verify_evidence_bundle) at h) in
          let passes : IsPassing t =
            ap (λ (x : EvidenceBundleVerification). x.verdict) same ∙ pass in
          let (ms, is_archive, o) = inspect_bundle-pass p r expected archive t inspected passes in
          let a = o.anchored in
          (
            ms,
            o.manifest.trust_anchor_key_id,
            is_archive,
            a.is_expected,
            record {
              manifest = o.manifest;
              opened = o.opened;
              anchor = refl;
              files = o.files;
              are_listed = o.are_listed;
              are_sound = o.are_sound;
              extracted = a.extracted;
              is_extracted = a.is_extracted;
              first_signer = a.first_signer;
              verification = a.verification;
              verified = a.verified;
              is_verified = a.is_verified;
              head =
                  sym (ap (λ (x : EvidenceBundleVerification). x.progress.ledger_head) same)
                  ∙ a.head;
              count =
                  sym (ap (λ (x : EvidenceBundleVerification). x.progress.ledger_count) same)
                  ∙ a.count;
            },
          )
    ]
