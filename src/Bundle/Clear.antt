-- ===== src/Bundle/Clear.antt =====
-- What the checks of `verify_evidence_bundle` (src/kratos_guard/core/operations.py) establish when they
-- leave no blocker.
use mathlib.Core.Path.{subst}
use kratos_agent_guard.Prelude.{
  ℕ, String, ◌≡◌, ◌≢◌, refl, sym, ap, ◌∙◌, ◌⊎◌, inl, inr, ◌==◌, true, Option, none, some, List, [],
  ◌∷◌, add_last, All, arith, eq_iff, Bool-cases,
}
use kratos_agent_guard.Failure.{Failure, ok, Result-cases, ok-injective}
use kratos_agent_guard.Primitives.{Primitives}
use kratos_agent_guard.Ledger.Verify.{
  LedgerVerdict, LedgerVerification, pass_ledger_verified, fail_ledger_verification,
  blocked_ledger_missing, verify_ledger,
}
use kratos_agent_guard.Bundle.Archive.{
  Member, ManifestFile, FileIdentity, identity, not_an_object, read_member, compare_file,
  check_file, check_files,
}
use kratos_agent_guard.Bundle.Verify.{
  Progress, BundleReader, Extracted, ledger_blocker, raised, is_caught, is_pass, handle,
  is_manifest_valid, is_ledger_verified, bundle_verdict, pass_evidence_bundle_verified,
  check_expected, check_anchor, record_ledger, first_ledger_signer, check_extracted,
}

abbrev pub IsPassing : Progress → Type 0
IsPassing s = bundle_verdict s ≡ pass_evidence_bundle_verified

is_pass-true : (v : LedgerVerdict) → is_pass v ≡ true → v ≡ pass_ledger_verified
is_pass-true pass_ledger_verified h = refl
is_pass-true fail_ledger_verification h = cc h
is_pass-true blocked_ledger_missing h = cc h

identity-cases :
    (i : FileIdentity)
    → (i ≡ not_an_object) ⊎ ((h : Option String) × (n : Option ℕ) × (i ≡ identity h n))
identity-cases not_an_object = inl refl
identity-cases (identity h n) = inr (h, n, refl)

add_last-ne-nil {ℓ} : {A : Type ℓ} (xs : List A) (x : A) → add_last xs x ≢ []
add_last-ne-nil [] x h = cc h
add_last-ne-nil (y ∷ ys) x h = cc h

bundle_verdict-pass :
    (s : Progress)
    → IsPassing s
    → (s.blockers ≡ [])
      × (is_manifest_valid s.manifest_state ≡ true)
      × (is_ledger_verified s.ledger_state ≡ true)
unfolding bundle_verdict
bundle_verdict-pass s h = ground arith

-- A failure that is caught leaves a blocker.
pub handle-fails {ℓ} :
    {P : Type ℓ} (s t : Progress) (x : Failure) → handle s x ≡ ok t → IsPassing t → P
unfolding handle
handle-fails s t x h pass = elim (Bool-cases (is_caught x.kind)) [
  | inr uncaught ↦ cc (rw (uncaught, handle) at h)
  | inl caught ↦
      let blocked = ap (λ (y : Progress). y.blockers) (ok-injective (rw (caught, handle) at h)) in
      absurd (add_last-ne-nil s.blockers (raised x) (blocked ∙ (bundle_verdict-pass t pass).0))
]

record_ledger-pass :
    (s : Progress) (v : LedgerVerification)
    → IsPassing (record_ledger s v)
    → (v.verdict ≡ pass_ledger_verified) × (s.blockers ≡ [])
unfolding record_ledger
record_ledger-pass s v h = elim (Bool-cases (is_pass v.verdict)) [
  | inl verified ↦ (
    is_pass-true v.verdict verified,
    (bundle_verdict-pass _ (rw (verified, record_ledger) at h)).0,
  )
  | inr failed ↦ absurd (
      add_last-ne-nil s.blockers (ledger_blocker v.first_error v.verdict)
        (bundle_verdict-pass _ (rw (failed, record_ledger) at h)).0)
]

record_ledger-head :
    (s : Progress) (v : LedgerVerification) → (record_ledger s v).ledger_head ≡ v.head_hash
unfolding record_ledger
record_ledger-head s v = ground arith

record_ledger-count :
    (s : Progress) (v : LedgerVerification) → (record_ledger s v).ledger_count ≡ v.entry_count
unfolding record_ledger
record_ledger-count s v = ground arith

check_expected-clear :
    (s : Progress) (expected : Option String)
    → (check_expected s expected).blockers ≡ []
    → expected ≡ some s.trust_anchor_key_id
check_expected-clear s none h = absurd (add_last-ne-nil s.blockers _ h)
check_expected-clear s (some key_id) h = elim (Bool-cases (key_id == s.trust_anchor_key_id)) [
  | inl same ↦ ap some ((eq_iff key_id s.trust_anchor_key_id).0 same)
  | inr other ↦ absurd (add_last-ne-nil s.blockers _ (rw other at h))
]

check_anchor-clear :
    (s : Progress) (expected : Option String) (signer : String)
    → (check_anchor s expected signer).blockers ≡ []
    → (signer ≡ s.trust_anchor_key_id) × (expected ≡ some s.trust_anchor_key_id)
unfolding check_anchor
check_anchor-clear s expected signer h = elim (Bool-cases (signer == s.trust_anchor_key_id)) [
  | inr other ↦ absurd (add_last-ne-nil s.blockers _ (rw (other, check_anchor) at h))
  | inl same ↦ (
    (eq_iff signer s.trust_anchor_key_id).0 same,
    check_expected-clear s expected (rw (same, check_anchor) at h),
  )
]

-- The members of a sound archive: no name leaves the folder, and the archive holds each file of the
-- manifest with its digest and its size.
pub record IsListed (p : Primitives) (ms : List Member) (f : ManifestFile) : Type 0 where
  pub member : Member
  pub found : read_member f.name ms ≡ ok member
  pub listed : f.listed ≡ identity (some (p.sha256 member.content)) (some member.content_length)

compare_file-ok :
    (p : Primitives) (m : Member) (hash : Option String) (size : Option ℕ)
    → compare_file p m (identity hash size) ≡ ok tt
    → (hash ≡ some (p.sha256 m.content)) × (size ≡ some m.content_length)
compare_file-ok p m none size h = cc h
compare_file-ok p m (some hash) none h = ground (arith, eq_iff (p.sha256 m.content) hash)
compare_file-ok p m (some hash) (some size) h = ground (arith, eq_iff (p.sha256 m.content) hash)

check_file-ok :
    (p : Primitives) (ms : List Member) (f : ManifestFile)
    → check_file p ms f ≡ ok tt
    → IsListed p ms f
unfolding check_file
check_file-ok p ms f h = elim (identity-cases f.listed) [
  | inl none_there ↦ cc (rw (none_there, check_file) at h)
  | inr (hash, size, there) ↦ elim (Result-cases (read_member f.name ms)) [
    | inr (x, failed) ↦ cc (rw (there, failed, check_file) at h)
    | inl (m, found) ↦
        let (digest, size_given) =
          compare_file-ok p m hash size (rw (there, found, check_file) at h) in
        record { member = m; found = found; listed = there ∙ rw (digest, size_given) refl }
  ]
]

pub check_files-ok :
    (p : Primitives) (ms : List Member) (fs : List ManifestFile)
    → check_files p ms fs ≡ ok tt
    → All (IsListed p ms) fs
unfolding check_files
check_files-ok p ms [] h = tt
check_files-ok p ms (f ∷ fs) h = elim (Result-cases (check_file p ms f)) [
  | inr (x, failed) ↦ cc (rw failed at h)
  | inl (tt, checked) ↦ (check_file-ok p ms f checked, check_files-ok p ms fs (rw checked at h))
]

-- The last part of the checks.
pub record IsAnchored (p : Primitives) (r : BundleReader) (ms : List Member)
    (expected : Option String) (s t : Progress) : Type 0 where
  pub extracted : Extracted
  pub is_extracted : r.extract ms ≡ ok extracted
  pub first_signer : first_ledger_signer p extracted.ledger ≡ ok s.trust_anchor_key_id
  pub is_expected : expected ≡ some s.trust_anchor_key_id
  pub verification : LedgerVerification
  pub verified : verify_ledger p extracted.ledger extracted.trust ≡ ok verification
  pub is_verified : verification.verdict ≡ pass_ledger_verified
  pub head : t.ledger_head ≡ verification.head_hash
  pub count : t.ledger_count ≡ verification.entry_count

pub check_extracted-pass :
    (p : Primitives) (r : BundleReader) (ms : List Member) (expected : Option String)
    (s t : Progress)
    → check_extracted p r ms expected s ≡ ok t
    → IsPassing t
    → IsAnchored p r ms expected s t
unfolding check_extracted
check_extracted-pass p r ms expected s t h pass = elim (Result-cases (r.extract ms)) [
  | inr (x, failed) ↦ handle-fails s t x (rw (failed, check_extracted) at h) pass
  | inl (e, extracted) ↦ elim (Result-cases (first_ledger_signer p e.ledger)) [
    | inr (x, failed) ↦ handle-fails s t x (rw (extracted, failed, check_extracted) at h) pass
    | inl (signer, signed) ↦ elim (Result-cases (verify_ledger p e.ledger e.trust)) [
      | inr (x, failed) ↦
          handle-fails (check_anchor s expected signer) t x
            (rw (extracted, signed, failed, check_extracted) at h) pass
      | inl (v, verified) ↦
          let same : record_ledger (check_anchor s expected signer) v ≡ t =
            ok-injective (rw (extracted, signed, verified, check_extracted) at h) in
          let (is_verified, clear) =
            record_ledger-pass (check_anchor s expected signer) v
              (subst IsPassing (sym same) pass) in
          let (same_signer, is_expected) = check_anchor-clear s expected signer clear in
          record {
            extracted = e;
            is_extracted = extracted;
            first_signer = signed ∙ ap ok same_signer;
            is_expected = is_expected;
            verification = v;
            verified = verified;
            is_verified = is_verified;
            head = sym (ap (λ (x : Progress). x.ledger_head) same) ∙ record_ledger-head _ v;
            count = sym (ap (λ (x : Progress). x.ledger_count) same) ∙ record_ledger-count _ v;
          }
    ]
  ]
]
