-- ===== src/Bundle/Importing.antt =====
-- What an import of an evidence bundle (`import_evidence_bundle` of src/kratos_guard/core/operations.py)
-- has done when it returns, and what it leaves when it raises.
use mathlib.Core.Path.{subst}
use kratos_agent_guard.Prelude.{
  String, ◌≡◌, refl, sym, ap, ◌∙◌, inl, inr, false, not, none, some, ◌==◌, eq_iff, arith,
  Option-cases,
}
use kratos_agent_guard.Failure.{Kind, Result, ok, err, pair-cases}
use kratos_agent_guard.Primitives.{Primitives}
use kratos_agent_guard.Stateful.{
  lift, reads, modify, raise_if, bind-ok, lift-ok, reads-ok, modify-ok, pure-ok, raise_if-ok,
}
use kratos_agent_guard.Stateful.Keeps.{
  Leads, Leads-Keeps, Leads-bind, Leads-modify, Leads-err, Keeps-lift, Keeps-reads, Keeps-raise_if,
  Keeps-pure,
}
use kratos_agent_guard.Signing.Store.{put_key}
use kratos_agent_guard.Configuration.Folders.{GuardConfiguration}
use kratos_agent_guard.Bundle.Verify.{
  BundleReader, EvidenceBundleVerification, BundleVerdict, pass_evidence_bundle_verified,
  fail_evidence_bundle_verification, verify_evidence_bundle,
}
use kratos_agent_guard.Bundle.Transfer.{
  BundleFile, Folder, is_bundle_verified, unless_imported, import_name, copy_bundle,
  import_evidence_bundle,
}

module _ (p : Primitives) (r : BundleReader) where
  -- What the copy has done.
  abbrev HasCopied : BundleFile → String → Folder → Folder → Type 0
  HasCopied b name imports imports' =
      (name ≡ import_name p r b)
      × (imports name ≡ none)
      × (p.sha256 b.copied ≡ p.sha256 b.content)
      × (imports' ≡ put_key name b.copied imports)

  unless_imported-ok :
      (name : String) (imports : Folder) {a : Unit {0}}
      → unless_imported name imports ≡ ok a
      → imports name ≡ none
  unfolding unless_imported
  unless_imported-ok name imports h = elim (Option-cases (imports name)) [
    | inl absent ↦ absent
    | inr (content, found) ↦ cc (rw (found, unless_imported) at h)
  ]

  copy_bundle-HasCopied :
      (b : BundleFile) (name : String) (imports imports' : Folder)
      → copy_bundle p r b imports ≡ (ok name, imports')
      → HasCopied b name imports imports'
  unfolding copy_bundle
  copy_bundle-HasCopied b name imports imports' run =
      let own = import_name p r b in
      let differs = not (p.sha256 b.copied == p.sha256 b.content) in
      let (x, s1, absent, h1) = bind-ok (reads (unless_imported own)) _ imports run in
      let (y, s2, checked, h2) = bind-ok (raise_if differs Kind.os _) _ s1 h1 in
      let (z, s3, put, h3) = bind-ok (modify (put_key own b.copied)) _ s2 h2 in
      let (new, same1) = reads-ok (unless_imported own) imports absent in
      let (equal, same2) = raise_if-ok differs Kind.os _ s1 checked in
      let (named, last) = pure-ok own s3 h3 in
      (
        sym named,
        ap imports (sym named) ∙ unless_imported-ok own imports new,
        ground (arith, equal, eq_iff (p.sha256 b.copied) (p.sha256 b.content)),
        last
            ∙ modify-ok (put_key own b.copied) s2 put
            ∙ ap (put_key own b.copied) (same2 ∙ same1)
            ∙ ap (λ n. put_key n b.copied imports) named,
      )

  -- How an import ends.
  abbrev pub ImportOutcome : BundleFile → String → Folder → Result String × Folder → Type 0
  ImportOutcome b expected imports (ok name, imports') =
      (v : EvidenceBundleVerification) × (verify_evidence_bundle p r (some expected) b.archive
        ≡ ok v)
      × (v.verdict ≡ pass_evidence_bundle_verified)
      × HasCopied b name imports imports'
  ImportOutcome b expected imports (err x, imports') = imports' ≡ imports

  pub is_bundle_verified-pass :
      (v : BundleVerdict) → not (is_bundle_verified v) ≡ false → v ≡ pass_evidence_bundle_verified
  is_bundle_verified-pass pass_evidence_bundle_verified h = refl
  is_bundle_verified-pass fail_evidence_bundle_verification h = cc h

  module _ (loaded : Result GuardConfiguration) (b : BundleFile) (expected : String)
      (imports : Folder) where
    abbrev Unchanged : Folder → Type 0
    Unchanged x = x ≡ imports

    abbrev Anything : Folder → Type 0
    Anything x = Unit {0}

    raises-Unchanged :
        Leads Unchanged Anything Unchanged (import_evidence_bundle p r loaded b expected)
    unfolding import_evidence_bundle copy_bundle
    raises-Unchanged =
        let same : (x : Folder) → Unchanged x → Unchanged x = λ x h. h in
        Leads-bind _ _ (Leads-Keeps _ (Keeps-lift same _)) λ v.
          Leads-bind _ _ (Leads-Keeps _ (Keeps-raise_if same _ _ _)) λ x.
            Leads-bind _ _ (Leads-Keeps _ (Keeps-lift same _)) λ c.
              Leads-bind _ _ (Leads-Keeps _ (Keeps-reads same _)) λ y.
                Leads-bind _ _ (Leads-Keeps _ (Keeps-raise_if same _ _ _))
                  λ z. Leads-bind _ _ (Leads-modify _ (λ u h. tt)) λ a. Leads-Keeps _ (Keeps-pure _)

    returns-copied :
        (name : String) (imports' : Folder)
        → import_evidence_bundle p r loaded b expected imports ≡ (ok name, imports')
        → ImportOutcome b expected imports (ok name, imports')
    unfolding import_evidence_bundle
    returns-copied name imports' run =
        let (v, s1, verified, h1) =
          bind-ok (lift (verify_evidence_bundle p r (some expected) b.archive)) _ imports run in
        let (x, s2, checked, h2) =
          bind-ok (raise_if (not (is_bundle_verified v.verdict)) Kind.value _) _ s1 h1 in
        let (c, s3, loads, h3) = bind-ok (lift loaded) _ s2 h2 in
        let (passes, same1) = lift-ok _ imports verified in
        let (pass, same2) = raise_if-ok _ Kind.value _ s1 checked in
        let (loaded_ok, same3) = lift-ok loaded s2 loads in
        (
          v,
          passes,
          is_bundle_verified-pass v.verdict pass,
          copy_bundle-HasCopied b name imports imports'
              (subst (λ u. copy_bundle p r b u ≡ (ok name, imports')) (same3 ∙ same2 ∙ same1) h3),
        )

    -- An import that returns verified the bundle against the caller's anchor and added one file under
    -- a new name, with the digest of the bundle; one that raises leaves the folder as it was.
    pub import_evidence_bundle-ImportOutcome :
        ImportOutcome b expected imports (import_evidence_bundle p r loaded b expected imports)
    import_evidence_bundle-ImportOutcome =
        elim (pair-cases (import_evidence_bundle p r loaded b expected imports)) [
          | inl (name, imports', run) ↦
              subst (ImportOutcome b expected imports) (sym run) (returns-copied name imports' run)
          | inr (x, imports', run) ↦
              subst (ImportOutcome b expected imports) (sym run)
                (Leads-err _ raises-Unchanged imports x imports' refl run)
        ]
