-- ===== src/Bundle/Exporting.antt =====
-- What an export of an evidence bundle (`export_evidence_bundle` of src/kratos_guard/core/operations.py)
-- has done when it returns, and what it leaves when it raises.
use mathlib.Core.Path.{subst}
use kratos_agent_guard.Prelude.{
  String, ◌≡◌, refl, sym, ap, ◌∙◌, not-false, inl, inr, true, not, Option, none, some, List,
}
use kratos_agent_guard.Failure.{Kind, Result, ok, err, pair-cases, ok-injective}
use kratos_agent_guard.Models.{SigningKeyIdentity}
use kratos_agent_guard.Primitives.{Primitives}
use kratos_agent_guard.Stateful.{
  lift, gets, modify, raise_if, bind-ok, lift-ok, gets-ok, modify-ok, pure-ok, raise_if-ok,
}
use kratos_agent_guard.Stateful.Keeps.{
  Keeps, Keeps-of_always, Leads, Leads-Keeps, Leads-bind, Leads-modify, Leads-err, Keeps-lift,
  Keeps-gets, Keeps-raise_if, Keeps-pure, Keeps-ok,
}
use kratos_agent_guard.Signing.Store.{KeyStore, put_key, initialise_key}
use kratos_agent_guard.Signing.Trust.{TrustDirectory}
use kratos_agent_guard.Ledger.Verify.{Line}
use kratos_agent_guard.Configuration.Folders.{GuardConfiguration, PathContext, contains}
use kratos_agent_guard.Bundle.Archive.{Member}
use kratos_agent_guard.Bundle.Verify.{
  BundleReader, EvidenceBundleVerification, pass_evidence_bundle_verified, verify_evidence_bundle,
  first_ledger_signer,
}
use kratos_agent_guard.Bundle.Transfer.{
  BundleWriter, ExportWorld, is_bundle_verified, bundle_entries, bundle_members, require_ledger,
  copy_trust, export_portable_trust, place_bundle, export_evidence_bundle,
}
use kratos_agent_guard.Bundle.Importing.{is_bundle_verified-pass}

module _ (p : Primitives) (r : BundleReader) (z : BundleWriter) where
  -- The archive passes under the anchor and is the one file that is written.
  abbrev HasPlaced : String → String → List Member → ExportWorld → ExportWorld → Type 0
  HasPlaced destination anchor members w w' =
      (v : EvidenceBundleVerification) × (verify_evidence_bundle p r (some anchor)
          (z.read_back members)
        ≡ ok v)
      × (v.verdict ≡ pass_evidence_bundle_verified)
      × (w'.bundles ≡ put_key destination members w.bundles)

  place_bundle-HasPlaced :
      (destination anchor : String) (members : List Member) (w w' : ExportWorld) (name : String)
      → place_bundle p r z destination anchor members w ≡ (ok name, w')
      → HasPlaced destination anchor members w w'
        × (w'.portable ≡ w.portable)
        × (name ≡ destination)
  unfolding place_bundle
  place_bundle-HasPlaced destination anchor members w w' name run =
      let stored : ExportWorld → ExportWorld =
        λ u. record u { bundles = put_key destination members u.bundles } in
      let (v, s1, verified, h1) =
        bind-ok (lift (verify_evidence_bundle p r (some anchor) (z.read_back members))) _ w run in
      let (x, s2, checked, h2) =
        bind-ok (raise_if (not (is_bundle_verified v.verdict)) Kind.value _) _ s1 h1 in
      let (y, s3, put, h3) = bind-ok (modify stored) _ s2 h2 in
      let (passes, same1) = lift-ok _ w verified in
      let (pass, same2) = raise_if-ok _ Kind.value _ s1 checked in
      let (named, last) = pure-ok destination s3 h3 in
      let whole : w' ≡ stored w = last ∙ modify-ok stored s2 put ∙ ap stored (same2 ∙ same1) in
      (
        (
          v,
          passes,
          is_bundle_verified-pass p r v.verdict pass,
          ap (λ (u : ExportWorld). u.bundles) whole,
        ),
        ap (λ (u : ExportWorld). u.portable) whole,
        sym named,
      )

  copy_trust-bundles :
      (w : ExportWorld) (x : Result SigningKeyIdentity × KeyStore)
      → (copy_trust p r z w x).1.bundles ≡ w.bundles
  copy_trust-bundles w (err e, s) = refl
  copy_trust-bundles w (ok own, s) = refl

  HasBundles-export_portable_trust :
      (bundles : String → Option (List Member))
      → Keeps (λ u. u.bundles ≡ bundles) (λ u. u.bundles ≡ bundles) (export_portable_trust p r z)
  unfolding export_portable_trust
  HasBundles-export_portable_trust bundles =
      Keeps-of_always _ (λ w h. copy_trust-bundles w (initialise_key p w.store) ∙ h)

  require_ledger-ok :
      (ledger : Option (List Line)) (lines : List Line)
      → require_ledger p r z ledger ≡ ok lines
      → ledger ≡ some lines
  require_ledger-ok none lines h = cc h
  require_ledger-ok (some ls) lines h = ap some (ok-injective h)

  -- How an export ends.
  abbrev pub ExportOutcome :
      PathContext
      → GuardConfiguration
      → String
      → Option (List Line)
      → Option String
      → ExportWorld
      → Result String × ExportWorld
      → Type 0
  ExportOutcome x c destination ledger state w (ok name, w') =
      (name ≡ destination)
      × (contains x (x.resolve c.evidence_root) destination ≡ true)
      × ((lines : List Line) × (anchor : String) × (ledger ≡ some lines)
          × (first_ledger_signer p ledger ≡ ok anchor)
          × HasPlaced destination anchor
              (bundle_members p r z anchor (bundle_entries p r z lines w'.portable state)) w w')
  ExportOutcome x c destination ledger state w (err e, w') = w'.bundles ≡ w.bundles

  module _ (x : PathContext) (c : GuardConfiguration) (destination : String)
      (ledger : Option (List Line)) (state : Option String) (w : ExportWorld) where
    abbrev Unchanged : ExportWorld → Type 0
    Unchanged u = u.bundles ≡ w.bundles

    abbrev Anything : ExportWorld → Type 0
    Anything u = Unit {0}

    place_bundle-Unchanged :
        (anchor : String) (members : List Member)
        → Leads Unchanged Anything Unchanged (place_bundle p r z destination anchor members)
    unfolding place_bundle
    place_bundle-Unchanged anchor members =
        let same : (u : ExportWorld) → Unchanged u → Unchanged u = λ u h. h in
        Leads-bind _ _ (Leads-Keeps _ (Keeps-lift same _)) λ v.
          Leads-bind _ _ (Leads-Keeps _ (Keeps-raise_if same _ _ _))
            λ y. Leads-bind _ _ (Leads-modify _ (λ u h. tt)) λ a. Leads-Keeps _ (Keeps-pure _)

    raises-Unchanged :
        Leads Unchanged Anything Unchanged
          (export_evidence_bundle p r z x (ok c) destination ledger state)
    unfolding export_evidence_bundle
    raises-Unchanged =
        let same : (u : ExportWorld) → Unchanged u → Unchanged u = λ u h. h in
        Leads-bind _ _ (Leads-Keeps _ (Keeps-lift same _)) λ d.
          Leads-bind _ _ (Leads-Keeps _ (Keeps-raise_if same _ _ _)) λ y.
            Leads-bind _ _ (Leads-Keeps _ (Keeps-lift same _)) λ lines.
              Leads-bind _ _ (Leads-Keeps _ (Keeps-lift same _)) λ anchor.
                Leads-bind _ _ (Leads-Keeps _ (HasBundles-export_portable_trust w.bundles)) λ a.
                  Leads-bind _ _ (Leads-Keeps _ (Keeps-gets _))
                    λ trust. place_bundle-Unchanged anchor _

    -- The end of an export, from the files on.
    placed-outcome :
        (lines : List Line) (anchor name : String) (u w' : ExportWorld)
        → contains x (x.resolve c.evidence_root) destination ≡ true
        → ledger ≡ some lines
        → first_ledger_signer p ledger ≡ ok anchor
        → u.bundles ≡ w.bundles
        → place_bundle p r z destination anchor
            (bundle_members p r z anchor (bundle_entries p r z lines u.portable state))
            u
          ≡ (ok name, w')
        → ExportOutcome x c destination ledger state w (ok name, w')
    placed-outcome lines anchor name u w' inside is_ledger signer kept run =
        let ((v, verified, pass, put), portable, named) =
          place_bundle-HasPlaced destination anchor _ u w' name run in
        let members : TrustDirectory → List Member =
          λ t. bundle_members p r z anchor (bundle_entries p r z lines t state) in
        (
          named,
          inside,
          (
            lines,
            anchor,
            is_ledger,
            signer,
            (
              v,
              ap (λ t. verify_evidence_bundle p r (some anchor) (z.read_back (members t))) portable
                  ∙ verified,
              pass,
              put
                  ∙ ap (λ t. put_key destination (members t) u.bundles) (sym portable)
                  ∙ ap (put_key destination (members w'.portable)) kept,
            ),
          ),
        )

    returns-placed :
        (name : String) (w' : ExportWorld)
        → export_evidence_bundle p r z x (ok c) destination ledger state w ≡ (ok name, w')
        → ExportOutcome x c destination ledger state w (ok name, w')
    unfolding export_evidence_bundle
    returns-placed name w' run =
        let (d, s1, loads, h1) = bind-ok (lift (ok c)) _ w run in
        let (y, s2, checked, h2) =
          bind-ok (raise_if (not (contains x (x.resolve d.evidence_root) destination)) Kind.value _)
            _ s1 h1 in
        let (lines, s3, found, h3) = bind-ok (lift (require_ledger p r z ledger)) _ s2 h2 in
        let (anchor, s4, signer, h4) = bind-ok (lift (first_ledger_signer p ledger)) _ s3 h3 in
        let (a, s5, exported, h5) = bind-ok (export_portable_trust p r z) _ s4 h4 in
        let (t, s6, looked, h6) = bind-ok (gets (λ u. u.portable)) _ s5 h5 in
        let (same_c, same1) = lift-ok (ok c) w loads in
        let (inside, same2) = raise_if-ok _ Kind.value _ s1 checked in
        let (is_ledger, same3) = lift-ok (require_ledger p r z ledger) s2 found in
        let (is_signer, same4) = lift-ok (first_ledger_signer p ledger) s3 signer in
        let (is_trust, same6) = gets-ok (λ (u : ExportWorld). u.portable) s5 looked in
        placed-outcome lines anchor name s5 w'
          (subst
            (λ (k : GuardConfiguration). contains x (x.resolve k.evidence_root) destination ≡ true)
            (sym (ok-injective same_c)) (not-false _ inside))
          (require_ledger-ok ledger lines is_ledger) is_signer
          (Keeps-ok _ (HasBundles-export_portable_trust w.bundles) s4 a s5
            (ap (λ (u : ExportWorld). u.bundles) (same4 ∙ same3 ∙ same2 ∙ same1)) exported)
          (subst
            (λ u.
              place_bundle p r z destination anchor
                (bundle_members p r z anchor (bundle_entries p r z lines s5.portable state)) u
              ≡ (ok name, w'))
            same6
            (subst
              (λ k.
                place_bundle p r z destination anchor
                  (bundle_members p r z anchor (bundle_entries p r z lines k state)) s6
                ≡ (ok name, w'))
              (sym is_trust) h6))

    -- An export that returns wrote one archive, to a path under the evidence root, which passes
    -- verify_evidence_bundle under the signer of the ledger's first entry; one that raises wrote none.
    pub export_evidence_bundle-ExportOutcome :
        ExportOutcome x c destination ledger state w
          (export_evidence_bundle p r z x (ok c) destination ledger state w)
    export_evidence_bundle-ExportOutcome =
        elim (pair-cases (export_evidence_bundle p r z x (ok c) destination ledger state w)) [
          | inl (name, w', run) ↦
              subst (ExportOutcome x c destination ledger state w) (sym run)
                (returns-placed name w' run)
          | inr (e, w', run) ↦
              subst (ExportOutcome x c destination ledger state w) (sym run)
                (Leads-err _ raises-Unchanged w e w' refl run)
        ]
