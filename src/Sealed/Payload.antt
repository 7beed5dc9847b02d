-- ===== src/Sealed/Payload.antt =====
-- The manifest of a candidate's payload does not see the attestation file (`_logical_manifest` of
-- src/kratos_guard/core/sealed_build.py).
use text.Mathlib.Text.{is_le}
use Prim.Native.String.{compare}
use kratos_agent_guard.Prelude.{
  String, ◌≡◌, refl, sym, ap, ◌∙◌, true, inl, inr, List, [], ◌∷◌, ◌==◌, eq_iff, Bool-cases,
  if◌then◌else◌,
}
use kratos_agent_guard.Text.{has_piece}
use kratos_agent_guard.Primitives.{Primitives}
use kratos_agent_guard.Inspection.Policy.{is_one_of}
use kratos_agent_guard.Sealed.Manifest.{
  PayloadFile, BuildContext, attestation_name, file_name, insert_payload, sort_payload,
  payload_entries, manifest_bytes, logical_manifest, artefact_manifest_hash, has_path,
  replace_payload, put_payload,
}

module _ (p : Primitives) (x : BuildContext) where
  -- A file under a path that is excluded leaves the entries as they are, wherever it is put.
  payload_entries-insert :
      (names : List String) (f : PayloadFile) (fs : List PayloadFile)
      → is_one_of (file_name f.path) names ≡ true
      → payload_entries p x names (insert_payload p x f fs) ≡ payload_entries p x names fs
  unfolding payload_entries insert_payload
  payload_entries-insert names f [] excluded = rw excluded refl
  payload_entries-insert names f (g ∷ gs) excluded =
      elim (Bool-cases (is_le (compare (x.casefold f.path) (x.casefold g.path)))) [
        | inl before ↦ rw before (rw excluded refl)
        | inr after ↦ rw after (rw (payload_entries-insert names f gs excluded) refl)
      ]

  payload_entries-replace :
      (names : List String) (f : PayloadFile) (fs : List PayloadFile)
      → is_one_of (file_name f.path) names ≡ true
      → payload_entries p x names (replace_payload p x f fs) ≡ payload_entries p x names fs
  unfolding payload_entries replace_payload
  payload_entries-replace names f [] excluded = refl
  payload_entries-replace names f (g ∷ gs) excluded = elim (Bool-cases (g.path == f.path)) [
    | inl same ↦ rw same (
        rw excluded (
          rw ((eq_iff g.path f.path).0 same)
            (rw excluded (payload_entries-replace names f gs excluded))))
    | inr differ ↦ rw differ (rw (payload_entries-replace names f gs excluded) refl)
  ]

  -- The file that stands where g stood has its path.
  replaced : PayloadFile → PayloadFile → PayloadFile
  replaced f g = if g.path == f.path then f else g

  replaced-path : (f g : PayloadFile) → (replaced f g).path ≡ g.path
  unfolding replaced
  replaced-path f g = elim (Bool-cases (g.path == f.path)) [
    | inl same ↦ rw same (sym ((eq_iff g.path f.path).0 same))
    | inr differ ↦ rw differ refl
  ]

  insert_payload-replaced :
      (f g : PayloadFile) (fs : List PayloadFile)
      → insert_payload p x (replaced f g) (replace_payload p x f fs)
        ≡ replace_payload p x f (insert_payload p x g fs)
  unfolding insert_payload replace_payload replaced
  insert_payload-replaced f g [] = refl
  insert_payload-replaced f g (h ∷ hs) = rw (replaced-path f g) (
      rw (replaced-path f h)
        (elim (Bool-cases (is_le (compare (x.casefold g.path) (x.casefold h.path)))) [
          | inl before ↦ rw before refl
          | inr after ↦ rw after (ap (λ r. replaced f h ∷ r) (insert_payload-replaced f g hs))
        ]))

  sort_payload-replace :
      (f : PayloadFile) (fs : List PayloadFile)
      → sort_payload p x (replace_payload p x f fs) ≡ replace_payload p x f (sort_payload p x fs)
  unfolding sort_payload replace_payload replaced
  sort_payload-replace f [] = refl
  sort_payload-replace f (g ∷ gs) =
      ap (insert_payload p x (replaced f g)) (sort_payload-replace f gs)
      ∙ insert_payload-replaced f g (sort_payload p x gs)

  attestation_is_excluded :
      (f : PayloadFile)
      → f.path ≡ attestation_name
      → is_one_of (file_name f.path) (attestation_name ∷ []) ≡ true
  unfolding file_name is_one_of has_piece
  attestation_is_excluded f named = rw named refl

  -- The payload's hash is the same with an excluded file written among the others.
  pub artefact_manifest_hash-put :
      (f : PayloadFile) (fs : List PayloadFile)
      → f.path ≡ attestation_name
      → artefact_manifest_hash p x (put_payload p x f fs) ≡ artefact_manifest_hash p x fs
  unfolding artefact_manifest_hash logical_manifest put_payload sort_payload
  artefact_manifest_hash-put f fs named =
      ap (λ es. p.sha256 (manifest_bytes p x es))
        (elim (Bool-cases (has_path p x f.path fs)) [
          | inl old ↦ rw old (
              rw (sort_payload-replace f fs) (
                payload_entries-replace (attestation_name ∷ []) f (sort_payload p x fs)
                  (attestation_is_excluded f named)))
          | inr new ↦ rw new (
              payload_entries-insert (attestation_name ∷ []) f (sort_payload p x fs)
                (attestation_is_excluded f named))
        ])
