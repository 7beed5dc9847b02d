-- ===== src/Bundle/Transfer.antt =====
-- `import_evidence_bundle` and `export_evidence_bundle` of src/kratos_guard/core/operations.py, with the
-- folders that they write to.
use Prim.Native.String.{◌++◌}
use kratos_agent_guard.Prelude.{
  ℕ, String, Bool, true, false, not, Option, none, some, List, [], ◌∷◌, ◌==◌, if◌then◌else◌,
}
use kratos_agent_guard.Failure.{Kind, Result, ok, err, fail}
use kratos_agent_guard.Text.{first_sixteen}
use kratos_agent_guard.Models.{SigningKeyIdentity}
use kratos_agent_guard.Primitives.{Primitives}
use kratos_agent_guard.Stateful.{Stateful, ◌>>=◌, ◌>>◌, pure, lift, gets, reads, modify, raise_if}
use kratos_agent_guard.Signing.Store.{KeyStore, is_some, put_key, initialise_key}
use kratos_agent_guard.Signing.Trust.{TrustDirectory}
use kratos_agent_guard.Signing.Lifecycle.{copy_over}
use kratos_agent_guard.Ledger.Verify.{Line}
use kratos_agent_guard.Configuration.Folders.{GuardConfiguration, PathContext, contains}
use kratos_agent_guard.Bundle.Archive.{Member, BundleManifest, ManifestFile, identity}
use kratos_agent_guard.Bundle.Verify.{
  BundleReader, BundleVerdict, pass_evidence_bundle_verified, fail_evidence_bundle_verification,
  first_ledger_signer, verify_evidence_bundle,
}

-- The bundle file: its name, the members that `zipfile.ZipFile` finds in it, its bytes, and the bytes
-- that `shutil.copyfile` copies later.
pub record BundleFile : Type 0 where
  pub name : String
  pub archive : Result (List Member)
  pub content : String
  pub copied : String

-- A folder of files, by name.
abbrev pub Folder : Type 0
Folder = String → Option String

abbrev pub is_bundle_verified : BundleVerdict → Bool
is_bundle_verified pass_evidence_bundle_verified = true
is_bundle_verified fail_evidence_bundle_verification = false

unfoldable pub unless_imported : String → Folder → Result (Unit {0})
unless_imported name imports =
    if is_some (imports name)
    then fail Kind.file_exists "EVIDENCE_BUNDLE_ALREADY_IMPORTED"
    else ok tt

module _ (p : Primitives) (r : BundleReader) where
  -- `f"{source_digest[:16]}-{bundle.name}"`
  unfoldable pub import_name : BundleFile → String
  import_name b = first_sixteen (p.sha256 b.content) ++ "-" ++ b.name

  -- The copy, on the digest of the bundle that was verified.
  unfoldable pub copy_bundle : BundleFile → Stateful Folder String
  copy_bundle b = do
    reads (unless_imported (import_name b))
    raise_if (not (p.sha256 b.copied == p.sha256 b.content)) Kind.os "EVIDENCE_BUNDLE_COPY_MISMATCH"
    modify (put_key (import_name b) b.copied)
    pure (import_name b)

  -- `import_evidence_bundle(configuration_path, bundle, expected_trust_anchor_key_id)`, on what
  -- `load_configuration` returns or raises; the state is the folder `imports`.
  unfoldable pub import_evidence_bundle :
      Result GuardConfiguration → BundleFile → String → Stateful Folder String
  import_evidence_bundle loaded b expected = do
    v ← lift (verify_evidence_bundle p r (some expected) b.archive)
    raise_if (not (is_bundle_verified v.verdict)) Kind.value "EVIDENCE_BUNDLE_UNVERIFIED"
    _ ← lift loaded
    copy_bundle b

-- What an export reads besides the configuration: the text of a ledger, the files of a trust folder
-- by their sorted paths, the manifest as `json.dumps` writes it, the number of bytes of a text, and the
-- archive as `zipfile.ZipFile` reads it again.
pub record BundleWriter : Type 0 where
  pub ledger_text : List Line → String
  pub trust_files : TrustDirectory → List (String × String)
  pub manifest_text : BundleManifest → String
  pub byte_count : String → ℕ
  pub read_back : List Member → Result (List Member)

-- The key store, the folder `portable-trust`, and the bundles by their paths.
pub record ExportWorld : Type 0 where
  pub store : KeyStore
  pub portable : TrustDirectory
  pub bundles : String → Option (List Member)

abbrev state_entry : Option String → List (String × String)
state_entry none = []
state_entry (some text) = ("monitor-state.json", text) ∷ []

abbrev trust_entries : List (String × String) → List (String × String) → List (String × String)
trust_entries [] rest = rest
trust_entries ((path, text) ∷ files) rest = ("trust/" ++ path, text) ∷ trust_entries files rest

module _ (p : Primitives) (r : BundleReader) (z : BundleWriter) where
  -- `files`
  unfoldable pub bundle_entries :
      List Line → TrustDirectory → Option String → List (String × String)
  bundle_entries ledger trust state =
      ("ledger.jsonl", z.ledger_text ledger)
      ∷ trust_entries (z.trust_files trust) (state_entry state)

  abbrev manifest_files : List (String × String) → List ManifestFile
  manifest_files [] = []
  manifest_files ((name, text) ∷ files) =
      record { name = name; listed = identity (some (p.sha256 text)) (some (z.byte_count text)) }
      ∷ manifest_files files

  unfoldable pub bundle_manifest : String → List (String × String) → BundleManifest
  bundle_manifest anchor entries = record {
    schema_version = some "kratos-guard.evidence-bundle.v1";
    trust_anchor_key_id = anchor;
    files = some (manifest_files entries);
  }

  abbrev member_of : String → String → Member
  member_of name text = record {
    name = name;
    file_size = z.byte_count text;
    content = text;
    content_length = z.byte_count text;
  }

  abbrev written_members : List (String × String) → Member → List Member
  written_members [] last = last ∷ []
  written_members ((name, text) ∷ files) last = member_of name text ∷ written_members files last

  -- The archive that is written: the files, and then the manifest.
  unfoldable pub bundle_members : String → List (String × String) → List Member
  bundle_members anchor entries =
      written_members entries
        (member_of "manifest.json" (z.manifest_text (bundle_manifest anchor entries)))

  abbrev pub require_ledger : Option (List Line) → Result (List Line)
  require_ledger none = fail Kind.file_not_found "LEDGER_MISSING"
  require_ledger (some lines) = ok lines

  abbrev pub copy_trust :
      ExportWorld → Result SigningKeyIdentity × KeyStore → Result (Unit {0}) × ExportWorld
  copy_trust w (err e, s) = (err e, record w { store = s })
  copy_trust w (ok own, s) =
      (ok tt, record w { store = s; portable = copy_over s.trust w.portable })

  -- `signing.export_trust_bundle(trust_export)`
  unfoldable pub export_portable_trust : Stateful ExportWorld (Unit {0})
  export_portable_trust w = copy_trust w (initialise_key p w.store)

  -- The archive is verified, and then takes its place.
  unfoldable pub place_bundle : String → String → List Member → Stateful ExportWorld String
  place_bundle destination anchor members = do
    v ← lift (verify_evidence_bundle p r (some anchor) (z.read_back members))
    raise_if (not (is_bundle_verified v.verdict)) Kind.value "EXPORTED_EVIDENCE_BUNDLE_INVALID:"
    modify (λ w. record w { bundles = put_key destination members w.bundles })
    pure destination

  -- `export_evidence_bundle(configuration_path, destination)`, on what `load_configuration` returns or
  -- raises, the resolved destination, the ledger and the monitor's state file.
  unfoldable pub export_evidence_bundle :
      PathContext
      → Result GuardConfiguration
      → String
      → Option (List Line)
      → Option String
      → Stateful ExportWorld String
  export_evidence_bundle x loaded destination ledger state = do
    c ← lift loaded
    raise_if (not (contains x (x.resolve c.evidence_root) destination)) Kind.value
        "BUNDLE_DESTINATION_OUTSIDE_EVIDENCE_ROOT"
    lines ← lift (require_ledger ledger)
    anchor ← lift (first_ledger_signer p ledger)
    export_portable_trust
    trust ← gets (λ w. w.portable)
    place_bundle destination anchor (bundle_members anchor (bundle_entries lines trust state))
