-- ===== src/Bundle/Archive.antt =====
-- The archive of an evidence bundle and the tests on its members and its manifest
-- (`verify_evidence_bundle` of src/kratos_guard/core/operations.py).
use Prim.Native.Char.{code}
use kratos_agent_guard.Prelude.{
  ℕ, ◌+◌, String, Bool, true, false, not, ◌&&◌, ◌||◌, Option, none, some, List, [], ◌∷◌, ltb, eqb,
  ◌==◌, length, if◌then◌else◌,
}
use kratos_agent_guard.Failure.{Kind, Result, ok, fail, ◌>>=◌, ◌>>◌, raise_if}
use kratos_agent_guard.Text.{has_piece}
use kratos_agent_guard.Primitives.{Primitives}

-- A member: its name, the size in its header, its bytes and their number.
pub record Member : Type 0 where
  pub name : String
  pub file_size : ℕ
  pub content : String
  pub content_length : ℕ

-- What the manifest says of a file: no object, or an object with or without the two keys.
pub data FileIdentity : Type 0 where
  not_an_object : FileIdentity
  identity : Option String → Option ℕ → FileIdentity

pub record ManifestFile : Type 0 where
  pub name : String
  pub listed : FileIdentity

-- The parts of a manifest that are read; `files` is `none` where it is no object.
pub record BundleManifest : Type 0 where
  pub schema_version : Option String
  pub trust_anchor_key_id : String
  pub files : Option (List ManifestFile)

-- What `json.loads` returns.
pub data ManifestValue : Type 0 where
  object : BundleManifest → ManifestValue
  other_value : ManifestValue

abbrev pub max_bundle_members : ℕ
max_bundle_members = 10_000

abbrev pub max_bundle_uncompressed_bytes : ℕ
max_bundle_uncompressed_bytes = 100_000_000

unfoldable pub has_name : String → List String → Bool
has_name name [] = false
has_name name (n ∷ ns) = n == name || has_name name ns

-- `len(names) != len(set(names))`
unfoldable pub has_duplicate : List String → Bool
unfolding has_name
has_duplicate [] = false
has_duplicate (n ∷ ns) = has_name n ns || has_duplicate ns

unfoldable pub total_size : List Member → ℕ
total_size [] = 0
total_size (m ∷ ms) = m.file_size + total_size ms

abbrev pub names_of : List Member → List String
names_of [] = []
names_of (m ∷ ms) = m.name ∷ names_of ms

abbrev pub file_names : List ManifestFile → List String
file_names [] = []
file_names (f ∷ fs) = f.name ∷ file_names fs

-- `PurePosixPath(name).parts` of a relative path: the pieces between slashes that are neither empty
-- nor a dot.
unfoldable pub split_slash : String → List String
split_slash String.[] = "" ∷ []
split_slash (String.◌∷◌ c s) =
    let rest = split_slash s in
    if eqb (code c) b'/'
    then "" ∷ rest
    else elim rest [ [] ↦ String.◌∷◌ c "" ∷ [] | piece ∷ pieces ↦ String.◌∷◌ c piece ∷ pieces ]

unfoldable pub drop_dots : List String → List String
drop_dots [] = []
drop_dots (piece ∷ pieces) =
    let rest = drop_dots pieces in if piece == "" || piece == "." then rest else piece ∷ rest

abbrev is_absolute : String → Bool
is_absolute String.[] = false
is_absolute (String.◌∷◌ c s) = eqb (code c) b'/'

abbrev first_has_colon : List String → Bool
first_has_colon [] = false
first_has_colon (piece ∷ pieces) = has_piece piece ":"

-- The test on a member's name.
unfoldable pub is_traversal : String → Bool
unfolding split_slash drop_dots has_name has_piece
is_traversal name =
    name == ""
    || has_piece name "\\"
    || is_absolute name
    || has_name ".." (drop_dots (split_slash name))
    || first_has_colon (drop_dots (split_slash name))

unfoldable pub any_traversal : List String → Bool
any_traversal [] = false
any_traversal (n ∷ ns) = is_traversal n || any_traversal ns

unfoldable pub all_named : List String → List String → Bool
all_named [] names = true
all_named (n ∷ ns) names = has_name n names && all_named ns names

-- `set(names) == set(expected_files) | {"manifest.json"}`
unfoldable pub same_names : List String → List String → Bool
same_names names expected =
    all_named names ("manifest.json" ∷ expected) && all_named ("manifest.json" ∷ expected) names

-- `archive.read(name)`
unfoldable pub read_member : String → List Member → Result Member
read_member name [] = fail Kind.key "There is no item in the archive"
read_member name (m ∷ ms) = let rest = read_member name ms in if m.name == name then ok m else rest

unfoldable pub check_members : List Member → Result (Unit {0})
check_members ms = do
  raise_if (ltb max_bundle_members (length ms)) Kind.value "BUNDLE_MEMBER_LIMIT_EXCEEDED"
  raise_if (has_duplicate (names_of ms)) Kind.value "BUNDLE_DUPLICATE_MEMBER"
  raise_if (ltb max_bundle_uncompressed_bytes (total_size ms)) Kind.value
      "BUNDLE_SIZE_LIMIT_EXCEEDED"
  raise_if (any_traversal (names_of ms)) Kind.value "BUNDLE_PATH_TRAVERSAL"

-- `manifest.get(...)` needs an object.
abbrev as_object : ManifestValue → Result BundleManifest
as_object (object m) = ok m
as_object other_value = fail Kind.attribute "object has no attribute 'get'"

abbrev is_schema : Option String → Bool
is_schema none = false
is_schema (some s) = s == "kratos-guard.evidence-bundle.v1"

abbrev as_files : Option (List ManifestFile) → Result (List ManifestFile)
as_files none = fail Kind.value "BUNDLE_MANIFEST_INVALID"
as_files (some fs) = ok fs

unfoldable pub listed_files : List Member → BundleManifest → Result (List ManifestFile)
listed_files ms m = do
  raise_if (m.trust_anchor_key_id == "") Kind.value "BUNDLE_TRUST_ANCHOR_MISSING"
  fs ← as_files m.files
  raise_if (not (same_names (names_of ms) (file_names fs))) Kind.value "BUNDLE_MEMBER_SET_INVALID"
  ok fs

module _ (read_manifest : String → Result ManifestValue) where
  -- The archive's members are tested, and its manifest is read.
  unfoldable pub open_manifest : List Member → Result BundleManifest
  open_manifest ms = do
    check_members ms
    text ← read_member "manifest.json" ms
    value ← read_manifest text.content
    m ← as_object value
    raise_if (not (is_schema m.schema_version)) Kind.value "BUNDLE_SCHEMA_INVALID"
    ok m

module _ (p : Primitives) where
  abbrev pub compare_file : Member → FileIdentity → Result (Unit {0})
  compare_file m not_an_object = fail Kind.value "BUNDLE_MANIFEST_INVALID"
  compare_file m (identity none size) = fail Kind.key "sha256"
  compare_file m (identity (some hash) size) =
      if not (p.sha256 m.content == hash)
      then fail Kind.value "BUNDLE_HASH_INVALID"
      else elim size [
        | none ↦ fail Kind.key "byte_count"
        | some n ↦ if eqb m.content_length n then ok tt else fail Kind.value "BUNDLE_SIZE_INVALID"
      ]

  -- One file of the manifest: it is an object, and the archive's bytes have its digest and size.
  unfoldable pub check_file : List Member → ManifestFile → Result (Unit {0})
  check_file ms f = elim f.listed [
    | not_an_object ↦ fail Kind.value "BUNDLE_MANIFEST_INVALID"
    | identity hash size ↦ do m ← read_member f.name ms; compare_file m (identity hash size)
  ]

  unfoldable pub check_files : List Member → List ManifestFile → Result (Unit {0})
  check_files ms [] = ok tt
  check_files ms (f ∷ fs) = do check_file ms f; check_files ms fs
