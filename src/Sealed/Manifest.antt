-- ===== src/Sealed/Manifest.antt =====
-- The manifests of a candidate's files: `_logical_manifest` of
-- src/kratos_guard/core/sealed_build.py, and what writing a file makes of a folder.
use Prim.Native.String.{◌++◌, compare}
use text.Mathlib.Text.{is_le}
use kratos_agent_guard.Prelude.{
  ℕ, ◌+◌, String, Bool, false, ◌||◌, List, [], ◌∷◌, ◌==◌, length, if◌then◌else◌,
}
use kratos_agent_guard.Failure.{Result}
use kratos_agent_guard.Text.{has_piece}
use kratos_agent_guard.Primitives.{Primitives}
use kratos_agent_guard.Inspection.Policy.{is_one_of}
use kratos_agent_guard.Sealed.Claims.{BuildAttestation}

-- A file below a folder, with its path from there.
pub record PayloadFile : Type 0 where
  pub path : String
  pub size : ℕ
  pub content : String

pub record ManifestEntry : Type 0 where
  pub path : String
  pub size : ℕ
  pub sha256 : String

pub record LogicalManifest : Type 0 where
  pub entries : List ManifestEntry
  pub file_count : ℕ
  pub total_bytes : ℕ
  pub manifest_sha256 : String

-- `path.name`
unfoldable pub file_name : String → String
file_name String.[] = ""
file_name (String.◌∷◌ c s) =
    let rest = file_name s in if has_piece (String.◌∷◌ c s) "/" then rest else String.◌∷◌ c s

-- The file to which the attestation is written beside the payload.
abbrev pub attestation_name : String
attestation_name = "kratos-build-attestation.json"

-- What the standard library computes of a text, the reader of an attestation that the Guard did not
-- write, and the text of one that it writes.
pub record BuildContext : Type 0 where
  pub casefold : String → String
  pub byte_length : String → ℕ
  pub read_attestation : String → Result BuildAttestation
  pub render : BuildAttestation → String

module _ (p : Primitives) (x : BuildContext) where
  -- `sorted(..., key=lambda item: item.as_posix().casefold())`; the root is a prefix of every path
  unfoldable pub insert_payload : PayloadFile → List PayloadFile → List PayloadFile
  insert_payload f [] = f ∷ []
  insert_payload f (g ∷ gs) =
      let rest = insert_payload f gs in
      if is_le (compare (x.casefold f.path) (x.casefold g.path)) then f ∷ g ∷ gs else g ∷ rest

  unfoldable pub sort_payload : List PayloadFile → List PayloadFile
  sort_payload [] = []
  sort_payload (f ∷ fs) = insert_payload f (sort_payload fs)

  -- The files whose names are not excluded, as entries.
  unfoldable pub payload_entries : List String → List PayloadFile → List ManifestEntry
  unfolding file_name is_one_of
  payload_entries excluded_names [] = []
  payload_entries excluded_names (f ∷ fs) =
      let rest = payload_entries excluded_names fs in
      if is_one_of (file_name f.path) excluded_names
      then rest
      else record { path = f.path; size = f.size; sha256 = p.sha256 f.content } ∷ rest

  -- `b"".join(...)`
  unfoldable pub manifest_bytes : List ManifestEntry → String
  manifest_bytes [] = ""
  manifest_bytes (e ∷ es) =
      e.path ++ "\0" ++ p.decimal e.size ++ "\0" ++ e.sha256 ++ "\n" ++ manifest_bytes es

  unfoldable pub sum_of_sizes : List ManifestEntry → ℕ
  sum_of_sizes [] = 0
  sum_of_sizes (e ∷ es) = e.size + sum_of_sizes es

  -- `_logical_manifest(root, excluded_names)`
  unfoldable pub logical_manifest : List PayloadFile → List String → LogicalManifest
  unfolding sort_payload payload_entries manifest_bytes sum_of_sizes
  logical_manifest files excluded_names =
      let entries = payload_entries excluded_names (sort_payload files) in
      record {
        entries = entries;
        file_count = length entries;
        total_bytes = sum_of_sizes entries;
        manifest_sha256 = p.sha256 (manifest_bytes entries);
      }

  unfoldable pub artefact_manifest_hash : List PayloadFile → String
  unfolding logical_manifest
  artefact_manifest_hash files = (logical_manifest files (attestation_name ∷ [])).manifest_sha256

  -- `write_text` over a file, or as a new one.
  unfoldable pub has_path : String → List PayloadFile → Bool
  has_path path [] = false
  has_path path (f ∷ fs) = f.path == path || has_path path fs

  unfoldable pub replace_payload : PayloadFile → List PayloadFile → List PayloadFile
  replace_payload f [] = []
  replace_payload f (g ∷ gs) = (if g.path == f.path then f else g) ∷ replace_payload f gs

  unfoldable pub put_payload : PayloadFile → List PayloadFile → List PayloadFile
  unfolding has_path replace_payload
  put_payload f fs = if has_path f.path fs then replace_payload f fs else f ∷ fs
