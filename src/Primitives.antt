-- ===== src/Primitives.antt =====
-- What the program calls and does not implement: SHA-256, Ed25519 (`cryptography`), base64, the
-- JSON writer, and the reading of texts that the Guard did not write. Bytes are texts.
use kratos_agent_guard.Prelude.{ℕ, String, ◌≡◌, ◌≢◌, Bool, true, Option, some}
use kratos_agent_guard.Failure.{Result}
use kratos_agent_guard.Text.{is_digest}
use kratos_agent_guard.Json.{Json}
use kratos_agent_guard.Models.{PublicKeyFile, KeyRotationRecord, KeyRevocationRecord, LedgerEntry}

-- The text of a file: what the Guard writes for a record, or any other text.
pub data Stored {ℓ} (A : Type ℓ) : Type ℓ where
  written : A → Stored A
  foreign : String → Stored A

pub record Primitives : Type 0 where
  -- `sha256(payload).hexdigest()`
  pub sha256 : String → String
  -- `json.dumps(..., separators=(",", ":"), ensure_ascii=False).encode("utf-8")` of a value whose
  -- keys are sorted
  pub dumps : Json → String
  -- `str` of a number
  pub decimal : ℕ → String
  -- a datetime as `model_dump(mode="json")` writes it
  pub isoformat : ℕ → String
  -- `base64.b64encode(b).decode()` and `base64.b64decode(s)`
  pub b64encode : String → String
  pub b64decode : String → Option String
  -- the raw public key of a private key, and whether `from_public_bytes` takes a text
  pub public_bytes : String → String
  pub is_public_key : String → Bool
  -- `b64encode(private.sign(payload))`, and whether `public.verify(b64decode(signature), payload)`
  -- passes
  pub sign : String → String → String
  pub verify : String → String → String → Bool
  -- `json.loads` and `Record.model_validate_json` on a text that the Guard did not write
  pub read_public_key : String → Result PublicKeyFile
  pub read_rotation : String → Result KeyRotationRecord
  pub read_revocation : String → Result KeyRevocationRecord
  pub read_entry : String → Result LedgerEntry

-- The documented behaviour on which theorems rest: an Ed25519 signature verifies under its own
-- key and is no empty text, base64 decodes what it encoded, a digest is 64 hexadecimal digits.
pub record IsSound (p : Primitives) : Type 0 where
  pub b64decode-b64encode : (b : String) → p.b64decode (p.b64encode b) ≡ some b
  pub is_public_key-public_bytes : (k : String) → p.is_public_key (p.public_bytes k) ≡ true
  pub verify-sign : (k m : String) → p.verify (p.public_bytes k) (p.sign k m) m ≡ true
  pub sign-ne-empty : (k m : String) → p.sign k m ≢ ""
  pub is_digest-sha256 : (m : String) → is_digest (p.sha256 m) ≡ true
