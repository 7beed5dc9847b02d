-- ===== src/Signing/Store.antt =====
-- The key store of src/kratos_guard/core/signing.py: the private key, the storage permissions, the
-- local trust directory, the rotation lock, and the functions that read or change them. A method
-- keeps the state that it reached when it raises.
use Prim.Native.Nat.{◌%◌}
use kratos_agent_guard.Prelude.{
  ℕ, ◌+◌, String, ◌≡◌, refl, Bool, true, false, not, ◌&&◌, ◌||◌, Option, none, some, List, [], ◌∷◌,
  eqb, ◌==◌, if◌then◌else◌,
}
use kratos_agent_guard.Failure.{Kind, Result, ok, err, fail}
use kratos_agent_guard.Text.{has_piece}
use kratos_agent_guard.Models.{PublicKeyFile, KeyStorageAssessment, SigningKeyIdentity}
use kratos_agent_guard.Primitives.{Primitives, Stored, written, foreign}
use kratos_agent_guard.Signing.Trust.{TrustDirectory, public_key_payload, key_id_of}

-- What `icacls` answers: the exit code of a grant, the exit code of a listing, and its lines.
pub record Icacls : Type 0 where
  pub grant_code : ℕ
  pub list_code : ℕ
  pub lines : List String

-- The key directory: not there, there with its POSIX mode bits, or under Windows.
pub data KeyDirectory : Type 0 where
  nowhere : KeyDirectory
  posix : ℕ → KeyDirectory
  windows : Icacls → KeyDirectory

pub data Platform : Type 0 where
  on_posix : Platform
  on_windows : Icacls → Platform

-- The content of the PEM file, once parsed.
pub data PrivateKey : Type 0 where
  ed25519 : String → PrivateKey
  other_kind : PrivateKey

pub record KeyStore : Type 0 where
  pub platform : Platform
  pub key_directory : KeyDirectory
  pub private_key : Option PrivateKey
  pub rotation_lock : Bool
  pub next_files : List String
  pub trust : TrustDirectory
  pub exported : TrustDirectory
  -- the keys that `Ed25519PrivateKey.generate()` will return, and how many it has returned
  pub generator : ℕ → String
  pub generated : ℕ

abbrev pub Action {ℓ} : Type ℓ → Type ℓ
Action A = KeyStore → Result A × KeyStore

abbrev pub continue {ℓ κ} : {A : Type ℓ} {B : Type κ} → Result A → (A → Action B) → Action B
continue (ok a) f s = f a s
continue (err e) f s = (err e, s)

infixl 5 ◌>>=◌ ◌>>◌
abbrev pub ◌>>=◌ {ℓ κ} : {A : Type ℓ} {B : Type κ} → Action A → (A → Action B) → Action B
◌>>=◌ m f s = let (r, s') = m s in continue r f s'

abbrev pub ◌>>◌ {ℓ} : {B : Type ℓ} → Action (Unit {0}) → Action B → Action B
m >> k = m >>= λ _. k

abbrev pub pure {ℓ} : {A : Type ℓ} → A → Action A
pure a s = (ok a, s)

abbrev pub lift {ℓ} : {A : Type ℓ} → Result A → Action A
lift r s = (r, s)

abbrev pub raise_if : Bool → Kind → String → Action (Unit {0})
raise_if b k m s = (if b then fail k m else ok tt, s)

abbrev pub gets {ℓ} : {A : Type ℓ} → (KeyStore → A) → Action A
gets f s = (ok (f s), s)

abbrev pub reads {ℓ} : {A : Type ℓ} → (KeyStore → Result A) → Action A
reads f s = (f s, s)

abbrev pub is_some {ℓ} : {A : Type ℓ} → Option A → Bool
is_some none = false
is_some (some a) = true

abbrev pub modify : (KeyStore → KeyStore) → Action (Unit {0})
modify f s = (ok tt, f s)

any_line : (String → Bool) → List String → Bool
any_line test [] = false
any_line test (l ∷ ls) = test l || any_line test ls

-- A broad name and a write flag on one line of the listing.
is_broad_line : String → Bool
is_broad_line line =
    (has_piece line "Everyone:"
      || has_piece line "BUILTIN\\Users:"
      || has_piece line "Authenticated Users:")
    && (has_piece line "(F)" || has_piece line "(M)" || has_piece line "(W)")

-- `assess_key_storage(root)`
unfoldable pub assess_key_storage : KeyDirectory → KeyStorageAssessment
unfolding any_line is_broad_line has_piece
assess_key_storage nowhere = record {
  is_present = false;
  restrictive_acl = false;
  broadly_writable = false;
}
assess_key_storage (windows i) = record {
  is_present = true;
  restrictive_acl = eqb i.list_code 0 && not (any_line is_broad_line i.lines);
  broadly_writable = any_line is_broad_line i.lines;
}
assess_key_storage (posix mode) = record {
  is_present = true;
  restrictive_acl = eqb (mode % 64) 0;
  broadly_writable = not (eqb (mode % 64) 0);
}

-- `_restrict_key_directory(root)`: mode 0o700, or an `icacls` grant that must succeed
unfoldable pub restrict_key_directory : Action (Unit {0})
restrict_key_directory s = elim s.platform [
  | on_posix ↦ (ok tt, record s { key_directory = posix 0o700 })
  | on_windows i ↦ if eqb i.grant_code 0 then (ok tt, record s { key_directory = windows i }) else (
    fail Kind.permission "failed to apply restrictive key-store ACL",
    record s { key_directory = windows i },
  )
]

unfoldable pub generate : Action String
generate s = (ok (s.generator s.generated), record s { generated = s.generated + 1 })

abbrev pub put_key {ℓ} : {A : Type ℓ} → String → A → (String → Option A) → String → Option A
put_key k a f j = if j == k then some a else f j

abbrev pub put_public_key : String → Stored PublicKeyFile → TrustDirectory → TrustDirectory
put_public_key key_id text d = record d { public_key = put_key key_id text d.public_key }

-- `read_text() == rendered`
abbrev pub is_rendering : PublicKeyFile → Stored PublicKeyFile → Bool
is_rendering f (written g) =
    g.algorithm == f.algorithm
    && g.key_id == f.key_id
    && g.public_key_fingerprint == f.public_key_fingerprint
    && g.public_key_base64 == f.public_key_base64
is_rendering f (foreign s) = false

-- The new trust directory is kept; a failure leaves the old one.
abbrev pub keep_trust : Result TrustDirectory → Action (Unit {0})
keep_trust (ok d) s = (ok tt, record s { trust = d })
keep_trust (err e) s = (err e, s)

module _ (p : Primitives) where
  -- `private_key` as `load_pem_private_key` and the `isinstance` test pass it on
  abbrev pub ed25519_key : PrivateKey → Result String
  ed25519_key (ed25519 k) = ok k
  ed25519_key other_kind = fail Kind.value "KEY_MISMATCH"

  abbrev identity_of : KeyStorageAssessment → String → SigningKeyIdentity
  identity_of assessment fingerprint = record {
    key_id = key_id_of p fingerprint;
    public_key_fingerprint = fingerprint;
    storage = assessment;
  }

  -- `inspect_key()`, and the private key that it loaded
  unfoldable pub inspect_private : KeyStore → Result (SigningKeyIdentity × String)
  unfolding assess_key_storage
  inspect_private s = elim s.private_key [
    | none ↦ fail Kind.file_not_found "KEY_MISSING"
    | some key ↦
        if not (assess_key_storage s.key_directory).restrictive_acl
        then fail Kind.permission "KEY_STORAGE_UNSAFE"
        else elim key [
          | other_kind ↦ fail Kind.value "KEY_MISMATCH"
          | ed25519 k ↦
              ok (identity_of (assess_key_storage s.key_directory) (p.sha256 (p.public_bytes k)), k)
        ]
  ]

  unfoldable pub inspect_key : KeyStore → Result SigningKeyIdentity
  inspect_key s = elim (inspect_private s) [ ok found ↦ ok found.0 | err e ↦ err e ]

  -- `_write_public_key(private, trust_directory)`
  unfoldable pub write_public_key : String → TrustDirectory → Result TrustDirectory
  write_public_key private d = elim (d.public_key (public_key_payload p private).key_id) [
    | none ↦ ok (
        put_public_key (public_key_payload p private).key_id
          (written (public_key_payload p private)) d)
    | some text ↦
        if is_rendering (public_key_payload p private) text
        then ok d
        else fail Kind.value "TRUST_KEY_COLLISION"
  ]

  unfoldable pub write_local_public_key : String → Action (Unit {0})
  write_local_public_key private s = keep_trust (write_public_key private s.trust) s

  -- The branch of `initialise_key` that makes a key.
  unfoldable pub create_key : Action SigningKeyIdentity
  unfolding restrict_key_directory generate write_local_public_key inspect_key
  create_key = do
    restrict_key_directory
    private ← generate
    modify (λ s. record s { private_key = some (ed25519 private) })
    write_local_public_key private
    assessment ← gets (λ s. assess_key_storage s.key_directory)
    if not assessment.restrictive_acl
        then (do
          modify (λ s. record s { private_key = none })
          lift (fail Kind.permission "KEY_STORAGE_UNSAFE"))
        else reads inspect_key

  -- `initialise_key()`
  unfoldable pub initialise_key : Action SigningKeyIdentity
  initialise_key = do
    exists ← gets (λ s. is_some s.private_key)
    if exists
        then (do found ← reads inspect_private; write_local_public_key found.1; pure found.0)
        else create_key

  -- `sign_payload_bytes(payload)`
  unfoldable pub sign_payload_bytes : String → KeyStore → Result (SigningKeyIdentity × String)
  unfolding inspect_private
  sign_payload_bytes payload s = elim (inspect_private s) [
    | err e ↦ err e
    | ok (identity, private) ↦ ok (identity, p.sign private payload)
  ]

-- Inversion of a step that went on.
pub continue-ok {ℓ κ} :
    {A : Type ℓ} {B : Type κ} (x : Result A × KeyStore) (f : A → Action B) {b : B} {t : KeyStore}
    → continue x.0 f x.1 ≡ (ok b, t)
    → (a : A) × (u : KeyStore) × (x ≡ (ok a, u)) × (f a u ≡ (ok b, t))
continue-ok (ok a, u) f h = (a, u, refl, h)
continue-ok (err x, u) f h = cc
