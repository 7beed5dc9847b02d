-- ===== src/Tests/Toy.antt =====
-- An interpretation of the primitives that evaluates and meets their documented behaviour: a
-- signature is a text that names the key and the message, a digest tells one key from the others.
use Prim.Native.String.{◌++◌}
use kratos_agent_guard.Prelude.{
  String, ◌≡◌, ◌≢◌, refl, true, some, ◌==◌, eq_refl, Bool-cases, inl, inr, if◌then◌else◌,
}
use kratos_agent_guard.Failure.{Kind, fail}
use kratos_agent_guard.Text.{is_digest}
use kratos_agent_guard.Primitives.{Primitives, IsSound}

abbrev pub digest_a : String
digest_a = "aaaaaaaaaaaaaaaaaaaaaaaaaaaaaaaaaaaaaaaaaaaaaaaaaaaaaaaaaaaaaaaa"

abbrev pub digest_b : String
digest_b = "bbbbbbbbbbbbbbbbbbbbbbbbbbbbbbbbbbbbbbbbbbbbbbbbbbbbbbbbbbbbbbbb"

abbrev pub toy : Primitives
toy = record {
  sha256 = λ m. if m == "alice" then digest_a else digest_b;
  dumps = λ j. "{}";
  decimal = λ n. "0";
  isoformat = λ t. "2026-01-01T00:00:00Z";
  b64encode = λ b. b;
  b64decode = λ s. some s;
  public_bytes = λ k. k;
  is_public_key = λ b. true;
  sign = λ k m. String.◌∷◌ "~" (k ++ m);
  verify = λ k s m. s == String.◌∷◌ "~" (k ++ m);
  read_public_key = λ s. fail Kind.value "Expecting value";
  read_rotation = λ s. fail Kind.value "KeyRotationRecord";
  read_revocation = λ s. fail Kind.value "KeyRevocationRecord";
  read_entry = λ s. fail Kind.value "LedgerEntry";
}

toy-sign-ne-empty : (k m : String) → toy.sign k m ≢ ""
toy-sign-ne-empty k m e = cc

toy-is_digest : (m : String) → is_digest (toy.sha256 m) ≡ true
unfolding is_digest
toy-is_digest m = elim (Bool-cases (m == "alice")) [ inl same ↦ rw same | inr differ ↦ rw differ ]

pub toy-IsSound : IsSound toy
toy-IsSound = record {
  b64decode-b64encode = λ b. refl;
  is_public_key-public_bytes = λ k. refl;
  verify-sign = λ k m. eq_refl _;
  sign-ne-empty = toy-sign-ne-empty;
  is_digest-sha256 = toy-is_digest;
}
