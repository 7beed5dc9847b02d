-- ===== src/Failure.antt =====
-- Python exceptions as values. A failure has the class that a handler tests and its message.
use kratos_agent_guard.Prelude.{
  String, ◌≡◌, ◌⊎◌, inl, inr, refl, ap, Bool, true, false, if◌then◌else◌,
}

-- `ValidationError` of pydantic and `JSONDecodeError` are value errors.
pub data Kind : Type 0 where
  file_not_found file_exists permission os value key type runtime not_a_directory attribute
        bad_zip_file index keyboard_interrupt :
      Kind

pub record Failure : Type 0 where
  pub kind : Kind
  pub message : String

pub data Result {ℓ} (A : Type ℓ) : Type ℓ where
  ok : A → Result A
  err : Failure → Result A

abbrev pub fail {ℓ} : {A : Type ℓ} → Kind → String → Result A
fail k m = err (record { kind = k; message = m })

infixl 5 ◌>>=◌
infixl 5 ◌>>◌
-- A statement that raised ends the sequence.
abbrev pub ◌>>=◌ {ℓ κ} : {A : Type ℓ} {B : Type κ} → Result A → (A → Result B) → Result B
ok answer >>= rest = rest answer
err failure >>= rest = err failure

abbrev pub ◌>>◌ {ℓ} : {B : Type ℓ} → Result (Unit {0}) → Result B → Result B
first >> second = first >>= λ _. second

-- `if test: raise ...`
abbrev pub raise_if : Bool → Kind → String → Result (Unit {0})
raise_if true k m = fail k m
raise_if false k m = ok tt

-- `except (FileNotFoundError, OSError, ValueError)`
abbrev pub is_os_or_value : Kind → Bool
is_os_or_value Kind.file_not_found = true
is_os_or_value Kind.file_exists = true
is_os_or_value Kind.permission = true
is_os_or_value Kind.os = true
is_os_or_value Kind.not_a_directory = true
is_os_or_value Kind.value = true
is_os_or_value Kind.key = false
is_os_or_value Kind.type = false
is_os_or_value Kind.runtime = false
is_os_or_value Kind.attribute = false
is_os_or_value Kind.bad_zip_file = false
is_os_or_value Kind.index = false
is_os_or_value Kind.keyboard_interrupt = false

-- `try: m except (FileNotFoundError, OSError, ValueError): return a`
abbrev pub recover {ℓ} : {A : Type ℓ} → Result A → A → Result A
recover (ok x) a = ok x
recover (err e) a = if is_os_or_value e.kind then ok a else err e

pub Result-cases {ℓ} :
    {A : Type ℓ} (m : Result A) → ((a : A) × (m ≡ ok a)) ⊎ ((e : Failure) × (m ≡ err e))
Result-cases (ok a) = inl (a, refl)
Result-cases (err e) = inr (e, refl)

pub ok-injective {ℓ} : {A : Type ℓ} {a b : A} → ok a ≡ ok b → a ≡ b
ok-injective {a = a} h = ap (λ r. elim r [ ok x ↦ x | err e ↦ a ]) h

-- A result beside the state that it leaves.
pub pair-cases {ℓ κ} :
    {A : Type ℓ} {B : Type κ} (x : Result A × B)
    → ((a : A) × (b : B) × (x ≡ (ok a, b))) ⊎ ((f : Failure) × (b : B) × (x ≡ (err f, b)))
pair-cases (ok a, b) = inl (a, b, refl)
pair-cases (err f, b) = inr (f, b, refl)
