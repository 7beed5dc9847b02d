-- ===== src/Inspection/Redacted.antt =====
-- What `redact` (src/kratos_guard/reporting/redaction.py) leaves.

use kratos_agent_guard.Prelude.{String, ◌≡◌, refl, ◌⊎◌, inl, inr, Bool, true, false, if◌then◌else◌}
use kratos_agent_guard.Json.{
  Json, null, bool, int, str, arr, obj, Items, nil, cons, Fields, end, field,
}
use kratos_agent_guard.Inspection.Redaction.{
  Patterns, redact_text, redact, redact_items, redact_fields,
}

-- What stands somewhere in a value: a text, or a value under a key.
mutual
  pub data HoldsText (s : String) : Json → Type 0 where
    here : HoldsText s (str s)
    in_array : {js : Items} → ItemsHoldText s js → HoldsText s (arr js)
    in_object : {fs : Fields} → FieldsHoldText s fs → HoldsText s (obj fs)

  pub data ItemsHoldText (s : String) : Items → Type 0 where
    first : {j : Json} {js : Items} → HoldsText s j → ItemsHoldText s (cons j js)
    later : {j : Json} {js : Items} → ItemsHoldText s js → ItemsHoldText s (cons j js)

  pub data FieldsHoldText (s : String) : Fields → Type 0 where
    first_field :
        {k : String} {j : Json} {fs : Fields} → HoldsText s j → FieldsHoldText s (field k j fs)
    later_field :
        {k : String} {j : Json} {fs : Fields}
        → FieldsHoldText s fs
        → FieldsHoldText s (field k j fs)

mutual
  pub data HoldsField (k : String) (v : Json) : Json → Type 0 where
    field_in_array : {js : Items} → ItemsHoldField k v js → HoldsField k v (arr js)
    field_in_object : {fs : Fields} → FieldsHoldField k v fs → HoldsField k v (obj fs)

  pub data ItemsHoldField (k : String) (v : Json) : Items → Type 0 where
    in_first : {j : Json} {js : Items} → HoldsField k v j → ItemsHoldField k v (cons j js)
    in_later : {j : Json} {js : Items} → ItemsHoldField k v js → ItemsHoldField k v (cons j js)

  pub data FieldsHoldField (k : String) (v : Json) : Fields → Type 0 where
    this_field : {fs : Fields} → FieldsHoldField k v (field k v fs)
    below_field :
        {i : String} {j : Json} {fs : Fields}
        → HoldsField k v j
        → FieldsHoldField k v (field i j fs)
    other_field :
        {i : String} {j : Json} {fs : Fields}
        → FieldsHoldField k v fs
        → FieldsHoldField k v (field i j fs)

module _ (x : Patterns) where
  -- A text that is left is `[REDACTED]`, or a text of the value after the substitutions.
  abbrev IsCleaned : String → Type 0
  IsCleaned s = (s ≡ "[REDACTED]") ⊎ ((t : String) × (s ≡ redact_text x t))

  -- A value under a secret key is `[REDACTED]`.
  abbrev IsHidden : String → Json → Type 0
  IsHidden k v = x.is_secret_key k ≡ true → v ≡ str "[REDACTED]"

  chosen_text :
      (s : String) (b : Bool) (j : Json)
      → HoldsText s (if b then str "[REDACTED]" else j)
      → (s ≡ "[REDACTED]") ⊎ HoldsText s j
  chosen_text s true j here = inl refl
  chosen_text s false j h = inr h

  chosen_field :
      (k : String) (v : Json) (b : Bool) (j : Json)
      → HoldsField k v (if b then str "[REDACTED]" else j)
      → HoldsField k v j
  chosen_field k v true j h = elim h [ ]
  chosen_field k v false j h = h

  IsHidden-choice :
      (k : String) (j : Json) → IsHidden k (if x.is_secret_key k then str "[REDACTED]" else j)
  IsHidden-choice k j secret = rw secret refl

  mutual
    unfolding redact

    redact-IsCleaned : (s : String) (j : Json) → HoldsText s (redact x j) → IsCleaned s
    redact-IsCleaned s null h = elim h [ ]
    redact-IsCleaned s (bool b) h = elim h [ ]
    redact-IsCleaned s (int n) h = elim h [ ]
    redact-IsCleaned s (str t) here = inr (t, refl)
    redact-IsCleaned s (arr js) (in_array h) = redact_items-IsCleaned s js h
    redact-IsCleaned s (obj fs) (in_object h) = redact_fields-IsCleaned s fs h

    redact_items-IsCleaned :
        (s : String) (js : Items) → ItemsHoldText s (redact_items x js) → IsCleaned s
    redact_items-IsCleaned s nil h = elim h [ ]
    redact_items-IsCleaned s (cons j js) (first h) = redact-IsCleaned s j h
    redact_items-IsCleaned s (cons j js) (later h) = redact_items-IsCleaned s js h

    redact_fields-IsCleaned :
        (s : String) (fs : Fields) → FieldsHoldText s (redact_fields x fs) → IsCleaned s
    redact_fields-IsCleaned s end h = elim h [ ]
    redact_fields-IsCleaned s (field k j fs) (first_field h) =
        elim (chosen_text s (x.is_secret_key k) (redact x j) h) [
          | inl hidden ↦ inl hidden
          | inr below ↦ redact-IsCleaned s j below
        ]
    redact_fields-IsCleaned s (field k j fs) (later_field h) = redact_fields-IsCleaned s fs h

  mutual
    unfolding redact

    redact-IsHidden : (k : String) (v j : Json) → HoldsField k v (redact x j) → IsHidden k v
    redact-IsHidden k v null h = elim h [ ]
    redact-IsHidden k v (bool b) h = elim h [ ]
    redact-IsHidden k v (int n) h = elim h [ ]
    redact-IsHidden k v (str t) h = elim h [ ]
    redact-IsHidden k v (arr js) (field_in_array h) = redact_items-IsHidden k v js h
    redact-IsHidden k v (obj fs) (field_in_object h) = redact_fields-IsHidden k v fs h

    redact_items-IsHidden :
        (k : String) (v : Json) (js : Items) → ItemsHoldField k v (redact_items x js) → IsHidden k v
    redact_items-IsHidden k v nil h = elim h [ ]
    redact_items-IsHidden k v (cons j js) (in_first h) = redact-IsHidden k v j h
    redact_items-IsHidden k v (cons j js) (in_later h) = redact_items-IsHidden k v js h

    redact_fields-IsHidden :
        (k : String) (v : Json) (fs : Fields)
        → FieldsHoldField k v (redact_fields x fs)
        → IsHidden k v
    redact_fields-IsHidden k v end h = elim h [ ]
    redact_fields-IsHidden k v (field i j fs) this_field = IsHidden-choice i (redact x j)
    redact_fields-IsHidden k v (field i j fs) (below_field h) =
        redact-IsHidden k v j (chosen_field k v (x.is_secret_key i) (redact x j) h)
    redact_fields-IsHidden k v (field i j fs) (other_field h) = redact_fields-IsHidden k v fs h
