-- ===== src/Inspection/Redaction.antt =====
-- `redact` of src/kratos_guard/reporting/redaction.py, on JSON values.
use kratos_agent_guard.Prelude.{String, Bool, List, [], ◌∷◌, if◌then◌else◌}
use kratos_agent_guard.Json.{
  Json, null, bool, int, str, arr, obj, Items, nil, cons, Fields, end, field,
}

-- The regular expressions: the replacements of `PATTERNS`, in their order, and `SECRET_KEY.search`.
pub record Patterns : Type 0 where
  pub substitutions : List (String → String)
  pub is_secret_key : String → Bool

unfoldable pub substitute : List (String → String) → String → String
substitute [] text = text
substitute (f ∷ fs) text = substitute fs (f text)

module _ (x : Patterns) where
  -- `redact_text(value)`
  unfoldable pub redact_text : String → String
  unfolding substitute
  redact_text text = substitute x.substitutions text

  -- `redact(value)`
  unfoldable mutual
    pub redact : Json → Json
    redact null = null
    redact (bool b) = bool b
    redact (int n) = int n
    redact (str s) = str (redact_text s)
    redact (arr xs) = arr (redact_items xs)
    redact (obj fs) = obj (redact_fields fs)

    pub redact_items : Items → Items
    redact_items nil = nil
    redact_items (cons j js) = cons (redact j) (redact_items js)

    pub redact_fields : Fields → Fields
    redact_fields end = end
    redact_fields (field k j fs) =
        let item = redact j in
        field k (if x.is_secret_key k then str "[REDACTED]" else item) (redact_fields fs)

  -- `redact_exception(error)`, on the text of the exception
  unfoldable pub redact_exception : String → String
  redact_exception text = redact_text text
