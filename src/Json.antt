-- ===== src/Json.antt =====
-- JSON values as `json.dumps(..., sort_keys=True)` sees them
-- (`canonical_json_bytes` in src/kratos_guard/core/standalone.py).
use Prim.Native.String.{compare}
use text.Mathlib.Text.{is_le}
use native.Mathlib.Decide.{ℕ_discrete}
use kratos_agent_guard.Prelude.{
  ℕ, String, List, [], ◌∷◌, ◌≡◌, refl, inl, inr, Bool, ◌==◌, eq_iff, Bool-cases, if◌then◌else◌,
}

mutual
  pub data Json : Type 0 where
    null : Json
    bool : Bool → Json
    int : ℕ → Json
    str : String → Json
    arr : Items → Json
    obj : Fields → Json

  pub data Items : Type 0 where
    nil : Items
    cons : Json → Items → Items

  pub data Fields : Type 0 where
    end : Fields
    field : String → Json → Fields → Fields

-- One key of a dict put at its place among sorted ones.
unfoldable pub insert_field : String → Json → Fields → Fields
insert_field k v end = field k v end
insert_field k v (field j w fs) =
    if is_le (compare k j) then field k v (field j w fs) else field j w (insert_field k v fs)

-- `sort_keys=True`, at every depth.
unfoldable mutual
  unfolding insert_field

  pub sort_keys : Json → Json
  sort_keys null = null
  sort_keys (bool b) = bool b
  sort_keys (int n) = int n
  sort_keys (str s) = str s
  sort_keys (arr xs) = arr (sort_items xs)
  sort_keys (obj fs) = obj (sort_fields fs)

  pub sort_items : Items → Items
  sort_items nil = nil
  sort_items (cons x xs) = cons (sort_keys x) (sort_items xs)

  pub sort_fields : Fields → Fields
  sort_fields end = end
  sort_fields (field k v fs) = insert_field k (sort_keys v) (sort_fields fs)

-- A list of texts.
abbrev pub texts : List String → Items
texts [] = nil
texts (s ∷ ss) = cons (str s) (texts ss)

sort_two :
    sort_keys (obj (field "b" null (field "a" (int 1) end)))
    ≡ obj (field "a" (int 1) (field "b" null end))
unfolding sort_keys
sort_two = refl

-- Equality of texts and of JSON values can be decided.
pub String_discrete : Discrete String
String_discrete s t = elim (Bool-cases (s == t)) [
  | inl same ↦ yes ((eq_iff s t).0 same)
  | inr differ ↦ no (λ e. cc (differ, (eq_iff s t).1 e))
]

pub Json-discrete : Discrete Json
Json-discrete = hlevel (String_discrete, ℕ_discrete)
