-- ===== src/Redact/Schema.antt =====
-- Input variables and their schema: frontend/src/lib/redact.ts, from line 61.
use Prim.Native.String.{[], ◌∷◌}
use lang_orch.Base.{
  ℕ, ◌+◌, String, Bool, true, false, not, ◌&&◌, ◌||◌, [], ◌∷◌, all, if◌then◌else◌, ◌==◌, ◌≡◌, refl,
  ◌∙◌, Bool-cases, inl, inr, eq_iff, show, Value, undefined, bool, str, arr, obj, Fields, no_fields,
  field, Elements, no_elements, element, get, put, merge, keys, has, has_once, get-put, get-merge,
}
use lang_orch.Redact.{is_sensitive_key, is_field_sensitive, redaction_placeholder}

-- `Object.entries(value)`, which for an array and a text has the indices as keys; a missing value
-- counts as an object without fields.
indexed : ℕ → Elements → Fields
indexed i no_elements = no_fields
indexed i (element v vs) = field (show i) v (indexed (i + 1) vs)

characters : ℕ → String → Fields
characters i [] = no_fields
characters i (c ∷ s) = field (show i) (str (c ∷ [])) (characters (i + 1) s)

unfoldable pub entries : Value → Fields
unfolding indexed characters
entries (obj o) = o
entries (arr vs) = indexed 0 vs
entries (str s) = characters 0 s
entries v = no_fields

-- `schema?.[k] ?? {}`
abbrev meta_of : Fields → String → Fields
meta_of schema k = entries (get k schema)

-- An absent schema is one without fields.
unfoldable pub redact_input_vars : Fields → Fields → Fields
redact_input_vars no_fields schema = no_fields
redact_input_vars (field k v o) schema =
    field k
      (if is_field_sensitive (meta_of schema k) || is_sensitive_key k
        then str redaction_placeholder
        else v)
      (redact_input_vars o schema)

-- `{ required, ...meta }`
unfoldable pub described : Bool → Value → Value
described required meta = obj (merge (field "required" (bool required) no_fields) (entries meta))

-- The loop over one group of variables.
unfoldable pub add_group : Bool → Fields → Fields → Fields
add_group required no_fields flat = flat
add_group required (field k meta group) flat =
    add_group required group (put k (described required meta) flat)

is_group_name : String → Bool
is_group_name k = k == "required" || k == "optional"

unfoldable pub is_nested : Fields → Bool
unfolding is_group_name
is_nested no_fields = false
is_nested (field k v o) = all is_group_name (keys (field k v o))

unfoldable pub flatten_variables_schema : Fields → Fields
flatten_variables_schema raw =
    if is_nested raw
    then add_group false (entries (get "optional" raw))
        (add_group true (entries (get "required" raw)) no_fields)
    else raw

-- A variable that is there is displayed as the placeholder where its key or its schema is sensitive,
-- and as it is elsewhere.
pub get-redact_input_vars :
    (vars schema : Fields) (k : String)
    → has k vars ≡ true
    → get k (redact_input_vars vars schema) ≡ (
        if is_field_sensitive (entries (get k schema)) || is_sensitive_key k
        then str redaction_placeholder
        else get k vars)
unfolding redact_input_vars get has
get-redact_input_vars no_fields schema k h = cc h
get-redact_input_vars (field j v o) schema k h = elim (Bool-cases (j == k)) [
  | inl same ↦ let e : j ≡ k = (eq_iff j k).0 same in rw (same, e) refl
  | inr differ ↦ rw differ (get-redact_input_vars o schema k (rw differ at h))
]

first_once : (a b : Bool) → (not a && b) ≡ true → (a ≡ false) × (b ≡ true)
first_once true b h = cc h
first_once false b h = (refl, h)

get-add_group :
    (required : Bool) (group flat : Fields) (k : String)
    → has_once group ≡ true
    → get k (add_group required group flat)
      ≡ (if has k group then described required (get k group) else get k flat)
unfolding add_group has get has_once
get-add_group required no_fields flat k h = refl
get-add_group required (field j meta group) flat k h =
    let once = first_once (has j group) (has_once group) h in
    get-add_group required group (put j (described required meta) flat) k once.1
    ∙ elim (Bool-cases (j == k)) [
      | inl same ↦
          let e : j ≡ k = (eq_iff j k).0 same in
          let absent : has k group ≡ false = rw e at once.0 in
          rw (same, absent, get-put j k (described required meta) flat, same) refl
      | inr differ ↦ rw (differ, get-put j k (described required meta) flat, differ) refl
    ]

-- The entries of a variable's metadata: each is the one of the schema, and `required` tells the group
-- where the schema has none.
get-described :
    (required : Bool) (meta : Value) (j : String)
    → has_once (entries meta) ≡ true
    → get j (entries (described required meta)) ≡ (
        if has j (entries meta)
        then get j (entries meta)
        else if "required" == j
        then bool required
        else undefined)
unfolding described entries get
get-described required meta j h =
    get-merge j (field "required" (bool required) no_fields) (entries meta) h

-- A schema in groups, each with its keys once, is flattened to the variables of both groups. A variable
-- of both has the metadata of the optional one. Each key of the metadata, which has it once, keeps its
-- value, `required` too; where the metadata does not have `required`, it is true if and only if the
-- variable is in the required group alone.
pub get-flatten_variables_schema :
    (raw : Fields) (k j : String)
    → is_nested raw ≡ true
    → has_once (entries (get "required" raw)) ≡ true
    → has_once (entries (get "optional" raw)) ≡ true
    → has_once (entries (get k (entries (get "required" raw)))) ≡ true
    → has_once (entries (get k (entries (get "optional" raw)))) ≡ true
    → get j (entries (get k (flatten_variables_schema raw))) ≡ (
        if has k (entries (get "optional" raw))
        then if has j (entries (get k (entries (get "optional" raw))))
          then get j (entries (get k (entries (get "optional" raw))))
          else if "required" == j
          then bool false
          else undefined
        else if has k (entries (get "required" raw))
        then if has j (entries (get k (entries (get "required" raw))))
          then get j (entries (get k (entries (get "required" raw))))
          else if "required" == j
          then bool true
          else undefined
        else undefined)
unfolding flatten_variables_schema get entries
get-flatten_variables_schema raw k j nested r o hr ho =
    let required = add_group true (entries (get "required" raw)) no_fields in
    rw
      (
        nested,
        get-add_group false (entries (get "optional" raw)) required k o,
        get-add_group true (entries (get "required" raw)) no_fields k r,
      )
      (elim (Bool-cases (has k (entries (get "optional" raw)))) [
        | inl there ↦ rw there (get-described false (get k (entries (get "optional" raw))) j ho)
        | inr absent ↦ rw absent (elim (Bool-cases (has k (entries (get "required" raw)))) [
          | inl here ↦ rw here (get-described true (get k (entries (get "required" raw))) j hr)
          | inr nowhere ↦ rw nowhere refl
        ])
      ])
