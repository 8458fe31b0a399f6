-- ===== src/Inspector.antt =====
-- Values of the inspector's forms: frontend/src/builder-v2/inspector/editor-schema.ts.
-- A control is described by what its check reads: the label and the rule. The number that a text reads
-- as is the parameter `parse_number`; a rule's least number is a whole number.
pub mod Laws
pub mod Edits
mod Tests
use lang_orch.Base.{
  ℕ, suc, String, Bool, true, false, not, ◌&&◌, ◌||◌, Option, none, some, get_or, or_else, List, [],
  ◌∷◌, length, if◌then◌else◌, ltb, is_blank, ◌<>◌, show, ℤ, pos, ltb_ℤ, Number, finite, infinity,
  nan, Value, undefined, null, str, num, arr, obj, bool, Fields, no_fields, field, Elements, elems,
  get, put, to_number, show_number,
}

pub record BuilderNodeEditorValidationRule : Type 0 where
  pub required : Bool
  pub min : Option ℤ
  pub min_items : Option ℕ
  pub non_empty_object : Bool
  pub message : Option String

pub record BuilderNodeEditorControl : Type 0 where
  pub label : String
  pub validation : Option BuilderNodeEditorValidationRule

abbrev pub is_undefined : Value → Bool
is_undefined undefined = true
is_undefined v = false

pub read_config_value : Fields → List String → Value → Value
read_config_value config [] default_value = default_value
read_config_value config (k ∷ ks) default_value =
    let rest = read_config_value config ks default_value in
    if is_undefined (get k config) then rest else get k config

-- `Object.fromEntries`, in the order of the keys
unfoldable pub with_entries : Value → List String → Fields → Fields
with_entries v [] o = o
with_entries v (k ∷ ks) o = with_entries v ks (put k v o)

-- `Object.fromEntries(keys.map((key) => [key, value]))`
unfoldable pub create_config_patch : List String → Value → Fields
unfolding with_entries
create_config_patch ks v = with_entries v ks no_fields

-- Whether a required value is missing.
abbrev pub is_missing : Value → Bool
is_missing undefined = true
is_missing null = true
is_missing (str s) = is_blank s
is_missing v = false

-- `!Number.isNaN(n) && n < min`
abbrev pub is_below : ℤ → Number → Bool
is_below m (finite n) = ltb_ℤ n m
is_below m (infinity positive) = not positive
is_below m nan = false

abbrev pub has_few : ℕ → Value → Bool
has_few m (arr vs) = ltb (length (elems vs)) m
has_few m v = false

abbrev pub is_empty_object : Value → Bool
is_empty_object (obj no_fields) = true
is_empty_object v = false

-- A failed test gives the rule's message, or else the text.
pub reject_if : Bool → Option String → String → Option String
reject_if failed message text = if failed then some (get_or message text) else none

pub min_text : Option ℤ → String
min_text none = ""
min_text (some m) = show_number (finite m)

pub min_items_text : Option ℕ → String
min_items_text none = ""
min_items_text (some m) = show m

module _ (parse_number : String → Number) where
  -- The four tests of a rule.
  abbrev pub too_small : BuilderNodeEditorValidationRule → Value → Bool
  too_small r v = elim r.min [ none ↦ false | some m ↦ is_below m (to_number parse_number v) ]

  abbrev pub too_few_items : BuilderNodeEditorValidationRule → Value → Bool
  too_few_items r v = elim r.min_items [ none ↦ false | some m ↦ has_few m v ]

  pub check_rule : String → BuilderNodeEditorValidationRule → Value → Option String
  unfolding reject_if min_text min_items_text
  check_rule label r v =
      or_else (reject_if (r.required && is_missing v) r.message (label <> " is required.")) (
        or_else
          (reject_if (too_small r v) r.message
            (label <> " must be at least " <> min_text r.min <> "."))
          (or_else
            (reject_if (too_few_items r v) r.message
              (label <> " must include at least " <> min_items_text r.min_items <> " item(s)."))
            (reject_if (r.non_empty_object && is_empty_object v) r.message
              (label <> " cannot be empty."))))

  pub validate_control_value : BuilderNodeEditorControl → Value → Option String
  validate_control_value c v = elim c.validation [ none ↦ none | some r ↦ check_rule c.label r v ]
