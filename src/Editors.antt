-- ===== src/Editors.antt =====
-- The editors of objects and lists: frontend/src/builder-v2/inspector/shared/structured-editors.tsx,
-- lines 6 to 121. `JSON.parse`, `JSON.stringify` and the number that a text reads as are the parameters
-- `parse_json`, `print_json` and `parse_number`.
pub mod Moves
pub mod Entries
mod Tests
use Prim.Native.Char.{Char, code}
use Prim.Native.String.{[], ◌∷◌}
use lang_orch.Base.{
  ℕ, zero, suc, ◌+◌, String, Bool, true, false, not, ◌&&◌, ◌||◌, Option, none, some, List, [], ◌∷◌,
  keep, length, item, if◌then◌else◌, leb, ltb, eqb, ◌==◌, trim, is_empty, is_blank, ℤ, pos, negsuc,
  Number, Value, undefined, null, bool, num, str, arr, obj, Fields, no_fields, field, get, put,
}

pub record EditorFieldDefinition : Type 0 where
  pub key : String
  pub required : Bool
  pub visible_when : Option (Fields → Bool)
  -- an object for each value that has a preset
  pub value_presets : Option (List (String × Fields))

unfoldable pub is_field_visible : EditorFieldDefinition → Fields → Bool
is_field_visible f value = elim f.visible_when [ none ↦ true | some visible ↦ visible value ]

abbrev pub is_empty_field_value : Value → Bool
is_empty_field_value undefined = true
is_empty_field_value null = true
is_empty_field_value (str s) = is_blank s
is_empty_field_value v = false

pub get_missing_required_fields : List EditorFieldDefinition → Fields → List EditorFieldDefinition
unfolding is_field_visible
get_missing_required_fields fields value =
    keep
      (λ (f : EditorFieldDefinition).
        f.required && is_field_visible f value && is_empty_field_value (get f.key value))
      fields

-- `items.splice(i, 1)`, and `items.splice(i, 0, v)`, which inserts at the end at most
unfoldable pub remove_at {ℓ} : {A : Type ℓ} → ℕ → List A → List A
remove_at i [] = []
remove_at zero (x ∷ xs) = xs
remove_at (suc i) (x ∷ xs) = x ∷ remove_at i xs

unfoldable pub insert_at {ℓ} : {A : Type ℓ} → ℕ → A → List A → List A
insert_at zero y xs = y ∷ xs
insert_at (suc i) y [] = y ∷ []
insert_at (suc i) y (x ∷ xs) = x ∷ insert_at i y xs

-- The index that an item is moved from is one of the list, or `undefined` is moved.
unfoldable pub move_item : List Value → ℕ → ℤ → List Value
unfolding remove_at insert_at
move_item items from (negsuc n) = items
move_item items from (pos to) =
    if eqb from to || leb (length items) to
    then items
    else insert_at to (item undefined items from) (remove_at from items)

-- A text of this form reads as a number. `/^-?\d+(?:\.\d+)?$/`
abbrev is_digit : Char → Bool
is_digit c = leb 48 (code c) && leb (code c) 57

all_digits : String → Bool
all_digits [] = true
all_digits (c ∷ s) = is_digit c && all_digits s

after_digits : String → Bool
unfolding all_digits
after_digits [] = true
after_digits (c ∷ s) =
    let rest = after_digits s in
    if is_digit c then rest else eqb (code c) 46 && not (is_empty s) && all_digits s

starts_with_digit : String → Bool
starts_with_digit [] = false
starts_with_digit (c ∷ s) = is_digit c

unsigned : String → Bool
unfolding after_digits starts_with_digit
unsigned s = starts_with_digit s && after_digits s

unfoldable pub is_decimal : String → Bool
unfolding unsigned
is_decimal [] = false
is_decimal (c ∷ s) = if eqb (code c) 45 then unsigned s else unsigned (c ∷ s)

-- `["{", "[", '"'].includes(trimmed[0])`
is_json_start : String → Bool
is_json_start [] = false
is_json_start (c ∷ s) = eqb (code c) 123 || eqb (code c) 91 || eqb (code c) 34

abbrev parsed_value : Option Value → String → Value
parsed_value none s = str s
parsed_value (some v) s = v

unfoldable pub parse_loose_value : (String → Option Value) → (String → Number) → String → Value
unfolding is_decimal is_json_start
parse_loose_value parse_json parse_number value =
    let trimmed = trim value in
    if is_empty trimmed
    then str ""
    else if trimmed == "true"
    then bool true
    else if trimmed == "false"
    then bool false
    else if trimmed == "null"
    then null
    else if is_decimal trimmed
    then num (parse_number trimmed)
    else if is_json_start trimmed
    then parsed_value (parse_json trimmed) value
    else str value

unfoldable pub format_loose_value : (Value → String) → Value → String
format_loose_value print_json (str s) = s
format_loose_value print_json undefined = ""
format_loose_value print_json v = print_json v

pub normalize_editable_object : Value → Fields
normalize_editable_object (obj o) = o
normalize_editable_object undefined = no_fields
normalize_editable_object v = field "value" v no_fields

-- The loop that copies every entry but one.
unfoldable pub copy_but : String → Fields → Fields → Fields
copy_but previous no_fields next = next
copy_but previous (field k v o) next =
    copy_but previous o (if k == previous then next else put k v next)

unfoldable pub target_key : String → String → String
target_key previous next = if is_blank next then previous else trim next

abbrev is_unset : Value → Bool
is_unset undefined = true
is_unset null = true
is_unset (str s) = is_empty s
is_unset v = false

unfoldable pub fill_in : Fields → Fields → Fields
fill_in no_fields o = o
fill_in (field k v preset) o = fill_in preset (if is_unset (get k o) then put k v o else o)

unfoldable pub preset_of : String → List (String × Fields) → Option Fields
preset_of v [] = none
preset_of v ((w, preset) ∷ ps) = if w == v then some preset else preset_of v ps

module _ (parse_json : String → Option Value) (parse_number : String → Number) where
  unfoldable pub update_object_entry : Fields → String → String → String → Fields
  unfolding target_key
  update_object_entry o previous next value =
      put (target_key previous next) (parse_loose_value parse_json parse_number value)
        (copy_but previous o no_fields)

  abbrev with_preset : Option Fields → Fields → Fields
  with_preset none o = o
  with_preset (some preset) o = fill_in preset o

  pub apply_field_value_change :
      Fields → String → String → String → Option EditorFieldDefinition → Fields
  apply_field_value_change o previous next value none = update_object_entry o previous next value
  apply_field_value_change o previous next value (some f) = elim f.value_presets [
    | none ↦ update_object_entry o previous next value
    | some presets ↦
        with_preset (preset_of value presets) (update_object_entry o previous next value)
  ]
