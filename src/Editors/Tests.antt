-- ===== src/Editors/Tests.antt =====
-- Edits of concrete lists and objects.
use lang_orch.Base.{
  String, true, false, Option, none, List, [], ◌∷◌, item, ◌≡◌, refl, arith, pos, Number, finite,
  Value, bool, num, str, Fields, no_fields, field, get, has, has_once, trim,
}
use lang_orch.Editors.{
  remove_at, insert_at, move_item, is_decimal, parse_loose_value, format_loose_value,
  update_object_entry, target_key,
}
use lang_orch.Editors.Moves.{IsMoved, move_item-back}
use lang_orch.Editors.Entries.{get-update_object_entry}

abbrev three : List Value
three = str "a" ∷ str "b" ∷ str "c" ∷ []

moved_up : move_item three 2 (pos 0) ≡ str "c" ∷ str "a" ∷ str "b" ∷ []
unfolding move_item remove_at insert_at item
moved_up = refl

move_item-back_example : IsMoved three 2 0 (move_item three 2 (pos 0))
move_item-back_example = move_item-back three 2 0 (omega arith) (omega arith)

decimals :
    (is_decimal "-12.5" ≡ true)
    × (is_decimal "1." ≡ false)
    × (is_decimal ".5" ≡ false)
    × (is_decimal "12" ≡ true)
unfolding is_decimal
decimals = (refl, refl, refl, refl)

abbrev no_json : String → Option Value
no_json s = none

abbrev any_number : String → Number
any_number s = finite (pos 7)

-- A text that reads as a number is not kept when its entry is edited: the text that the editor shows
-- for it is parsed again.
text_becomes_number :
    parse_loose_value no_json any_number (format_loose_value (λ v. "") (str "7"))
    ≡ num (finite (pos 7))
unfolding parse_loose_value format_loose_value trim
text_becomes_number = refl

abbrev settings : Fields
settings = field "host" (str "a") (field "port" (str "b") no_fields)

get-update_object_entry_example :
    get "name" (update_object_entry no_json any_number settings "host" " name " "true") ≡ bool true
unfolding target_key parse_loose_value has_once has trim
get-update_object_entry_example =
    get-update_object_entry no_json any_number settings "host" " name " "true" "name" refl
