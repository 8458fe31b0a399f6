-- ===== src/Inspector/Tests.antt =====
-- Form values at concrete controls.
use lang_orch.Base.{
  String, true, false, none, some, is_some, pos, Number, nan, num, finite, ◌≡◌, refl, to_number, [],
  ◌∷◌, str, undefined, Fields, no_fields, field, get,
}
use lang_orch.Draft.{llm_action, BuilderNodeDraft, BuilderDraftDocument}
use lang_orch.Store.{find_node}
use lang_orch.Inspector.{
  BuilderNodeEditorValidationRule, check_rule, validate_control_value, read_config_value,
}
use lang_orch.Inspector.Edits.{edited, find_node-edited}

abbrev no_numbers : String → Number
no_numbers s = nan

abbrev at_least_one : BuilderNodeEditorValidationRule
at_least_one = record {
  required = true;
  min = some (pos 1);
  min_items = none;
  non_empty_object = false;
  message = none;
}

-- A number below the least one, for a rule that wants at least 1
zero_is_rejected :
    is_some (
      validate_control_value no_numbers
        (record { label = "Max"; validation = some at_least_one })
        (num (finite (pos 0))))
    ≡ true
unfolding validate_control_value to_number check_rule
zero_is_rejected = refl

abbrev model_node : BuilderNodeDraft
model_node = record {
  id = "m";
  kind = llm_action;
  title = "M";
  description = none;
  agent = none;
  position = record { x = pos 0; y = pos 0 };
  config = field "prompt" (str "p") (field "temp" (num (finite (pos 1))) no_fields);
  transitions = [];
  ui = none;
}

abbrev one_model : BuilderDraftDocument
one_model = record {
  procedure_id = "p";
  procedure_version = "1";
  start_node_id = some "m";
  nodes = model_node ∷ [];
  viewport = none;
  validation = none;
}

find_node-edited_example :
    (config : Fields) × (find_node "m"
        (edited one_model "m" ("temperature" ∷ "temp" ∷ []) (num (finite (pos 0)))).nodes
      ≡ some (record model_node { config = config }))
    × (read_config_value config ("temperature" ∷ "temp" ∷ []) undefined ≡ num (finite (pos 0)))
    × (get "prompt" config ≡ str "p")
    × (find_node "x"
          (edited one_model "m" ("temperature" ∷ "temp" ∷ []) (num (finite (pos 0)))).nodes
        ≡ none)
unfolding find_node get
find_node-edited_example =
    find_node-edited one_model "m" model_node "temperature" ("temp" ∷ []) (num (finite (pos 0)))
      undefined "prompt" "x" refl refl refl refl
