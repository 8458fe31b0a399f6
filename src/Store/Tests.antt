-- ===== src/Store/Tests.antt =====
-- The store at concrete drafts.
use lang_orch.Base.{
  has, has_once, if◌then◌else◌, ◌==◌, some, String, true, false, Option, none, some, [], ◌∷◌, ◌==◌,
  pos, negsuc, Value, str, arr, obj, no_elements, element, Fields, no_fields, field, get, ◌≡◌, refl,
  show, trim,
}
use lang_orch.Draft.{
  sequence, terminate, processing, BuilderNodeKind, BuilderNodeDraft, BuilderDraftDocument,
}
use lang_orch.Store.{
  normalize_legacy_processing_config, has_node, next_free, new_node_id, remove_draft_node,
  is_target,
}
use lang_orch.Store.Ids.Fresh.{new_node_id_fresh}
use lang_orch.Store.Closed.{IsWellFormed, add, delete, duplicate, apply_edit}
use lang_orch.Store.Closed.Step.{
  here, next, Edited-IsWellFormed, apply_edit-IsWellFormed, unreferenced,
  remove_draft_node-unreferenced,
}
use lang_orch.Store.Normal.{mapping_fields, get-normalize_legacy_processing_config}

abbrev step_node : String → BuilderNodeKind → Option String → BuilderNodeDraft
step_node i k target = record {
  id = i;
  kind = k;
  title = i;
  description = none;
  agent = none;
  position = record { x = pos 0; y = negsuc 4 };
  config =
      field "action" (str " log ")
        (field "input_mapping" (obj (field "level" (str "INFO") no_fields)) no_fields);
  transitions = record { key = "next"; target_node_id = target; label = none } ∷ [];
  ui = none;
}

abbrev two_steps : BuilderDraftDocument
two_steps = record {
  procedure_id = "p";
  procedure_version = "1";
  start_node_id = some "sequence_3";
  nodes = step_node "sequence_3" sequence (some "done") ∷ step_node "done" processing none ∷ [];
  viewport = none;
  validation = none;
}

two_steps-IsWellFormed : IsWellFormed two_steps
two_steps-IsWellFormed = record { distinct = (refl, (refl, tt)); closed = refl; start = refl }

-- The third identifier is taken, so the search goes on to the fourth.
id_after_taken : new_node_id two_steps.nodes sequence ≡ "sequence_4"
unfolding new_node_id next_free show
id_after_taken = refl

new_node_id_fresh_example : has_node two_steps.nodes (new_node_id two_steps.nodes sequence) ≡ false
new_node_id_fresh_example = new_node_id_fresh two_steps.nodes sequence

apply_edit-IsWellFormed_example : IsWellFormed (apply_edit two_steps (add terminate))
apply_edit-IsWellFormed_example =
    apply_edit-IsWellFormed two_steps (add terminate) two_steps-IsWellFormed tt

Edited-IsWellFormed_example : IsWellFormed (
    apply_edit
      (apply_edit two_steps (duplicate "done" (record { x = pos 48; y = pos 48 })))
      (delete "done"))
Edited-IsWellFormed_example =
    Edited-IsWellFormed two_steps-IsWellFormed (
      next (next here (duplicate "done" (record { x = pos 48; y = pos 48 })) tt) (delete "done") tt)

remove_draft_node-unreferenced_example :
    (has_node (remove_draft_node two_steps "done").nodes "done" ≡ false)
    × (unreferenced "done" (remove_draft_node two_steps "done").nodes ≡ true)
    × (is_target "done" (remove_draft_node two_steps "done").start_node_id ≡ false)
    × ((j : String)
        → ("done" == j) ≡ false
        → has_node (remove_draft_node two_steps "done").nodes j ≡ has_node two_steps.nodes j)
remove_draft_node-unreferenced_example = remove_draft_node-unreferenced two_steps "done"

-- A reader that knows one text.
abbrev debug_json : String → Option Value
debug_json s = if s == "{debug}" then some (obj (field "level" (str "DEBUG") no_fields)) else none

abbrev legacy_config : Fields
legacy_config = field "outputMapping" (str "{debug}") (step_node "done" processing none).config

get-normalize_legacy_processing_config_example :
    (operation : Fields) × (get "level" operation ≡ str "DEBUG")
    × (get "operations" (normalize_legacy_processing_config debug_json legacy_config)
        ≡ arr (element (obj operation) no_elements))
unfolding get has has_once trim mapping_fields
get-normalize_legacy_processing_config_example =
    get-normalize_legacy_processing_config debug_json legacy_config " log " "level" "operations"
      refl refl refl refl refl refl refl
