-- ===== src/Shell/Tests.antt =====
-- A shell with a small draft.
use lang_orch.Base.{
  is_lower_case, trim, String, true, false, Option, none, some, List, [], ◌∷◌, ◌≡◌, refl, pos,
  Value, Number, finite, no_fields,
}
use lang_orch.Draft.{
  BuilderNodeKind, sequence, terminate, BuilderTransition, BuilderNodeDraft, BuilderDraftDocument,
}
use lang_orch.Store.{find_node, targets}
use lang_orch.Validate.Cycles.{detect_cycles, detect_from, detect_cycle, try_targets}
use lang_orch.Validate.Graph.{targets_of, node_of}
use lang_orch.Validate.Nodes.{check_nodes, check_node}
use lang_orch.Validate.Reach.{visited_from}
use lang_orch.Export.{CkpWorkflowGraph, draft_document_to_ckp_workflow}
use lang_orch.Validate.Document.{validate_draft_document}
use lang_orch.Shell.{
  ShellState, SaveCall, handle_save, finish_save, is_dirty, connect, handle_key_down,
  shortcut_options, redo,
}
use lang_orch.Shell.Sessions.{Event, save, edit, save_draft, save_ends}
use lang_orch.Shell.Saves.{is_dirty-finish_save}
use lang_orch.Shell.Connects.{target_at, target_at-connect}

abbrev no_json : String → Option Value
no_json s = none

abbrev any_number : String → Number
any_number s = finite (pos 1)

abbrev node : String → BuilderNodeKind → List BuilderTransition → BuilderNodeDraft
node i kind ts = record {
  id = i;
  kind = kind;
  title = i;
  description = none;
  agent = none;
  position = record { x = pos 0; y = pos 0 };
  config = no_fields;
  transitions = ts;
  ui = none;
}

abbrev first : BuilderNodeDraft
first = node "a" sequence (record { key = "next"; target_node_id = some "b"; label = none } ∷ [])

abbrev draft : BuilderDraftDocument
draft = record {
  procedure_id = "p";
  procedure_version = "1";
  start_node_id = some "b";
  nodes = first ∷ node "b" terminate [] ∷ [];
  viewport = none;
  validation = none;
}

abbrev one_end : BuilderDraftDocument
one_end = record draft { nodes = node "b" terminate [] ∷ [] }

abbrev shell : BuilderDraftDocument → ShellState
shell d = record {
  history = record { past = []; present = d; future = d ∷ []; pending_history_base = none };
  selected_node_id = some "gone";
  clipboard_node_id = none;
  config_editor_error = none;
  saved_draft_snapshot = "";
  saved_workflow_snapshot = "";
}

abbrev start_text : BuilderDraftDocument → String
start_text d = d.procedure_id

abbrev no_text : CkpWorkflowGraph → String
no_text w = "w"

abbrev call : SaveCall
call = record {
  workflow = draft_document_to_ckp_workflow no_json one_end;
  draft = one_end;
  current_draft_string = "p";
  current_workflow_graph_string = "w";
}

saved_call : handle_save no_json any_number start_text no_text (shell one_end) ≡ some call
unfolding handle_save validate_draft_document detect_cycles detect_from detect_cycle try_targets
    targets_of node_of targets check_nodes check_node trim visited_from
saved_call = refl

-- A save, a change of the draft while it runs, a save of the changed draft alone, and the end of the
-- first save
abbrev save_and_edit : List Event
save_and_edit =
    save
    ∷ edit (shell (record draft { procedure_id = "q" })).history
    ∷ save_draft
    ∷ save_ends 0
    ∷ []

is_dirty-finish_save_example :
    is_dirty no_json start_text no_text
      (finish_save call (shell (record draft { procedure_id = "q" })))
    ≡ true
is_dirty-finish_save_example =
    is_dirty-finish_save no_json any_number start_text no_text (shell one_end)
      (shell (record draft { procedure_id = "q" })) call saved_call

target_at-connect_example :
    target_at (find_node "a" (connect "a" "done" "c" draft).nodes) "done" ≡ some "c"
unfolding find_node
target_at-connect_example = target_at-connect "a" "done" "c" draft first "a" "done" refl refl

redo_shortcut :
    handle_key_down (shortcut_options false (shell draft)) (record {
      default_prevented = false;
      alt_key = false;
      meta_key = false;
      ctrl_key = true;
      shift_key = true;
      key = "Z";
      is_editable_target = false;
    })
    ≡ some redo
unfolding handle_key_down is_lower_case
redo_shortcut = refl
