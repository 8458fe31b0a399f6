-- ===== src/Shell.antt =====
-- The builder's shell and its shortcuts: frontend/src/builder-v2/components/BuilderShell.tsx and
-- frontend/src/builder-v2/state/use-builder-keyboard-shortcuts.ts. `print_draft` and `print_workflow` are JSON.stringify on a
-- draft and a workflow. A save that waits for the caller is two steps, the call and what follows its end.
pub mod Saves
pub mod Sessions
pub mod Connects
mod Tests
use lang_orch.Base.{
  ℕ, String, Bool, true, false, not, ◌&&◌, ◌||◌, Option, none, some, get_or, is_some, List, [], ◌∷◌,
  any, find, if◌then◌else◌, ◌==◌, is_empty, is_lower_case, Value, obj, Fields, Number,
}
use lang_orch.Draft.{BuilderTransition, BuilderNodeDraft, BuilderDraftDocument, BuilderNodePosition}
use lang_orch.Store.{
  has_node, find_node, first_id, TransitionPatch, NodePatch, update_draft_node,
  update_draft_transition, add_draft_transition, duplicate_draft_node,
}
use lang_orch.History.{DraftHistoryState, apply_draft_change, undo_draft_change, redo_draft_change}
use lang_orch.Validate.Document.{validate_draft_document}
use lang_orch.Export.{CkpWorkflowGraph, draft_document_to_ckp_workflow}

-- The state that saving, selecting and connecting read.
pub record ShellState : Type 0 where
  pub history : DraftHistoryState
  pub selected_node_id : Option String
  pub clipboard_node_id : Option String
  pub config_editor_error : Option String
  pub saved_draft_snapshot : String
  pub saved_workflow_snapshot : String

abbrev pub draft_of : ShellState → BuilderDraftDocument
draft_of s = (s.history).present

-- A condition on an optional text
abbrev pub is_set : Option String → Bool
is_set none = false
is_set (some s) = not (is_empty s)

-- What a save hands to the caller, and the two texts that it takes as saved at its end.
pub record SaveCall : Type 0 where
  pub workflow : CkpWorkflowGraph
  pub draft : BuilderDraftDocument
  pub current_draft_string : String
  pub current_workflow_graph_string : String

abbrev pub is_empty_list {ℓ} : {A : Type ℓ} → List A → Bool
is_empty_list [] = true
is_empty_list (x ∷ xs) = false

-- The updater of `handleConnectTransition`.
abbrev pub set_target : String → TransitionPatch
set_target target = record { key = none; target_node_id = some (some target) }

unfoldable pub transition_exists : String → Option BuilderNodeDraft → Bool
transition_exists k none = false
transition_exists k (some n) = any (λ (t : BuilderTransition). t.key == k) n.transitions

unfoldable pub connect : String → String → String → BuilderDraftDocument → BuilderDraftDocument
unfolding find_node transition_exists
connect source k target current =
    if transition_exists k (find_node source current.nodes)
    then update_draft_transition current source k (set_target target)
    else update_draft_transition (add_draft_transition current source k) source k
        (set_target target)

module _ (parse_json : String → Option Value) (parse_number : String → Number)
    (print_draft : BuilderDraftDocument → String) (print_workflow : CkpWorkflowGraph → String) where
  -- `handleSave` up to the call, where `onSave` is given
  unfoldable pub handle_save : ShellState → Option SaveCall
  handle_save s =
      let draft = draft_of s in
      let workflow = draft_document_to_ckp_workflow parse_json draft in
      if not (is_empty_list (validate_draft_document parse_number draft).errors)
        || is_set s.config_editor_error
      then none
      else some (record {
        workflow = workflow;
        draft = draft;
        current_draft_string = print_draft draft;
        current_workflow_graph_string = print_workflow workflow;
      })

-- `isDraftDirty`
unfoldable pub is_draft_dirty : (BuilderDraftDocument → String) → ShellState → Bool
is_draft_dirty print_draft s = not (print_draft (draft_of s) == s.saved_draft_snapshot)

-- `handleSaveDraft` up to the call, where `onSaveDraft` is given: the draft is not validated.
unfoldable pub handle_save_draft : ShellState → Option BuilderDraftDocument
handle_save_draft s = if is_set s.config_editor_error then none else some (draft_of s)

-- What the timer of the automatic save hands over, if the draft has not changed since it was set.
unfoldable pub auto_save :
    (BuilderDraftDocument → String)
    → (saving_draft : Bool) → ShellState
    → Option BuilderDraftDocument
unfolding is_draft_dirty
auto_save print_draft saving_draft s =
    if not (is_draft_dirty print_draft s) || saving_draft then none else some (draft_of s)

-- What follows the end of the caller's save of a draft.
unfoldable pub finish_save_draft : String → ShellState → ShellState
finish_save_draft snapshot s = record s { saved_draft_snapshot = snapshot }

-- `isDirty`
unfoldable pub is_dirty :
    (String → Option Value)
    → (BuilderDraftDocument → String)
    → (CkpWorkflowGraph → String)
    → ShellState
    → Bool
is_dirty parse_json print_draft print_workflow s =
    not (print_draft (draft_of s) == s.saved_draft_snapshot)
    || not (
        print_workflow (draft_document_to_ckp_workflow parse_json (draft_of s))
        == s.saved_workflow_snapshot)

-- What follows the end of the caller's save.
unfoldable pub finish_save : SaveCall → ShellState → ShellState
finish_save c s = record s {
  saved_draft_snapshot = c.current_draft_string;
  saved_workflow_snapshot = c.current_workflow_graph_string;
}

-- The node that the effect on the draft's nodes selects.
unfoldable pub selection : Option String → List BuilderNodeDraft → Option String
selection none nodes = first_id nodes
selection (some i) nodes =
    if has_node nodes i || is_empty i && is_empty_list nodes then some i else first_id nodes

unfoldable pub keep_selection : ShellState → ShellState
unfolding selection
keep_selection s = record s { selected_node_id = selection s.selected_node_id (draft_of s).nodes }

module _ (parse_json : String → Option Value) where
  unfoldable pub change : (BuilderDraftDocument → BuilderDraftDocument) → ShellState → ShellState
  change updater s = record s { history = apply_draft_change parse_json updater true s.history }

  -- A connection with an empty end is none.
  unfoldable pub handle_connect_transition :
      Option String → Option String → Option String → ShellState → ShellState
  unfolding change connect
  handle_connect_transition (some source) (some target) source_handle s =
      if is_empty source || is_empty target
      then s
      else record (change (connect source (get_or source_handle "next") target) s) {
        selected_node_id = some source;
      }
  handle_connect_transition source target source_handle s = s

pub data Shortcut : Type 0 where
  undo redo copy paste duplicate : Shortcut

pub record KeyEvent : Type 0 where
  pub default_prevented : Bool
  pub alt_key : Bool
  pub meta_key : Bool
  pub ctrl_key : Bool
  pub shift_key : Bool
  pub key : String
  -- `isEditableTarget(event.target)`
  pub is_editable_target : Bool

pub record BuilderKeyboardShortcutsOptions : Type 0 where
  pub can_undo : Bool
  pub can_redo : Bool
  pub on_copy : Bool
  pub on_paste : Bool
  pub on_duplicate : Bool

-- `handleKeyDown`: which of the callbacks is called
unfoldable pub handle_key_down : BuilderKeyboardShortcutsOptions → KeyEvent → Option Shortcut
handle_key_down o e =
    if e.default_prevented || e.alt_key || e.is_editable_target
    then none
    else if not (e.meta_key || e.ctrl_key)
    then none
    else if is_lower_case e.key "z" && not e.shift_key && o.can_undo
    then some undo
    else if (is_lower_case e.key "z" && e.shift_key || is_lower_case e.key "y") && o.can_redo
    then some redo
    else if is_lower_case e.key "c" && o.on_copy
    then some copy
    else if is_lower_case e.key "v" && o.on_paste
    then some paste
    else if is_lower_case e.key "d" && o.on_duplicate
    then some duplicate
    else none

-- Nothing is undone or redone while a save runs.
abbrev pub shortcut_options : (saving : Bool) → ShellState → BuilderKeyboardShortcutsOptions
shortcut_options saving s = record {
  can_undo = not (is_empty_list (s.history).past) && not saving;
  can_redo = not (is_empty_list (s.history).future) && not saving;
  on_copy = is_set s.selected_node_id;
  on_paste = is_set s.clipboard_node_id;
  on_duplicate = is_set s.selected_node_id;
}
