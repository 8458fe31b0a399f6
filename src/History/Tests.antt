-- ===== src/History/Tests.antt =====
-- The history at a concrete draft.
use lang_orch.Base.{
  String, true, false, Option, none, some, List, [], ◌∷◌, pos, Value, no_fields, ◌≡◌, refl, show,
}
use lang_orch.Draft.{sequence, BuilderDraftDocument}
use lang_orch.Store.{load_draft_document, update_draft_node_positions, set_draft_start_node}
use lang_orch.History.{
  DraftHistoryState, draft_fingerprint, node_fingerprint, join, sort, insert_sorted, value_texts,
  transition_text, reset_draft_history, apply_draft_change, undo_draft_change,
}
use lang_orch.History.Loaded.{IsLoaded, change, undo, redo, run, run-IsLoaded, reset-IsLoaded}
use lang_orch.History.Undo.{drag, undo-drag}
use lang_orch.History.Timeline.{view}
use lang_orch.History.Timeline.Run.{view-run}
use lang_orch.History.Moves.{apply_draft_change-positions}

abbrev one_node : BuilderDraftDocument
one_node = record {
  procedure_id = "p";
  procedure_version = "1";
  start_node_id = none;
  nodes =
      record {
        id = "a";
        kind = sequence;
        title = "A";
        description = none;
        agent = none;
        position = record { x = pos 0; y = pos 0 };
        config = no_fields;
        transitions = [];
        ui = none;
      }
      ∷ [];
  viewport = none;
  validation = none;
}

abbrev no_json : String → Option Value
no_json s = none

abbrev history_of : List BuilderDraftDocument → List BuilderDraftDocument → DraftHistoryState
history_of past future = record {
  past = past;
  present = one_node;
  future = future;
  pending_history_base = none;
}

abbrev started : BuilderDraftDocument
started = record one_node { start_node_id = some "a" }

history_of-IsLoaded : IsLoaded no_json (history_of (started ∷ []) (started ∷ []))
unfolding load_draft_document
history_of-IsLoaded = record { past = (refl, tt); present = refl; future = (refl, tt) }

run-IsLoaded_example : IsLoaded no_json (
    run no_json
      (reset_draft_history no_json one_node)
      (change (λ d. set_draft_start_node d "a") true ∷ undo ∷ redo ∷ []))
run-IsLoaded_example =
    run-IsLoaded no_json (change (λ d. set_draft_start_node d "a") true ∷ undo ∷ redo ∷ [])
      (reset_draft_history no_json one_node) (reset-IsLoaded no_json one_node)

abbrev start_at_a : BuilderDraftDocument → BuilderDraftDocument
start_at_a d = set_draft_start_node d "a"

abbrev start_at_b : BuilderDraftDocument → BuilderDraftDocument
start_at_b d = set_draft_start_node d "b"

abbrev closed_gesture : DraftHistoryState
closed_gesture =
    apply_draft_change no_json start_at_b true
      (drag no_json (start_at_a ∷ []) (history_of (started ∷ []) (started ∷ [])))

undo-drag_example :
    ((undo_draft_change no_json closed_gesture).present ≡ one_node)
    × ((undo_draft_change no_json closed_gesture).past ≡ started ∷ [])
    × (closed_gesture.future ≡ [])
unfolding drag apply_draft_change load_draft_document set_draft_start_node draft_fingerprint show
    node_fingerprint join sort insert_sorted value_texts transition_text
undo-drag_example =
    undo-drag no_json (history_of (started ∷ []) (started ∷ [])) (start_at_a ∷ []) start_at_b
      history_of-IsLoaded refl refl

apply_draft_change-positions_example :
    apply_draft_change no_json
      (λ d. update_draft_node_positions d (("a", record { x = pos 9; y = pos 9 }) ∷ []))
      false
      (history_of [] [])
    ≡ history_of [] []
unfolding load_draft_document
apply_draft_change-positions_example =
    apply_draft_change-positions no_json (history_of [] []) false
      (λ d. ("a", record { x = pos 9; y = pos 9 }) ∷ []) refl refl

view-run_example :
    view (run no_json (history_of (started ∷ []) (started ∷ [])) (undo ∷ redo ∷ redo ∷ []))
    ≡ record { revisions = started ∷ one_node ∷ started ∷ []; cursor = 2; base = none }
view-run_example =
    view-run no_json (undo ∷ redo ∷ redo ∷ []) (history_of (started ∷ []) (started ∷ []))
      history_of-IsLoaded
