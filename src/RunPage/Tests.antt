-- ===== src/RunPage/Tests.antt =====
-- A run shown on its page.
use lang_orch.Base.{
  String, none, some, List, [], ◌∷◌, map, ◌==◌, ◌≡◌, refl, ℤ, pos, Number, finite, no_fields, at,
  set,
}
use lang_orch.Overlay.Traversals.{RunEvent, node_of_event}
use lang_orch.Overlay.States.{
  BuilderNodeExecutionState, apply_events, class_of, mark_current, last_started, mark_last_started,
  put_state, prior_state, gives_way, with_state,
}
use lang_orch.Overlay.States as Overlay
use lang_orch.RunPage.{NodeState, NodeStatus, StatusMap}
use lang_orch.RunPage as Page
use lang_orch.RunPage.Shown.{shown_map}
use lang_orch.RunPage.Same.{is_common, build_node_state_map-same}
use lang_orch.RunPage.Summaries.{NodeExecutionSummary, build_node_execution_summaries}
use lang_orch.RunPage.Sorting.{count_if}
use lang_orch.RunPage.Rows.{names}
use lang_orch.RunPage.Counts.{build_node_execution_summaries-once}

abbrev event : String → String → String → RunEvent
event i type node = record {
  event_id = i;
  event_type = type;
  node_id = some node;
  step_id = none;
  payload = some no_fields;
  created_at = i;
}

abbrev events : List RunEvent
events =
    event "1" "node_started" "a"
    ∷ event "2" "node_completed" "a"
    ∷ event "3" "node_started" "b"
    ∷ []

abbrev any_number : String → Number
any_number s = finite (pos 1)

abbrev any_time : String → ℤ
any_time s = pos 1

abbrev status : NodeState → NodeStatus
status s = record { state = s; loop_count = none }

build_node_state_map-same_example :
    Page.build_node_state_map any_number events (some "b") "running"
    ≡ ("a", status NodeState.completed) ∷ ("b", status NodeState.current) ∷ []
unfolding is_common shown_map Overlay.build_node_state_map at set
build_node_state_map-same_example =
    build_node_state_map-same any_number events (some "b") "running" refl

-- The current node of a pending run is shown by the overlay and not by the page.
pending_run :
    (Page.build_node_state_map any_number [] (some "a") "pending" ≡ [])
    × (map (λ p. p.0) (Overlay.build_node_state_map any_number [] (some "a") "pending") ≡ "a" ∷ [])
unfolding Page.build_node_state_map Overlay.build_node_state_map set at
pending_run = (refl, refl)

build_node_execution_summaries-once_example :
    count_if
      (λ (s : NodeExecutionSummary). s.node_id == "a")
      (build_node_execution_summaries any_time any_time events
        (("a", status NodeState.completed) ∷ []))
    ≡ 1
unfolding names node_of_event
build_node_execution_summaries-once_example =
    build_node_execution_summaries-once any_time any_time events
      (("a", status NodeState.completed) ∷ []) "a"

summarised_nodes :
    map
      (λ (s : NodeExecutionSummary). s.node_id)
      (build_node_execution_summaries any_time any_time events [])
    ≡ "a" ∷ "b" ∷ []
unfolding build_node_execution_summaries set at
summarised_nodes = refl
