-- ===== src/Overlay/Tests.antt =====
-- The overlay of concrete runs.
use lang_orch.Base.{
  String, Bool, true, false, none, some, get_or, [], ◌∷◌, List, ℤ, pos, Number, nan, finite, num,
  Fields, no_fields, field, at, set, ◌+ℤ◌, ◌==◌, if◌then◌else◌, ◌≡◌, refl, get, to_number,
  show_number, show,
}
use lang_orch.Overlay.Traversals.{
  RunEvent, node_of_event, started_events, build_edge_traversal_counts,
}
use lang_orch.Overlay.Traversals.Laws.{occurrences, build_edge_traversal_counts-occurrences}
use lang_orch.Overlay.States.{prior_state, is_failed, running, build_node_state_map, apply_events}
use lang_orch.Overlay.Sticky.{is_failure_at}
use lang_orch.Overlay.Failures.{build_node_state_map-failed}

abbrev event : String → String → String → RunEvent
event i t n = record {
  event_id = i;
  event_type = t;
  node_id = some n;
  payload = none;
  step_id = none;
  created_at = i;
}

abbrev turn : Fields → RunEvent
turn p = record {
  event_id = "t";
  event_type = "loop_iteration";
  node_id = some "a";
  payload = some p;
  step_id = none;
  created_at = "t";
}

-- The time of an event is its identifier, one digit.
abbrev digit_time : String → ℤ
digit_time s = if s == "1" then pos 1 else if s == "2" then pos 2 else pos 3

abbrev no_order : String → String → Bool
no_order s t = false

abbrev no_numbers : String → Number
no_numbers s = nan

abbrev retried : List RunEvent
retried =
    event "3" "node_started" "b"
    ∷ event "1" "node_started" "a"
    ∷ event "2" "node_error" "a"
    ∷ event "2" "node_started" "a"
    ∷ []

build_edge_traversal_counts-occurrences_example :
    get_or (at "a=>b" (build_edge_traversal_counts digit_time no_order retried)) 0
    ≡ occurrences "a=>b" (started_events digit_time no_order retried)
build_edge_traversal_counts-occurrences_example =
    build_edge_traversal_counts-occurrences digit_time no_order retried "a=>b"

-- The second start at the same node does not hide the error.
build_node_state_map-failed_example :
    is_failed (prior_state (at "a" (build_node_state_map no_numbers retried (some "b") "running")))
    ≡ true
unfolding is_failure_at node_of_event
build_node_state_map-failed_example =
    build_node_state_map-failed no_numbers retried (some "b") "running" "a" refl refl

-- An iteration of a loop counts from 1 and shows the total.
second_turn :
    apply_events no_numbers
      (record { map = []; loop_iterations_by_node = [] })
      (turn (
          field "iteration" (num (finite (pos 1))) (field "total" (num (finite (pos 4))) no_fields))
        ∷ [])
    ≡ record {
      map = ("a", record { state = running; loop_count = some "2/4" }) ∷ [];
      loop_iterations_by_node = ("a", pos 2) ∷ [];
    }
unfolding apply_events get to_number show_number show at set ◌+ℤ◌
second_turn = refl
