-- ===== src/RunPage.antt =====
-- The page of a run: frontend/src/app/runs/[id]/page.tsx, lines 57 to 231. It folds the events to a
-- state for each node with its own copy of the loop that the builder's overlay has; what the two loops do
-- word for word (the sorts of events, the count of a loop) is taken from Overlay/States.
pub mod Shown
pub mod Same
pub mod Summaries
pub mod Sorting
pub mod Rows
pub mod Counts
mod Tests
use lang_orch.Base.{
  String, Bool, true, false, not, ◌&&◌, ◌||◌, Option, none, some, get_or, List, [], ◌∷◌,
  if◌then◌else◌, ◌==◌, is_empty, ℤ, pos, Value, undefined, null, Number, Fields, no_fields, get, at,
  set, nullish,
}
use lang_orch.Overlay.Traversals.{RunEvent, node_of_event}
use lang_orch.Overlay.States.{
  EventClass, failure, breach, completion, pause, start, iteration, other, class_of, is_one_of,
  iteration_of, next_iteration, loop_text, last_started,
}

-- `extractErrorMessage`: the first key that has a value
unfoldable pub extract_error_message : Option Fields → Value
extract_error_message none = null
extract_error_message (some payload) = nullish (get "message" payload) (
    nullish (get "error" payload) (
      nullish (get "detail" payload)
        (nullish (get "reason" payload) (nullish (get "exception" payload) null))))

pub data NodeState : Type 0 where
  running completed failed sla_breached current pending paused : NodeState

pub record NodeStatus : Type 0 where
  pub state : NodeState
  pub loop_count : Option String

abbrev pub StatusMap : Type 0
StatusMap = List (String × NodeStatus)

pub record PageMaps : Type 0 where
  pub map : StatusMap
  pub loop_iterations_by_node : List (String × ℤ)

-- `map[nodeId]?.state`
unfoldable pub state_in : Option NodeStatus → Option NodeState
state_in none = none
state_in (some s) = some s.state

-- The guard of each sort of event on the state before it.
unfoldable pub may_set : EventClass → Option NodeState → Bool
may_set failure s = true
may_set c (some failed) = false
may_set breach s = true
may_set c (some sla_breached) = false
may_set start (some paused) = false
may_set c s = true

-- `{ ...(map[nodeId] ?? {}), state }`
unfoldable pub status_with : NodeState → Option NodeStatus → NodeStatus
status_with s none = record { state = s; loop_count = none }
status_with s (some prior) = record prior { state = s }

unfoldable pub put_status : String → NodeState → StatusMap → StatusMap
unfolding status_with
put_status i s m = set i (status_with s (at i m)) m

unfoldable pub set_status : EventClass → NodeState → String → PageMaps → PageMaps
unfolding may_set state_in put_status
set_status c s i o =
    if may_set c (state_in (at i o.map)) then record o { map = put_status i s o.map } else o

-- `{ ...(map[nodeId] ?? { state: "running" }), loopCount }`
unfoldable pub counted : String → Option NodeStatus → NodeStatus
counted c none = record { state = running; loop_count = some c }
counted c (some prior) = record prior { loop_count = some c }

unfoldable pub put_count : ℤ → String → String → PageMaps → PageMaps
unfolding counted
put_count n c i o = record {
  map = set i (counted c (at i o.map)) o.map;
  loop_iterations_by_node = set i n o.loop_iterations_by_node;
}

module _ (parse_number : String → Number) where
  unfoldable pub count_loop : Option Fields → String → PageMaps → PageMaps
  unfolding iteration_of put_count loop_text
  count_loop payload i o =
      let n =
        next_iteration (iteration_of parse_number (get "iteration" (get_or payload no_fields)))
          (get_or (at i o.loop_iterations_by_node) (pos 0)) in
      put_count n (loop_text parse_number payload n) i o

  unfoldable pub step : EventClass → Option Fields → String → PageMaps → PageMaps
  unfolding set_status count_loop
  step failure payload i o = set_status failure failed i o
  step breach payload i o = set_status breach sla_breached i o
  step completion payload i o = set_status completion completed i o
  step pause payload i o = set_status pause paused i o
  step start payload i o = set_status start running i o
  step iteration payload i o = count_loop payload i o
  step other payload i o = o

  unfoldable pub read_event : PageMaps → RunEvent → PageMaps
  unfolding class_of step node_of_event
  read_event o e = elim (node_of_event e) [
    | none ↦ o
    | some i ↦ step (class_of e.event_type) e.payload i o
  ]

  unfoldable pub read_events : PageMaps → List RunEvent → PageMaps
  unfolding read_event
  read_events o [] = o
  read_events o (e ∷ es) = read_events (read_event o e) es

abbrev pub is_going : String → Bool
is_going status = is_one_of ("running" ∷ "created" ∷ []) status

abbrev pub has_failed : Option NodeState → Bool
has_failed (some failed) = true
has_failed s = false

abbrev pub is_in_progress : Option NodeState → Bool
is_in_progress (some running) = true
is_in_progress s = false

unfoldable pub mark_by_status : Option String → String → StatusMap → StatusMap
unfolding put_status state_in
mark_by_status none status m = m
mark_by_status (some i) status m =
    if is_empty i
    then m
    else if status == "failed"
    then put_status i failed m
    else if status == "completed"
    then put_status i completed m
    else if status == "waiting_approval" && not (has_failed (state_in (at i m)))
    then put_status i paused m
    else if is_going status && not (has_failed (state_in (at i m)))
    then put_status i current m
    else m

unfoldable pub mark_started : Option String → String → StatusMap → StatusMap
unfolding put_status state_in
mark_started none status m = m
mark_started (some i) status m =
    if is_going status && is_in_progress (state_in (at i m)) then put_status i current m else m

unfoldable pub build_node_state_map :
    (String → Number) → List RunEvent → Option String → String → StatusMap
unfolding read_events mark_by_status last_started mark_started
build_node_state_map parse_number events current_node_id run_status =
    mark_started (last_started none events) run_status (
      mark_by_status current_node_id run_status
        (read_events parse_number (record { map = []; loop_iterations_by_node = [] }) events).map)
