-- ===== src/Overlay/States.antt =====
-- The state of each node of a run (lines 53 to 143).
use lang_orch.Base.{
  String, Bool, true, false, not, ◌&&◌, ◌||◌, Option, none, some, get_or, or_else, List, [], ◌∷◌,
  any, if◌then◌else◌, ◌==◌, ◌<>◌, is_empty, ℤ, pos, ltb_ℤ, ◌+ℤ◌, eqb, Value, undefined, Number,
  finite, Fields, no_fields, get, to_number, show_number, at, set,
}
use lang_orch.Overlay.Traversals.{RunEvent, node_of_event}

pub data BuilderNodeExecutionState : Type 0 where
  idle current running completed failed paused sla_breached : BuilderNodeExecutionState

pub record BuilderNodeExecutionSummary : Type 0 where
  pub state : BuilderNodeExecutionState
  pub loop_count : Option String

-- The two maps that the loop over the events fills.
pub record OverlayState : Type 0 where
  pub map : List (String × BuilderNodeExecutionSummary)
  pub loop_iterations_by_node : List (String × ℤ)

pub data EventClass : Type 0 where
  failure breach completion pause start iteration other : EventClass

abbrev pub is_one_of : List String → String → Bool
is_one_of ks k = any (λ j. j == k) ks

unfoldable pub class_of : String → EventClass
class_of t =
    if is_one_of ("node_error" ∷ "step_error_notification" ∷ "step_timeout" ∷ []) t
    then failure
    else if t == "sla_breached"
    then breach
    else if is_one_of ("node_completed" ∷ "step_completed" ∷ []) t
    then completion
    else if t == "node_paused" || t == "approval_requested"
    then pause
    else if is_one_of ("node_started" ∷ "step_started" ∷ []) t
    then start
    else if t == "loop_iteration"
    then iteration
    else other

-- `map[nodeId]?.state`
unfoldable pub prior_state : Option BuilderNodeExecutionSummary → Option BuilderNodeExecutionState
prior_state none = none
prior_state (some s) = some s.state

-- Whether a state of a node may be followed by one that an event of a class asks for.
unfoldable pub gives_way : EventClass → Option BuilderNodeExecutionState → Bool
gives_way failure s = true
gives_way c (some failed) = false
gives_way breach s = true
gives_way c (some sla_breached) = false
gives_way start (some paused) = false
gives_way c s = true

-- `{ ...(map[nodeId] ?? {}), state }`
unfoldable pub with_state :
    BuilderNodeExecutionState → Option BuilderNodeExecutionSummary → BuilderNodeExecutionSummary
with_state s none = record { state = s; loop_count = none }
with_state s (some prior) = record prior { state = s }

unfoldable pub put_state :
    String
    → BuilderNodeExecutionState
    → List (String × BuilderNodeExecutionSummary)
    → List (String × BuilderNodeExecutionSummary)
unfolding with_state
put_state i s m = set i (with_state s (at i m)) m

unfoldable pub mark : EventClass → BuilderNodeExecutionState → String → OverlayState → OverlayState
unfolding gives_way prior_state put_state
mark c s i o =
    if gives_way c (prior_state (at i o.map)) then record o { map = put_state i s o.map } else o

abbrev plus_one : Number → Option ℤ
plus_one (finite n) = some (n +ℤ pos 1)
plus_one n = none

abbrev max_ℤ : ℤ → ℤ → ℤ
max_ℤ m n = if ltb_ℤ m n then n else m

abbrev pub next_iteration : Option ℤ → ℤ → ℤ
next_iteration none before = before +ℤ pos 1
next_iteration (some n) before = max_ℤ before n

-- `{ ...(map[nodeId] ?? { state: "running" }), loopCount }`
unfoldable pub with_loop_count :
    String → Option BuilderNodeExecutionSummary → BuilderNodeExecutionSummary
with_loop_count c none = record { state = running; loop_count = some c }
with_loop_count c (some prior) = record prior { loop_count = some c }

unfoldable pub put_iteration : ℤ → String → String → OverlayState → OverlayState
unfolding with_loop_count
put_iteration n c i o = record {
  map = set i (with_loop_count c (at i o.map)) o.map;
  loop_iterations_by_node = set i n o.loop_iterations_by_node;
}

module _ (parse_number : String → Number) where
  -- `Number(payload.iteration) + 1` where that is finite
  unfoldable pub iteration_of : Value → Option ℤ
  iteration_of undefined = none
  iteration_of v = plus_one (to_number parse_number v)

  suffix_number : Number → String
  suffix_number (finite (pos n)) = if eqb n 0 then "" else "/" <> show_number (finite (pos n))
  suffix_number (finite n) = "/" <> show_number (finite n)
  suffix_number n = ""

  -- `/${total}` where the total is finite and not 0
  total_suffix : Value → String
  unfolding suffix_number
  total_suffix undefined = ""
  total_suffix v = suffix_number (to_number parse_number v)

  unfoldable pub iteration_number : Option Fields → String → OverlayState → ℤ
  unfolding iteration_of
  iteration_number payload i o =
      next_iteration (iteration_of (get "iteration" (get_or payload no_fields)))
        (get_or (at i o.loop_iterations_by_node) (pos 0))

  unfoldable pub loop_text : Option Fields → ℤ → String
  unfolding total_suffix
  loop_text payload n =
      show_number (finite n) <> total_suffix (get "total" (get_or payload no_fields))

  unfoldable pub iterate : Option Fields → String → OverlayState → OverlayState
  unfolding iteration_number loop_text put_iteration
  iterate payload i o =
      let n = iteration_number payload i o in put_iteration n (loop_text payload n) i o

  unfoldable pub apply_class : EventClass → Option Fields → String → OverlayState → OverlayState
  unfolding mark iterate
  apply_class failure payload i o = mark failure failed i o
  apply_class breach payload i o = mark breach sla_breached i o
  apply_class completion payload i o = mark completion completed i o
  apply_class pause payload i o = mark pause paused i o
  apply_class start payload i o = mark start running i o
  apply_class iteration payload i o = iterate payload i o
  apply_class other payload i o = o

  unfoldable pub apply_event : OverlayState → RunEvent → OverlayState
  unfolding class_of apply_class node_of_event
  apply_event o e = elim (node_of_event e) [
    | none ↦ o
    | some i ↦ apply_class (class_of e.event_type) e.payload i o
  ]

  unfoldable pub apply_events : OverlayState → List RunEvent → OverlayState
  unfolding apply_event
  apply_events o [] = o
  apply_events o (e ∷ es) = apply_events (apply_event o e) es

abbrev pub is_active : String → Bool
is_active status = is_one_of ("running" ∷ "created" ∷ "pending" ∷ []) status

abbrev pub is_waiting : String → Bool
is_waiting status = is_one_of ("waiting_approval" ∷ "paused" ∷ []) status

abbrev pub is_failed : Option BuilderNodeExecutionState → Bool
is_failed (some failed) = true
is_failed s = false

abbrev pub is_running : Option BuilderNodeExecutionState → Bool
is_running (some running) = true
is_running s = false

-- The state of the current node follows the status of the run.
unfoldable pub mark_current :
    Option String
    → String
    → List (String × BuilderNodeExecutionSummary)
    → List (String × BuilderNodeExecutionSummary)
unfolding put_state prior_state
mark_current none status m = m
mark_current (some i) status m =
    if is_empty i
    then m
    else if status == "failed"
    then put_state i failed m
    else if status == "completed"
    then put_state i completed m
    else if is_waiting status && not (is_failed (prior_state (at i m)))
    then put_state i paused m
    else if is_active status && not (is_failed (prior_state (at i m)))
    then put_state i current m
    else m

-- The node of the last event that started a node or a step.
unfoldable pub last_started : Option String → List RunEvent → Option String
unfolding node_of_event
last_started found [] = found
last_started found (e ∷ es) =
    last_started
      (if is_one_of ("node_started" ∷ "step_started" ∷ []) e.event_type
        then or_else (node_of_event e) found
        else found)
      es

unfoldable pub mark_last_started :
    Option String
    → String
    → List (String × BuilderNodeExecutionSummary)
    → List (String × BuilderNodeExecutionSummary)
unfolding put_state prior_state
mark_last_started none status m = m
mark_last_started (some i) status m =
    if is_active status && is_running (prior_state (at i m)) then put_state i current m else m

unfoldable pub build_node_state_map :
    (String → Number)
    → List RunEvent
    → Option String
    → String
    → List (String × BuilderNodeExecutionSummary)
unfolding apply_events mark_current last_started mark_last_started
build_node_state_map parse_number events current_node_id status =
    mark_last_started (last_started none events) status (
      mark_current current_node_id status
        (apply_events parse_number (record { map = []; loop_iterations_by_node = [] }) events).map)
