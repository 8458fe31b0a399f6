-- ===== src/RunPage/Summaries.antt =====
-- What the page tells of each node of a run (lines 207 to 364). The time that a text reads as and the
-- number of an event's identifier are the parameters `time` and `event_number`, whole numbers.
use lang_orch.Base.{
  String, Bool, true, false, not, ◌&&◌, ◌||◌, Option, none, some, get_or, or_else, List, [], ◌∷◌,
  map, if◌then◌else◌, ◌==◌, is_empty, is_blank, ℤ, pos, ltb_ℤ, Value, null, num, str, Number,
  finite, Fields, no_fields, get, at, set, nullish, truthy,
}
use lang_orch.Overlay.Traversals.{RunEvent, node_of_event}
use lang_orch.RunPage.{NodeState, StatusMap, state_in, extract_error_message}

pub data StepStatus : Type 0 where
  running completed failed timeout cached : StepStatus

pub record StepExecutionSummary : Type 0 where
  pub step_id : String
  pub action : Option String
  pub status : StepStatus
  pub started_at : Option String
  pub completed_at : Option String
  pub duration_ms : Option Number
  pub retry_count : Number
  pub error : Value

pub record NodeExecutionSummary : Type 0 where
  pub node_id : String
  pub node_name : Option String
  pub status : NodeState
  pub started_at : Option String
  pub finished_at : Option String
  pub last_updated_at : Option String
  pub approval_id : Option String
  pub pause_reason : Option String
  pub error : Value
  pub steps : List StepExecutionSummary

abbrev pub Steps : Type 0
Steps = List (String × StepExecutionSummary)

-- The two maps that the loop fills.
pub record PageSummaries : Type 0 where
  pub nodes : List (String × NodeExecutionSummary)
  pub steps_by_node : List (String × Steps)

abbrev pub new_summary : String → NodeExecutionSummary
new_summary i = record {
  node_id = i;
  node_name = none;
  status = NodeState.pending;
  started_at = none;
  finished_at = none;
  last_updated_at = none;
  approval_id = none;
  pause_reason = none;
  error = null;
  steps = [];
}

abbrev pub new_step : String → StepExecutionSummary
new_step i = record {
  step_id = i;
  action = none;
  status = StepStatus.running;
  started_at = none;
  completed_at = none;
  duration_ms = none;
  retry_count = finite (pos 0);
  error = null;
}

-- `typeof v === "string" ? v : before`, and so for a number
abbrev text_or : Value → Option String → Option String
text_or (str s) before = some s
text_or v before = before

abbrev number_or : Value → Option Number → Option Number
number_or (num n) before = some n
number_or v before = before

abbrev full_text_or : Value → Option String → Option String
full_text_or (str s) before = if is_blank s then before else some s
full_text_or v before = before

-- `x ??= v`
abbrev keep_or : Option String → String → Option String
keep_or none v = some v
keep_or (some s) v = some s

abbrev is_failure : NodeState → Bool
is_failure NodeState.failed = true
is_failure s = false

unfoldable pub touch : RunEvent → Fields → NodeExecutionSummary → NodeExecutionSummary
touch e payload s = record s {
  last_updated_at = some e.created_at;
  node_name = full_text_or (get "node_name" payload) s.node_name;
}

-- The cases of the switch that change the node.
unfoldable pub note_event : String → RunEvent → Fields → NodeExecutionSummary → NodeExecutionSummary
unfolding extract_error_message
note_event t e payload s =
    if t == "node_started"
    then record s { started_at = keep_or s.started_at e.created_at; status = NodeState.running }
    else if t == "node_completed"
    then record s { finished_at = some e.created_at; status = NodeState.completed }
    else if t == "node_paused"
    then record s {
      finished_at = some e.created_at;
      status = NodeState.paused;
      pause_reason = text_or (get "reason" payload) s.pause_reason;
    }
    else if t == "approval_requested"
    then record s {
      status = NodeState.paused;
      approval_id = text_or (get "approval_id" payload) s.approval_id;
    }
    else if t == "node_error"
    then record s {
      finished_at = some e.created_at;
      status = NodeState.failed;
      error = nullish (extract_error_message (some payload)) s.error;
    }
    else if t == "sla_breached"
    then record s { status = if is_failure s.status then s.status else NodeState.sla_breached }
    else s

unfoldable pub is_step_event : String → Bool
is_step_event t =
    t == "step_started"
    || t == "step_completed"
    || t == "step_timeout"
    || t == "step_error_notification"

-- The cases of the switch that change the step.
unfoldable pub note_step : String → RunEvent → Fields → StepExecutionSummary → StepExecutionSummary
unfolding extract_error_message
note_step t e payload s =
    if t == "step_started"
    then record s {
      started_at = keep_or s.started_at e.created_at;
      status = StepStatus.running;
      action = text_or (get "action" payload) s.action;
    }
    else if t == "step_completed"
    then record s {
      completed_at = some e.created_at;
      action = text_or (get "action" payload) s.action;
      status = if truthy (get "cached" payload) then StepStatus.cached else StepStatus.completed;
      duration_ms = number_or (get "duration_ms" payload) s.duration_ms;
      retry_count = get_or (number_or (get "retry_count" payload) none) s.retry_count;
    }
    else if t == "step_timeout"
    then record s {
      completed_at = some e.created_at;
      status = StepStatus.timeout;
      error = nullish (extract_error_message (some payload)) (str "Step timed out");
    }
    else if t == "step_error_notification"
    then record s {
      completed_at = some e.created_at;
      status = StepStatus.failed;
      error = nullish (extract_error_message (some payload)) (str "Step failed");
      action = text_or (get "action" payload) s.action;
    }
    else s

-- The step that an event is about: `event.step_id` where it is truthy, for the four kinds of step events.
unfoldable pub step_of_event : RunEvent → Option String
unfolding is_step_event
step_of_event e = elim e.step_id [
  | none ↦ none
  | some i ↦ if is_step_event e.event_type && not (is_empty i) then some i else none
]

unfoldable pub put_step : Option String → RunEvent → Fields → Steps → Steps
unfolding note_step
put_step none e payload steps = steps
put_step (some i) e payload steps =
    set i (note_step e.event_type e payload (get_or (at i steps) (new_step i))) steps

-- A failed step's error is the node's too.
unfoldable pub step_error :
    Option String → RunEvent → Fields → NodeExecutionSummary → NodeExecutionSummary
unfolding extract_error_message
step_error none e payload s = s
step_error (some i) e payload s =
    if e.event_type == "step_error_notification"
    then record s { error = nullish (extract_error_message (some payload)) (str "Step failed") }
    else s

abbrev pub step_values : Steps → List StepExecutionSummary
step_values steps = map (λ (p : String × StepExecutionSummary). p.1) steps

unfoldable pub with_override : Option NodeState → NodeExecutionSummary → NodeExecutionSummary
with_override none s = s
with_override (some state) s = record s { status = state }

module _ (node_state_map : StatusMap) where
  unfoldable pub summarized :
      String → RunEvent → Steps → Option NodeExecutionSummary → NodeExecutionSummary
  unfolding touch note_event step_of_event step_error with_override state_in
  summarized i e steps before =
      let payload = get_or e.payload no_fields in
      let noted =
        note_event e.event_type e payload (touch e payload (get_or before (new_summary i))) in
      let erred = step_error (step_of_event e) e payload noted in
      with_override (state_in (at i node_state_map)) (record erred { steps = step_values steps })

  unfoldable pub record_event : String → RunEvent → PageSummaries → PageSummaries
  unfolding put_step step_of_event summarized
  record_event i e o =
      let steps =
        put_step (step_of_event e) e (get_or e.payload no_fields)
          (get_or (at i o.steps_by_node) []) in
      record {
        nodes = set i (summarized i e steps (at i o.nodes)) o.nodes;
        steps_by_node = set i steps o.steps_by_node;
      }

  unfoldable pub record_one : RunEvent → PageSummaries → PageSummaries
  unfolding record_event node_of_event
  record_one e o = elim (node_of_event e) [ none ↦ o | some i ↦ record_event i e o ]

  unfoldable pub record_events : List RunEvent → PageSummaries → PageSummaries
  unfolding record_one
  record_events [] o = o
  record_events (e ∷ es) o = record_events es (record_one e o)

module _ (time : String → ℤ) (event_number : String → ℤ) where
  -- Whether `right` comes strictly first.
  unfoldable pub is_earlier : RunEvent → RunEvent → Bool
  is_earlier right left =
      ltb_ℤ (time right.created_at) (time left.created_at)
      || not (ltb_ℤ (time left.created_at) (time right.created_at))
        && ltb_ℤ (event_number right.event_id) (event_number left.event_id)

unfoldable pub sort_time : (String → ℤ) → NodeExecutionSummary → ℤ
sort_time time s = elim (or_else s.started_at s.last_updated_at) [ none ↦ pos 0 | some t ↦ time t ]

-- A stable sort by a test whether the second item comes strictly first.
unfoldable pub insert_by {ℓ} : {A : Type ℓ} → (A → A → Bool) → A → List A → List A
insert_by first x [] = x ∷ []
insert_by first x (y ∷ ys) =
    let later = insert_by first x ys in if first y x then y ∷ later else x ∷ y ∷ ys

unfoldable pub sort_by {ℓ} : {A : Type ℓ} → (A → A → Bool) → List A → List A
unfolding insert_by
sort_by first [] = []
sort_by first (x ∷ xs) = insert_by first x (sort_by first xs)

unfoldable pub build_node_execution_summaries :
    (String → ℤ) → (String → ℤ) → List RunEvent → StatusMap → List NodeExecutionSummary
unfolding is_earlier sort_time sort_by record_events
build_node_execution_summaries time event_number events node_state_map =
    let sorted_events = sort_by (is_earlier time event_number) events in
    let summaries =
      record_events node_state_map sorted_events (record { nodes = []; steps_by_node = [] }) in
    sort_by
      (λ (right left : NodeExecutionSummary). ltb_ℤ (sort_time time right) (sort_time time left))
      (map (λ (p : String × NodeExecutionSummary). p.1) summaries.nodes)
