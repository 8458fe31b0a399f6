-- ===== src/RunPage/Same.antt =====
-- The run's page and the builder's overlay show the same states.
use lang_orch.Base.{
  String, Bool, true, false, not, ◌&&◌, Option, none, some, List, [], if◌then◌else◌, ◌==◌, eq_iff,
  is_empty, ◌≡◌, refl, ap, sym, ◌∙◌, arith, Number, at,
}
use lang_orch.Overlay.Traversals.{RunEvent}
use lang_orch.Overlay.States.{
  BuilderNodeExecutionState, BuilderNodeExecutionSummary, OverlayState, EventClass, class_of,
  is_one_of, iteration_of, next_iteration, loop_text, last_started, prior_state, gives_way,
  with_state, put_state, mark, with_loop_count, put_iteration, iterate, iteration_number,
  apply_class, apply_event, apply_events, is_active, is_waiting, is_failed, is_running,
  mark_current, mark_last_started,
}
use lang_orch.RunPage.{
  NodeState, NodeStatus, StatusMap, PageMaps, state_in, may_set, status_with, put_status,
  set_status, counted, put_count, count_loop, step, read_event, read_events, is_going, has_failed,
  is_in_progress, mark_by_status, mark_started,
}
use lang_orch.Overlay.States as Overlay
use lang_orch.RunPage as Page
-- The page has `pending` where the overlay has `idle`.
use lang_orch.RunPage.Shown.{
  shown_state, shown_status, shown_map, shown_option, shown, at-shown_map, put_status-shown,
  read_events-shown,
}

has_failed-shown_state :
    (s : BuilderNodeExecutionState) → has_failed (some (shown_state s)) ≡ is_failed (some s)
unfolding shown_state
has_failed-shown_state BuilderNodeExecutionState.failed = refl
has_failed-shown_state _ = refl

has_failed-shown :
    (o : Option BuilderNodeExecutionSummary)
    → has_failed (state_in (shown_option o)) ≡ is_failed (prior_state o)
unfolding state_in shown_option prior_state shown_status
has_failed-shown none = refl
has_failed-shown (some s) = has_failed-shown_state s.state

is_in_progress-shown_state :
    (s : BuilderNodeExecutionState) → is_in_progress (some (shown_state s)) ≡ is_running (some s)
unfolding shown_state
is_in_progress-shown_state BuilderNodeExecutionState.running = refl
is_in_progress-shown_state _ = refl

is_in_progress-shown :
    (o : Option BuilderNodeExecutionSummary)
    → is_in_progress (state_in (shown_option o)) ≡ is_running (prior_state o)
unfolding state_in shown_option prior_state shown_status
is_in_progress-shown none = refl
is_in_progress-shown (some s) = is_in_progress-shown_state s.state

-- The status is neither pending nor paused.
unfoldable pub is_common : String → Bool
is_common status = not (status == "pending") && not (status == "paused")

is_going-eq : (status : String) → is_common status ≡ true → is_going status ≡ is_active status
unfolding is_common
is_going-eq status h = ground (arith, eq_iff "pending" status, eq_iff status "pending")

is_waiting-eq :
    (status : String) → is_common status ≡ true → (status == "waiting_approval") ≡ is_waiting status
unfolding is_common
is_waiting-eq status h = ground (
  arith,
  eq_iff "paused" status,
  eq_iff status "paused",
  eq_iff "waiting_approval" status,
  eq_iff status "waiting_approval",
)

module _ (i : String) (m : List (String × BuilderNodeExecutionSummary)) where
  put_if :
      (s : BuilderNodeExecutionState) (t : NodeState) (b c : Bool) (q : StatusMap)
      (r : List (String × BuilderNodeExecutionSummary))
      → shown_state s ≡ t
      → b ≡ c
      → q ≡ shown_map r
      → (if b then put_status i t (shown_map m) else q)
        ≡ shown_map (if c then put_state i s m else r)
  put_if s t b true q r e d f = rw (d, sym e) (put_status-shown i s m)
  put_if s t b false q r e d f = rw d f

  skip_if :
      (b : Bool) (q : StatusMap) (r : List (String × BuilderNodeExecutionSummary))
      → q ≡ shown_map r
      → (if b then shown_map m else q) ≡ shown_map (if b then m else r)
  skip_if true q r f = refl
  skip_if false q r f = f

  not_failed :
      not (has_failed (state_in (at i (shown_map m)))) ≡ not (is_failed (prior_state (at i m)))
  not_failed =
      ap (λ b. not b)
        (ap (λ o. has_failed (state_in o)) (at-shown_map i m) ∙ has_failed-shown (at i m))

  in_progress : is_in_progress (state_in (at i (shown_map m))) ≡ is_running (prior_state (at i m))
  in_progress =
      ap (λ o. is_in_progress (state_in o)) (at-shown_map i m) ∙ is_in_progress-shown (at i m)

and_eq : (a b c d : Bool) → a ≡ b → c ≡ d → (a && c) ≡ (b && d)
and_eq a b c d e f = λ i. e i && f i

mark_by_status-shown :
    (j : Option String) (status : String) (m : List (String × BuilderNodeExecutionSummary))
    → is_common status ≡ true
    → mark_by_status j status (shown_map m) ≡ shown_map (mark_current j status m)
unfolding mark_by_status mark_current shown_state
mark_by_status-shown none status m h = refl
mark_by_status-shown (some i) status m h = skip_if i m (is_empty i) _ _ (
    put_if i m BuilderNodeExecutionState.failed NodeState.failed _ _ _ _ refl refl (
      put_if i m BuilderNodeExecutionState.completed NodeState.completed _ _ _ _ refl refl (
        put_if i m BuilderNodeExecutionState.paused NodeState.paused _ _ _ _ refl
          (and_eq _ _ _ _ (is_waiting-eq status h) (not_failed i m))
          (put_if i m BuilderNodeExecutionState.current NodeState.current _ _ _ _ refl
            (and_eq _ _ _ _ (is_going-eq status h) (not_failed i m)) refl))))

mark_started-shown :
    (j : Option String) (status : String) (m : List (String × BuilderNodeExecutionSummary))
    → is_common status ≡ true
    → mark_started j status (shown_map m) ≡ shown_map (mark_last_started j status m)
unfolding mark_started mark_last_started shown_state
mark_started-shown none status m h = refl
mark_started-shown (some i) status m h =
    put_if i m BuilderNodeExecutionState.current NodeState.current _ _ _ _ refl
      (and_eq _ _ _ _ (is_going-eq status h) (in_progress i m)) refl

-- For a run whose status is neither pending nor paused, the page and the builder's overlay show the same
-- state and the same loop count at each node, the nodes in the same order.
pub build_node_state_map-same :
    (parse_number : String → Number) (events : List RunEvent) (current_node_id : Option String)
    (run_status : String)
    → is_common run_status ≡ true
    → Page.build_node_state_map parse_number events current_node_id run_status
      ≡ shown_map (Overlay.build_node_state_map parse_number events current_node_id run_status)
unfolding Page.build_node_state_map Overlay.build_node_state_map shown shown_map
build_node_state_map-same parse_number events current_node_id run_status h =
    let start : OverlayState = record { map = []; loop_iterations_by_node = [] } in
    let last = last_started none events in
    ap
      (λ (o : PageMaps).
        mark_started last run_status (mark_by_status current_node_id run_status o.map))
      (read_events-shown parse_number start events)
    ∙ ap (λ m. mark_started last run_status m)
        (mark_by_status-shown current_node_id run_status
          (apply_events parse_number start events).map h)
    ∙ mark_started-shown last run_status _ h
