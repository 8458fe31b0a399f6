-- ===== src/RunPage/Shown.antt =====
-- The states of the builder's overlay in the words of the run's page, and that both read each event alike.
use lang_orch.Base.{
  String, Option, none, some, List, [], ◌∷◌, ◌==◌, ◌≡◌, refl, ap, ◌∙◌, Bool-cases, inl, inr,
  Option-cases, ℤ, Number, Fields, at, set,
}
use lang_orch.Overlay.Traversals.{RunEvent, node_of_event}
use lang_orch.Overlay.States.{
  BuilderNodeExecutionState, BuilderNodeExecutionSummary, OverlayState, EventClass, class_of,
  prior_state, gives_way, with_state, put_state, mark, with_loop_count, put_iteration, iterate,
  iteration_number, apply_class, apply_event, apply_events,
}
use lang_orch.RunPage.{
  NodeState, NodeStatus, StatusMap, PageMaps, state_in, may_set, status_with, put_status,
  set_status, counted, put_count, count_loop, step, read_event, read_events,
}

-- The page has `pending` where the overlay has `idle`.
unfoldable pub shown_state : BuilderNodeExecutionState → NodeState
shown_state BuilderNodeExecutionState.idle = NodeState.pending
shown_state BuilderNodeExecutionState.current = NodeState.current
shown_state BuilderNodeExecutionState.running = NodeState.running
shown_state BuilderNodeExecutionState.completed = NodeState.completed
shown_state BuilderNodeExecutionState.failed = NodeState.failed
shown_state BuilderNodeExecutionState.paused = NodeState.paused
shown_state BuilderNodeExecutionState.sla_breached = NodeState.sla_breached

unfoldable pub shown_status : BuilderNodeExecutionSummary → NodeStatus
unfolding shown_state
shown_status s = record { state = shown_state s.state; loop_count = s.loop_count }

unfoldable pub shown_map : List (String × BuilderNodeExecutionSummary) → StatusMap
unfolding shown_status
shown_map [] = []
shown_map ((i, s) ∷ m) = (i, shown_status s) ∷ shown_map m

unfoldable pub shown_option : Option BuilderNodeExecutionSummary → Option NodeStatus
unfolding shown_status
shown_option none = none
shown_option (some s) = some (shown_status s)

unfoldable pub shown : OverlayState → PageMaps
unfolding shown_map
shown o = record { map = shown_map o.map; loop_iterations_by_node = o.loop_iterations_by_node }

pub at-shown_map :
    (i : String) (m : List (String × BuilderNodeExecutionSummary))
    → at i (shown_map m) ≡ shown_option (at i m)
unfolding shown_map at shown_option
at-shown_map i [] = refl
at-shown_map i ((j, s) ∷ m) = elim (Bool-cases (j == i)) [
  | inl same ↦ rw same refl
  | inr differ ↦ rw differ (at-shown_map i m)
]

set-shown_map :
    (i : String) (s : BuilderNodeExecutionSummary) (m : List (String × BuilderNodeExecutionSummary))
    → set i (shown_status s) (shown_map m) ≡ shown_map (set i s m)
unfolding shown_map set
set-shown_map i s [] = refl
set-shown_map i s ((j, r) ∷ m) = elim (Bool-cases (j == i)) [
  | inl same ↦ rw same refl
  | inr differ ↦ rw differ (ap (λ t. (j, shown_status r) ∷ t) (set-shown_map i s m))
]

status_with-shown :
    (s : BuilderNodeExecutionState) (o : Option BuilderNodeExecutionSummary)
    → status_with (shown_state s) (shown_option o) ≡ shown_status (with_state s o)
unfolding status_with shown_option with_state shown_status
status_with-shown s none = refl
status_with-shown s (some r) = refl

pub put_status-shown :
    (i : String) (s : BuilderNodeExecutionState) (m : List (String × BuilderNodeExecutionSummary))
    → put_status i (shown_state s) (shown_map m) ≡ shown_map (put_state i s m)
unfolding put_status put_state
put_status-shown i s m =
    rw (at-shown_map i m, status_with-shown s (at i m)) (set-shown_map i (with_state s (at i m)) m)

may_set-shown_state :
    (c : EventClass) (s : BuilderNodeExecutionState)
    → may_set c (some (shown_state s)) ≡ gives_way c (some s)
unfolding may_set gives_way shown_state
may_set-shown_state EventClass.failure s = refl
may_set-shown_state EventClass.breach BuilderNodeExecutionState.idle = refl
may_set-shown_state EventClass.breach _ = refl
may_set-shown_state EventClass.completion BuilderNodeExecutionState.idle = refl
may_set-shown_state EventClass.completion _ = refl
may_set-shown_state EventClass.pause BuilderNodeExecutionState.idle = refl
may_set-shown_state EventClass.pause _ = refl
may_set-shown_state EventClass.start BuilderNodeExecutionState.idle = refl
may_set-shown_state EventClass.start _ = refl
may_set-shown_state EventClass.iteration BuilderNodeExecutionState.idle = refl
may_set-shown_state EventClass.iteration _ = refl
may_set-shown_state EventClass.other BuilderNodeExecutionState.idle = refl
may_set-shown_state EventClass.other _ = refl

may_set-none : (c : EventClass) → may_set c none ≡ gives_way c none
unfolding may_set gives_way
may_set-none EventClass.failure = refl
may_set-none _ = refl

may_set-shown :
    (c : EventClass) (o : Option BuilderNodeExecutionSummary)
    → may_set c (state_in (shown_option o)) ≡ gives_way c (prior_state o)
unfolding state_in shown_option prior_state shown_status
may_set-shown c none = may_set-none c
may_set-shown c (some s) = may_set-shown_state c s.state

set_status-shown :
    (c : EventClass) (s : BuilderNodeExecutionState) (i : String) (o : OverlayState)
    → set_status c (shown_state s) i (shown o) ≡ shown (mark c s i o)
unfolding set_status mark shown
set_status-shown c s i o =
    rw (at-shown_map i o.map, may_set-shown c (at i o.map))
      (elim (Bool-cases (gives_way c (prior_state (at i o.map)))) [
        | inl sets ↦
            rw
              (
                sets,
                status_with-shown s (at i o.map),
                set-shown_map i (with_state s (at i o.map)) o.map,
              )
              refl
        | inr keeps ↦ rw keeps refl
      ])

counted-shown :
    (c : String) (o : Option BuilderNodeExecutionSummary)
    → counted c (shown_option o) ≡ shown_status (with_loop_count c o)
unfolding counted shown_option with_loop_count shown_status shown_state
counted-shown c none = refl
counted-shown c (some s) = refl

put_count-shown :
    (n : ℤ) (c i : String) (o : OverlayState)
    → put_count n c i (shown o) ≡ shown (put_iteration n c i o)
unfolding put_count put_iteration shown
put_count-shown n c i o =
    rw
      (
        at-shown_map i o.map,
        counted-shown c (at i o.map),
        set-shown_map i (with_loop_count c (at i o.map)) o.map,
      )
      refl

module _ (parse_number : String → Number) where
  count_loop-shown :
      (payload : Option Fields) (i : String) (o : OverlayState)
      → count_loop parse_number payload i (shown o) ≡ shown (iterate parse_number payload i o)
  unfolding count_loop iterate iteration_number shown
  count_loop-shown payload i o = put_count-shown _ _ i o

  step-shown :
      (c : EventClass) (payload : Option Fields) (i : String) (o : OverlayState)
      → step parse_number c payload i (shown o) ≡ shown (apply_class parse_number c payload i o)
  unfolding step apply_class shown_state
  step-shown EventClass.failure payload i o =
      set_status-shown EventClass.failure BuilderNodeExecutionState.failed i o
  step-shown EventClass.breach payload i o =
      set_status-shown EventClass.breach BuilderNodeExecutionState.sla_breached i o
  step-shown EventClass.completion payload i o =
      set_status-shown EventClass.completion BuilderNodeExecutionState.completed i o
  step-shown EventClass.pause payload i o =
      set_status-shown EventClass.pause BuilderNodeExecutionState.paused i o
  step-shown EventClass.start payload i o =
      set_status-shown EventClass.start BuilderNodeExecutionState.running i o
  step-shown EventClass.iteration payload i o = count_loop-shown payload i o
  step-shown EventClass.other payload i o = refl

  read_event-shown :
      (o : OverlayState) (e : RunEvent)
      → read_event parse_number (shown o) e ≡ shown (apply_event parse_number o e)
  unfolding read_event apply_event
  read_event-shown o e = elim (Option-cases (node_of_event e)) [
    | inl missing ↦ rw (missing, read_event, apply_event) refl
    | inr (i, there) ↦
        rw (there, read_event, apply_event) (step-shown (class_of e.event_type) e.payload i o)
  ]

  pub read_events-shown :
      (o : OverlayState) (es : List RunEvent)
      → read_events parse_number (shown o) es ≡ shown (apply_events parse_number o es)
  unfolding read_events apply_events
  read_events-shown o [] = refl
  read_events-shown o (e ∷ es) =
      ap (λ p. read_events parse_number p es) (read_event-shown o e)
      ∙ read_events-shown (apply_event parse_number o e) es
