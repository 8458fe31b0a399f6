-- ===== src/Overlay/Sticky.antt =====
-- What each event does to the failures that the nodes of a run show: frontend/src/builder-v2/execution/run-overlay.ts.
use lang_orch.Base.{
  String, Bool, true, false, ◌&&◌, ◌||◌, Option, none, some, List, [], ◌∷◌, any, if◌then◌else◌,
  ◌==◌, ◌≡◌, refl, ap, sym, ◌∙◌, arith, eq_iff, Bool-cases, Option-cases, inl, inr, Number, ℤ,
  Fields, at, at-set,
}
use lang_orch.Overlay.Traversals.{RunEvent, node_of_event}
use lang_orch.Overlay.States.{
  BuilderNodeExecutionState, idle, current, running, completed, failed, paused, sla_breached,
  BuilderNodeExecutionSummary, OverlayState, EventClass, failure, breach, completion, pause, start,
  iteration, other, class_of, prior_state, gives_way, with_state, put_state, mark, iterate,
  iteration_number, loop_text, with_loop_count, put_iteration, apply_class, apply_event,
  apply_events, is_failed, is_one_of,
}

unfoldable pub state_at :
    String → List (String × BuilderNodeExecutionSummary) → Option BuilderNodeExecutionState
state_at i m = prior_state (at i m)

pub state-put_state :
    (i j : String) (s : BuilderNodeExecutionState) (m : List (String × BuilderNodeExecutionSummary))
    → state_at j (put_state i s m) ≡ (if i == j then some s else state_at j m)
unfolding state_at put_state with_state prior_state
state-put_state i j s m = elim (Bool-cases (i == j)) [
  | inl same ↦ rw (at-set i j (with_state s (at i m)) m, same) (of_either (at i m))
  | inr differ ↦ rw (at-set i j (with_state s (at i m)) m, differ) refl
]
  where
    of_either : (p : Option BuilderNodeExecutionSummary) → some (with_state s p).state ≡ some s
    of_either none = refl
    of_either (some p) = refl

-- A test of the states that a mark of a class does not change is the same after the mark.
test-mark :
    (f : Option BuilderNodeExecutionState → Bool) (c : EventClass) (s : BuilderNodeExecutionState)
    (i j : String) (o : OverlayState)
    → ((p : Option BuilderNodeExecutionState) → gives_way c p ≡ true → f p ≡ f (some s))
    → f (state_at j (mark c s i o).map) ≡ f (state_at j o.map)
unfolding mark state_at
test-mark f c s i j o same_test = elim (Bool-cases (gives_way c (state_at i o.map))) [
  | inl yields ↦
      rw (yields, state-put_state i j s o.map)
        (elim (Bool-cases (i == j)) [
          | inl same ↦
              let e : i ≡ j = (eq_iff i j).0 same in
              rw same
                (sym (ap (λ k. f (state_at k o.map)) (sym e) ∙ same_test (state_at i o.map) yields))
          | inr differ ↦ rw differ refl
        ])
  | inr holds ↦ rw holds refl
]

is_failure : EventClass → Bool
is_failure failure = true
is_failure c = false

not_failed :
    (c : EventClass) (p : Option BuilderNodeExecutionState)
    → is_failure c ≡ false
    → gives_way c p ≡ true
    → is_failed p ≡ false
unfolding is_failure gives_way
not_failed c none h g = refl
not_failed c (some idle) h g = refl
not_failed c (some current) h g = refl
not_failed c (some running) h g = refl
not_failed c (some completed) h g = refl
not_failed c (some paused) h g = refl
not_failed c (some sla_breached) h g = refl
not_failed failure (some failed) h g = cc h
not_failed breach (some failed) h g = cc g
not_failed completion (some failed) h g = cc g
not_failed pause (some failed) h g = cc g
not_failed start (some failed) h g = cc g
not_failed iteration (some failed) h g = cc g
not_failed other (some failed) h g = cc g

failed-put_iteration :
    (n : ℤ) (c i j : String) (o : OverlayState)
    → is_failed (state_at j (put_iteration n c i o).map) ≡ is_failed (state_at j o.map)
unfolding put_iteration with_loop_count prior_state state_at
failed-put_iteration n c i j o =
    rw (at-set i j (with_loop_count c (at i o.map)) o.map) (elim (Bool-cases (i == j)) [
      | inl same ↦
          let e : i ≡ j = (eq_iff i j).0 same in
          rw same (of_either (at i o.map) ∙ ap (λ k. is_failed (prior_state (at k o.map))) e)
      | inr differ ↦ rw differ refl
    ])
  where
    of_either :
        (p : Option BuilderNodeExecutionSummary)
        → is_failed (prior_state (some (with_loop_count c p))) ≡ is_failed (prior_state p)
    of_either none = refl
    of_either (some p) = refl

failed-iterate :
    (parse_number : String → Number) (p : Option Fields) (i j : String) (o : OverlayState)
    → is_failed (state_at j (iterate parse_number p i o).map) ≡ is_failed (state_at j o.map)
unfolding iterate
failed-iterate parse_number p i j o =
    let n = iteration_number parse_number p i o in
    failed-put_iteration n (loop_text parse_number p n) i j o

failed-mark :
    (c : EventClass) (s : BuilderNodeExecutionState) (i j : String) (o : OverlayState)
    → is_failure c ≡ false
    → is_failed (some s) ≡ false
    → is_failed (state_at j (mark c s i o).map) ≡ is_failed (state_at j o.map)
failed-mark c s i j o h e =
    test-mark (λ q. is_failed q) c s i j o (λ q g. not_failed c q h g ∙ sym e)

no_hit : (a b c : Bool) → a ≡ b → a ≡ (c && false || b)
no_hit a b c e = ground arith

failed-apply_class :
    (parse_number : String → Number) (c : EventClass) (p : Option Fields) (i j : String)
    (o : OverlayState)
    → is_failed (state_at j (apply_class parse_number c p i o).map)
      ≡ ((i == j) && is_failure c || is_failed (state_at j o.map))
unfolding apply_class is_failure
failed-apply_class parse_number failure p i j o =
    rw (state-put_state i j failed o.map)
      (elim (Bool-cases (i == j)) [ inl same ↦ rw same refl | inr differ ↦ rw differ refl ])
failed-apply_class parse_number breach p i j o =
    no_hit _ _ (i == j) (failed-mark breach sla_breached i j o refl refl)
failed-apply_class parse_number completion p i j o =
    no_hit _ _ (i == j) (failed-mark completion completed i j o refl refl)
failed-apply_class parse_number pause p i j o =
    no_hit _ _ (i == j) (failed-mark pause paused i j o refl refl)
failed-apply_class parse_number start p i j o =
    no_hit _ _ (i == j) (failed-mark start running i j o refl refl)
failed-apply_class parse_number iteration p i j o =
    no_hit _ _ (i == j) (failed-iterate parse_number p i j o)
failed-apply_class parse_number other p i j o = no_hit _ _ (i == j) refl

-- An event that reports an error or a timeout at a node.
unfoldable pub is_failure_at : String → RunEvent → Bool
is_failure_at i e = elim (node_of_event e) [
  | none ↦ false
  | some j ↦
      (j == i)
      && is_one_of ("node_error" ∷ "step_error_notification" ∷ "step_timeout" ∷ []) e.event_type
]

first_class :
    (a b c d e f : Bool)
    → is_failure (
        if a
        then failure
        else if b
        then breach
        else if c
        then completion
        else if d
        then pause
        else if e
        then start
        else if f
        then iteration
        else other)
      ≡ a
unfolding is_failure
first_class true b c d e f = refl
first_class false true c d e f = refl
first_class false false true d e f = refl
first_class false false false true e f = refl
first_class false false false false true f = refl
first_class false false false false false true = refl
first_class false false false false false false = refl

failure-class_of :
    (t : String)
    → is_failure (class_of t)
      ≡ is_one_of ("node_error" ∷ "step_error_notification" ∷ "step_timeout" ∷ []) t
unfolding is_failure class_of
failure-class_of t =
    first_class (is_one_of ("node_error" ∷ "step_error_notification" ∷ "step_timeout" ∷ []) t)
      (t == "sla_breached") (is_one_of ("node_completed" ∷ "step_completed" ∷ []) t)
      (t == "node_paused" || t == "approval_requested")
      (is_one_of ("node_started" ∷ "step_started" ∷ []) t) (t == "loop_iteration")

failed-apply_event :
    (parse_number : String → Number) (i : String) (e : RunEvent) (o : OverlayState)
    → is_failed (state_at i (apply_event parse_number o e).map)
      ≡ (is_failure_at i e || is_failed (state_at i o.map))
unfolding apply_event is_failure_at
failed-apply_event parse_number i e o = elim (Option-cases (node_of_event e)) [
  | inl nowhere ↦ rw (apply_event, is_failure_at, nowhere) refl
  | inr (j, there) ↦
      rw (apply_event, is_failure_at, there)
        (failed-apply_class parse_number (class_of e.event_type) e.payload j i o
          ∙ rw (failure-class_of e.event_type) refl)
]

either_order : (a b c : Bool) → (a || (b || c)) ≡ (b || a || c)
either_order true true c = refl
either_order true false c = refl
either_order false true c = refl
either_order false false c = refl

pub failed-apply_events :
    (parse_number : String → Number) (i : String) (es : List RunEvent) (o : OverlayState)
    → is_failed (state_at i (apply_events parse_number o es).map)
      ≡ (any (is_failure_at i) es || is_failed (state_at i o.map))
unfolding apply_events
failed-apply_events parse_number i [] o = refl
failed-apply_events parse_number i (e ∷ es) o =
    failed-apply_events parse_number i es (apply_event parse_number o e)
    ∙ rw (failed-apply_event parse_number i e o)
        (either_order (any (is_failure_at i) es) (is_failure_at i e) (is_failed (state_at i o.map)))
