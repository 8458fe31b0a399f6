-- ===== src/Overlay/Failures.antt =====
-- Which nodes of a run show a failure: frontend/src/builder-v2/execution/run-overlay.ts.
use lang_orch.Base.{
  String, Bool, true, false, not, ◌&&◌, ◌||◌, Option, none, some, List, [], any, is_empty,
  if◌then◌else◌, ◌==◌, ◌≡◌, refl, ap, sym, ◌∙◌, arith, eq_iff, Bool-cases, inl, inr, Number, at,
}
use lang_orch.Overlay.Traversals.{RunEvent}
use lang_orch.Overlay.States.{
  BuilderNodeExecutionState, idle, current, running, completed, failed, paused, sla_breached,
  BuilderNodeExecutionSummary, OverlayState, prior_state, put_state, apply_events, is_failed,
  is_running, is_waiting, is_active, mark_current, mark_last_started, build_node_state_map,
  last_started,
}
use lang_orch.Overlay.Sticky.{state_at, state-put_state, is_failure_at, failed-apply_events}

or_false : (b : Bool) → (b || false) ≡ b
or_false true = refl
or_false false = refl

failed-put_if :
    (b : Bool) (s : BuilderNodeExecutionState) (j i : String)
    (m : List (String × BuilderNodeExecutionSummary))
    → is_failed (some s) ≡ false
    → (b ≡ true → is_failed (state_at j m) ≡ false)
    → is_failed (state_at i (if b then put_state j s m else m)) ≡ is_failed (state_at i m)
failed-put_if false s j i m h g = refl
failed-put_if true s j i m h g = rw (state-put_state j i s m) (elim (Bool-cases (j == i)) [
  | inl same ↦
      let e : j ≡ i = (eq_iff j i).0 same in
      rw same (h ∙ sym (g refl) ∙ ap (λ k. is_failed (state_at k m)) e)
  | inr differ ↦ rw differ refl
])

both : (a b : Bool) → (a && b) ≡ true → b ≡ true
both a b h = ground arith

second_false : (a b : Bool) → (a && not b) ≡ true → b ≡ false
second_false a b h = ground arith

running-not_failed :
    (p : Option BuilderNodeExecutionState) → is_running p ≡ true → is_failed p ≡ false
running-not_failed (some failed) h = cc h
running-not_failed none h = refl
running-not_failed (some idle) h = refl
running-not_failed (some current) h = refl
running-not_failed (some running) h = refl
running-not_failed (some completed) h = refl
running-not_failed (some paused) h = refl
running-not_failed (some sla_breached) h = refl

-- The marks at the end change no failure, as the run is neither failed nor completed.
failed-mark_current :
    (j : Option String) (status i : String) (m : List (String × BuilderNodeExecutionSummary))
    → (status == "failed") ≡ false
    → (status == "completed") ≡ false
    → is_failed (state_at i (mark_current j status m)) ≡ is_failed (state_at i m)
unfolding mark_current state_at
failed-mark_current none status i m h g = refl
failed-mark_current (some j) status i m h g =
    rw (h, g)
      (elim (Bool-cases (is_empty j)) [
        | inl empty ↦ rw empty refl
        | inr full ↦
            rw full
              (elim (Bool-cases (is_waiting status && not (is_failed (prior_state (at j m))))) [
                | inl waits ↦ rw waits (
                    failed-put_if true paused j i m refl (λ e.
                      second_false (is_waiting status) (is_failed (prior_state (at j m))) waits))
                | inr other_status ↦ rw other_status (
                    failed-put_if (is_active status && not (is_failed (prior_state (at j m))))
                      current j i m refl
                      (λ e. second_false (is_active status) (is_failed (prior_state (at j m))) e))
              ])
      ])

failed-mark_last_started :
    (j : Option String) (status i : String) (m : List (String × BuilderNodeExecutionSummary))
    → is_failed (state_at i (mark_last_started j status m)) ≡ is_failed (state_at i m)
unfolding mark_last_started state_at
failed-mark_last_started none status i m = refl
failed-mark_last_started (some j) status i m =
    failed-put_if (is_active status && is_running (prior_state (at j m))) current j i m refl (λ e.
      running-not_failed (prior_state (at j m))
        (both (is_active status) (is_running (prior_state (at j m))) e))

-- Of a run that is neither failed nor completed, a node shows a failure just where some event
-- reports an error or a timeout at the node, in whatever order the events come.
pub build_node_state_map-failed :
    (parse_number : String → Number) (events : List RunEvent) (current_node : Option String)
    (status i : String)
    → (status == "failed") ≡ false
    → (status == "completed") ≡ false
    → is_failed (prior_state (at i (build_node_state_map parse_number events current_node status)))
      ≡ any (is_failure_at i) events
unfolding build_node_state_map state_at at prior_state
build_node_state_map-failed parse_number events current_node status i h g =
    let start_state : OverlayState = record { map = []; loop_iterations_by_node = [] } in
    let o = apply_events parse_number start_state events in
    failed-mark_last_started (last_started none events) status i
      (mark_current current_node status o.map)
    ∙ failed-mark_current current_node status i o.map h g
    ∙ failed-apply_events parse_number i events start_state
    ∙ or_false (any (is_failure_at i) events)
