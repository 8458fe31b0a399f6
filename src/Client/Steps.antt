-- ===== src/Client/Steps.antt =====
-- The functions of frontend/src/lib/api.ts that do more than send one request: `getProcedure`, lines 114 to 127,
-- and `getCaseQueueAnalytics`, lines 41 and 468 to 492. `send` gives the result of a call.
use lang_orch.Base.{
  String, Bool, true, false, Option, none, some, List, [], ◌∷◌, not, if◌then◌else◌, is_empty, ℤ,
  pos, finite, Value, num, arr, obj, no_fields, field, element, get, to_text,
}
use lang_orch.Client.{Call}
use lang_orch.Client.Request.{Result, ok, err, other, is_not_found_error, ◌>>=◌}
use lang_orch.Client.Procedures.{ProcedureCall, procedure_call}
use lang_orch.Client.Cases.{CaseCall, case_call}

-- `versions[0].version`, where the list has an element
unfoldable pub first_version : Value → Result String
first_version (arr (element (obj o) vs)) = ok (to_text (get "version" o))
first_version _ = err other

unfoldable pub empty_queue_analytics : Value
empty_queue_analytics = obj (
    field "total_active_cases" (num (finite (pos 0))) (
      field "unassigned_cases" (num (finite (pos 0))) (
        field "breached_cases" (num (finite (pos 0))) (
          field "breach_risk_next_window_cases" (num (finite (pos 0))) (
            field "breach_risk_next_window_percent" (num (finite (pos 0))) (
              field "wait_p50_seconds" (num (finite (pos 0))) (
                field "wait_p95_seconds" (num (finite (pos 0))) (
                  field "wait_by_priority" (obj no_fields) (
                    field "wait_by_case_type" (obj no_fields) (
                      field "reassignment_rate_24h" (num (finite (pos 0)))
                        (field "abandonment_rate_24h" (num (finite (pos 0))) no_fields)))))))))))

module _ (send : Call → Result Value) where
  abbrev version_of : String → String → Result Value
  version_of id version = send (procedure_call (ProcedureCall.get_version id version))

  abbrev latest_of : String → Result Value
  latest_of id = send (procedure_call (ProcedureCall.list_versions id)) >>= λ versions.
      first_version versions >>= λ version. version_of id version

  unfoldable pub get_procedure : String → Option String → Result Value
  get_procedure id none = latest_of id
  get_procedure id (some version) = if is_empty version then latest_of id else version_of id version

-- `message.startsWith("API 404:")`: the message of an `ApiError` starts so where its status is 404.
abbrev pub tells_missing : Result Value → Bool
tells_missing (ok v) = false
tells_missing (err e) = is_not_found_error e

-- The flag `queueAnalyticsSupported` after a request, and what the caller gets
unfoldable pub received_analytics : Option Bool → Result Value → Option Bool × Result Value
received_analytics supported (ok v) = (some true, ok v)
received_analytics supported (err e) =
    if is_not_found_error e then (some false, ok empty_queue_analytics) else (supported, err e)

abbrev pub is_off : Option Bool → Bool
is_off none = false
is_off (some supported) = not supported

-- The flag is the state; the last part tells whether a request is sent.
unfoldable pub get_case_queue_analytics :
    (send : Call → Result Value)
    → (project_id : Option String) → (risk_window_minutes : Option ℤ) → Option Bool
    → Option Bool × Result Value × Bool
unfolding received_analytics
get_case_queue_analytics send project_id risk_window_minutes supported =
    if is_off supported
    then (some false, ok empty_queue_analytics, false)
    else (let s =
          received_analytics supported
            (send (case_call (CaseCall.queue_analytics project_id risk_window_minutes))) in
        (s.0, s.1, true))

-- A call of `getCaseQueueAnalytics`, and the platform at that time.
pub record AnalyticsCall : Type 0 where
  pub project_id : Option String
  pub risk_window_minutes : Option ℤ
  pub send : Call → Result Value

abbrev pub step_of : AnalyticsCall → Option Bool → Option Bool × Result Value × Bool
step_of q = get_case_queue_analytics q.send q.project_id q.risk_window_minutes

-- What the backend gives, if it is asked.
abbrev pub given : AnalyticsCall → Result Value
given q = q.send (case_call (CaseCall.queue_analytics q.project_id q.risk_window_minutes))

-- The results of calls one after another, each with whether a request was sent.
unfoldable pub session : List AnalyticsCall → Option Bool → List (Result Value × Bool)
session [] supported = []
session (q ∷ qs) supported = let s = step_of q supported in (s.1, s.2) ∷ session qs s.0
