-- ===== src/Client/Cases.antt =====
-- The calls about cases, their queue and their policies: frontend/src/lib/api.ts, lines 389 to 544.
use lang_orch.Base.{
  String, Bool, Option, none, some, List, [], ◌∷◌, if◌then◌else◌, ℤ, pos, ltb_ℤ, finite, Value, str,
  bool, num, obj, to_text, no_fields, field,
}
use lang_orch.Client.{
  Part, fixed, raw, encoded, Query, nothing, params, single, post, patch, delete, Call, get_call,
  send_call, bare_call, truthy_text, number_text, flag_text, query_of, with_params,
}
use lang_orch.Client.Procedures.{or_undefined}

pub record ListCasesParams : Type 0 where
  pub project_id : Option String
  pub status : Option String
  pub owner : Option String
  pub external_ref : Option String
  pub order : Option String
  pub limit : Option ℤ
  pub offset : Option ℤ

pub record CaseQueueParams : Type 0 where
  pub project_id : Option String
  pub owner : Option String
  pub only_unassigned : Option Bool
  pub include_terminal : Option Bool
  pub limit : Option ℤ
  pub offset : Option ℤ

pub record SlaPolicyParams : Type 0 where
  pub project_id : Option String
  pub case_type : Option String
  pub priority : Option String
  pub enabled_only : Option Bool

-- `Math.max(1, Math.min(500, limit))`
unfoldable pub clamped_limit : ℤ → ℤ
clamped_limit n =
    let m = if ltb_ℤ (pos 500) n then pos 500 else n in if ltb_ℤ m (pos 1) then pos 1 else m

abbrev clamped : Option ℤ → Option ℤ
unfolding clamped_limit
clamped none = none
clamped (some n) = some (clamped_limit n)

pub data CaseCall : Type 0 where
  list_cases : ListCasesParams → CaseCall
  get_case : (case_id : String) → CaseCall
  create_case : (body : Value) → CaseCall
  update_case : (case_id : String) → (body : Value) → CaseCall
  delete_case : (case_id : String) → CaseCall
  list_case_events : (case_id : String) → (limit : ℤ) → CaseCall
  list_case_queue : CaseQueueParams → CaseCall
  -- the request of `getCaseQueueAnalytics`
  queue_analytics : (project_id : Option String) → (risk_window_minutes : Option ℤ) → CaseCall
  claim_case : (case_id owner : String) → (set_in_progress : Bool) → CaseCall
  release_case : (case_id : String) → (owner : Option String) → (set_open : Bool) → CaseCall
  list_case_sla_policies : SlaPolicyParams → CaseCall
  create_case_sla_policy : (body : Value) → CaseCall
  update_case_sla_policy : (policy_id : String) → (body : Value) → CaseCall
  delete_case_sla_policy : (policy_id : String) → CaseCall

abbrev case_path : String → List Part → List Part
case_path case_id rest = fixed "cases" ∷ encoded case_id ∷ rest

abbrev policy_path : List Part → List Part
policy_path rest = fixed "cases" ∷ fixed "sla-policies" ∷ rest

unfoldable pub list_cases_query : ListCasesParams → Query
unfolding clamped_limit
list_cases_query p = query_of (
    ("project_id", truthy_text p.project_id)
    ∷ ("status", truthy_text p.status)
    ∷ ("owner", truthy_text p.owner)
    ∷ ("external_ref", truthy_text p.external_ref)
    ∷ ("order", truthy_text p.order)
    ∷ ("limit", number_text (clamped p.limit))
    ∷ ("offset", number_text p.offset)
    ∷ [])

unfoldable pub case_call : CaseCall → Call
unfolding list_cases_query
case_call (list_cases p) = get_call (fixed "cases" ∷ []) (params (list_cases_query p))
case_call (get_case case_id) = get_call (case_path case_id []) nothing
case_call (create_case body) = send_call post (fixed "cases" ∷ []) body
case_call (update_case case_id body) = send_call patch (case_path case_id []) body
case_call (delete_case case_id) = bare_call delete (case_path case_id []) nothing
case_call (list_case_events case_id limit) =
    get_call (case_path case_id (fixed "events" ∷ []))
      (single "limit" (raw (to_text (num (finite limit)))))
case_call (list_case_queue p) = get_call (fixed "cases" ∷ fixed "queue" ∷ []) (
    with_params (
      ("project_id", truthy_text p.project_id)
      ∷ ("owner", truthy_text p.owner)
      ∷ ("only_unassigned", flag_text p.only_unassigned)
      ∷ ("include_terminal", flag_text p.include_terminal)
      ∷ ("limit", number_text p.limit)
      ∷ ("offset", number_text p.offset)
      ∷ []))
case_call (queue_analytics project_id risk_window_minutes) =
    get_call (fixed "cases" ∷ fixed "queue" ∷ fixed "analytics" ∷ []) (
      with_params (
        ("project_id", truthy_text project_id)
        ∷ ("risk_window_minutes", number_text risk_window_minutes)
        ∷ []))
case_call (claim_case case_id owner set_in_progress) =
    send_call post (case_path case_id (fixed "claim" ∷ []))
      (obj (field "owner" (str owner) (field "set_in_progress" (bool set_in_progress) no_fields)))
case_call (release_case case_id owner set_open) =
    send_call post (case_path case_id (fixed "release" ∷ []))
      (obj (field "owner" (or_undefined owner) (field "set_open" (bool set_open) no_fields)))
case_call (list_case_sla_policies p) = get_call (policy_path []) (
    with_params (
      ("project_id", truthy_text p.project_id)
      ∷ ("case_type", truthy_text p.case_type)
      ∷ ("priority", truthy_text p.priority)
      ∷ ("enabled_only", flag_text p.enabled_only)
      ∷ []))
case_call (create_case_sla_policy body) = send_call post (policy_path []) body
case_call (update_case_sla_policy policy_id body) =
    send_call patch (policy_path (encoded policy_id ∷ [])) body
case_call (delete_case_sla_policy policy_id) =
    bare_call delete (policy_path (encoded policy_id ∷ [])) nothing
