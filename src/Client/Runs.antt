-- ===== src/Client/Runs.antt =====
-- The calls about runs and their events: frontend/src/lib/api.ts, lines 216 to 289.
use lang_orch.Base.{
  String, Option, none, some, List, [], ◌∷◌, if◌then◌else◌, is_empty, ℤ, Value, str, obj, no_fields,
  field, ◌||◌, get_or, ◌==◌,
}
use lang_orch.Client.{
  Part, fixed, raw, nothing, post, delete, Call, get_call, send_call, bare_call, truthy_text,
  number_text, with_params,
}
use lang_orch.Client.Procedures.{or_undefined}

pub record ListRunsParams : Type 0 where
  pub procedure_id : Option String
  pub project_id : Option String
  pub case_id : Option String
  pub status : Option String
  pub created_from : Option String
  pub created_to : Option String
  pub order : Option String
  pub limit : Option ℤ
  pub offset : Option ℤ

-- The status `all` is no filter.
unfoldable pub status_filter : Option String → Option String
status_filter none = none
status_filter (some s) = if is_empty s || s == "all" then none else some s

pub data RunCall : Type 0 where
  list_runs : ListRunsParams → RunCall
  get_run : (id : String) → RunCall
  create_run :
      (procedure_id version : String)
      → (input_vars : Option Value) → (project_id case_id : Option String) → RunCall
  cancel_run : (id : String) → RunCall
  retry_run : (id : String) → RunCall
  delete_run : (id : String) → RunCall
  cleanup_runs : (before_iso : String) → (status : Option String) → RunCall
  list_run_events : (run_id : String) → RunCall
  list_run_artifacts : (run_id : String) → RunCall

abbrev pub run_path : String → List Part → List Part
run_path id rest = fixed "runs" ∷ raw id ∷ rest

unfoldable pub run_call : RunCall → Call
unfolding status_filter
run_call (list_runs p) = get_call (fixed "runs" ∷ []) (
    with_params (
      ("procedure_id", truthy_text p.procedure_id)
      ∷ ("project_id", truthy_text p.project_id)
      ∷ ("case_id", truthy_text p.case_id)
      ∷ ("status", status_filter p.status)
      ∷ ("created_from", truthy_text p.created_from)
      ∷ ("created_to", truthy_text p.created_to)
      ∷ ("order", truthy_text p.order)
      ∷ ("limit", number_text p.limit)
      ∷ ("offset", number_text p.offset)
      ∷ []))
run_call (get_run id) = get_call (run_path id []) nothing
run_call (create_run procedure_id version input_vars project_id case_id) =
    send_call post (fixed "runs" ∷ []) (
      obj (
        field "procedure_id" (str procedure_id) (
          field "procedure_version" (str version) (
            field "input_vars" (get_or input_vars (obj no_fields)) (
              field "project_id" (or_undefined project_id)
                (field "case_id" (or_undefined case_id) no_fields))))))
run_call (cancel_run id) = bare_call post (run_path id (fixed "cancel" ∷ [])) nothing
run_call (retry_run id) = bare_call post (run_path id (fixed "retry" ∷ [])) nothing
run_call (delete_run id) = bare_call delete (run_path id []) nothing
run_call (cleanup_runs before_iso status) =
    bare_call delete (fixed "runs" ∷ fixed "cleanup" ∷ fixed "history" ∷ [])
      (with_params (("before", some before_iso) ∷ ("status", status_filter status) ∷ []))
run_call (list_run_events run_id) = get_call (run_path run_id (fixed "events" ∷ [])) nothing
run_call (list_run_artifacts run_id) = get_call (run_path run_id (fixed "artifacts" ∷ [])) nothing
