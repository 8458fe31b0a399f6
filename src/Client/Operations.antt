-- ===== src/Client/Operations.antt =====
-- The calls about the state of runs, leases, explanations and triggers: frontend/src/lib/api.ts, lines 703 to 812.
use lang_orch.Base.{
  String, Option, none, some, List, [], ◌∷◌, if◌then◌else◌, is_empty, ◌||◌, Value, obj, Fields,
  no_fields, field, nullish, get, has,
}
use lang_orch.Client.{
  Part, fixed, raw, encoded, Search, nothing, single, post, delete, Call, get_call, send_call,
  bare_call,
}
use lang_orch.Client.Procedures.{version_path}
use lang_orch.Client.Runs.{run_path}

pub data OperationCall : Type 0 where
  get_run_diagnostics : (run_id : String) → OperationCall
  get_metrics_summary : OperationCall
  list_leases : (resource_key : Option String) → OperationCall
  revoke_lease : (lease_id : String) → OperationCall
  list_run_checkpoints : (run_id : String) → OperationCall
  get_checkpoint_state : (run_id checkpoint_id : String) → OperationCall
  explain_procedure : (procedure_id version : String) → (options : Fields) → OperationCall
  list_triggers : OperationCall
  get_trigger : (procedure_id version : String) → OperationCall
  upsert_trigger : (procedure_id version : String) → (body : Value) → OperationCall
  delete_trigger : (procedure_id version : String) → OperationCall
  sync_triggers : OperationCall
  fire_trigger : (procedure_id version : String) → OperationCall

abbrev trigger_path : String → String → List Part → List Part
trigger_path procedure_id version rest =
    fixed "triggers" ∷ encoded procedure_id ∷ encoded version ∷ rest

abbrev lease_search : Option String → Search
lease_search none = nothing
lease_search (some s) = if is_empty s then nothing else single "resource_key" (encoded s)

-- The options of an explanation: an object with one of the two names, or else the input variables.
-- No variables are as good as an object without any.
unfoldable pub explain_options : Fields → Fields
explain_options given =
    if has "inputVars" given || has "ckpJson" given
    then given
    else field "inputVars" (obj given) no_fields

unfoldable pub explain_body : Fields → Value
unfolding explain_options
explain_body given =
    let options = explain_options given in
    obj (
      field "input_vars" (nullish (get "inputVars" options) (obj no_fields))
        (field "ckp_json" (get "ckpJson" options) no_fields))

unfoldable pub operation_call : OperationCall → Call
unfolding explain_body
operation_call (list_leases resource_key) =
    get_call (fixed "leases" ∷ []) (lease_search resource_key)
operation_call (revoke_lease lease_id) =
    bare_call delete (fixed "leases" ∷ raw lease_id ∷ []) nothing
operation_call list_triggers = get_call (fixed "triggers" ∷ []) nothing
operation_call (get_trigger procedure_id version) =
    get_call (trigger_path procedure_id version []) nothing
operation_call (upsert_trigger procedure_id version body) =
    send_call post (trigger_path procedure_id version []) body
operation_call (delete_trigger procedure_id version) =
    bare_call delete (trigger_path procedure_id version []) nothing
operation_call sync_triggers = bare_call post (fixed "triggers" ∷ fixed "sync" ∷ []) nothing
operation_call (fire_trigger procedure_id version) =
    bare_call post (trigger_path procedure_id version (fixed "fire" ∷ [])) nothing
operation_call (get_run_diagnostics run_id) =
    get_call (run_path run_id (fixed "diagnostics" ∷ [])) nothing
operation_call get_metrics_summary =
    get_call (fixed "runs" ∷ fixed "metrics" ∷ fixed "summary" ∷ []) nothing
operation_call (list_run_checkpoints run_id) =
    get_call (run_path run_id (fixed "checkpoints" ∷ [])) nothing
operation_call (get_checkpoint_state run_id checkpoint_id) =
    get_call (run_path run_id (fixed "checkpoints" ∷ encoded checkpoint_id ∷ [])) nothing
operation_call (explain_procedure procedure_id version options) =
    send_call post (version_path procedure_id version (fixed "explain" ∷ [])) (explain_body options)
