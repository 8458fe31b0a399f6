-- ===== src/Client/Resources.antt =====
-- The calls about approvals, agents and projects: frontend/src/lib/api.ts, lines 292 to 385.
use lang_orch.Base.{String, Option, [], ◌∷◌, Value, str, obj, no_fields, field}
use lang_orch.Client.{
  fixed, raw, encoded, nothing, single, post, put, delete, Call, get_call, send_call, bare_call,
}
use lang_orch.Client.Procedures.{or_undefined}

pub data ResourceCall : Type 0 where
  list_approvals : ResourceCall
  get_approval : (id : String) → ResourceCall
  submit_approval_decision :
      (id decision decided_by : String) → (comment : Option String) → ResourceCall
  list_agents : ResourceCall
  register_agent : (body : Value) → ResourceCall
  update_agent : (agent_id : String) → (body : Value) → ResourceCall
  delete_agent : (agent_id : String) → ResourceCall
  sync_agent_capabilities : (agent_id : String) → ResourceCall
  probe_agent_capabilities : (base_url : String) → ResourceCall
  get_action_catalog : ResourceCall
  list_projects : ResourceCall
  create_project : (body : Value) → ResourceCall
  update_project : (project_id : String) → (body : Value) → ResourceCall
  delete_project : (project_id : String) → ResourceCall

unfoldable pub resource_call : ResourceCall → Call
resource_call list_approvals = get_call (fixed "approvals" ∷ []) nothing
resource_call (get_approval id) = get_call (fixed "approvals" ∷ raw id ∷ []) nothing
resource_call (submit_approval_decision id decision decided_by comment) =
    send_call post (fixed "approvals" ∷ raw id ∷ fixed "decision" ∷ []) (
      obj (
        field "status" (str decision)
          (field "decided_by" (str decided_by) (field "comment" (or_undefined comment) no_fields))))
resource_call list_agents = get_call (fixed "agents" ∷ []) nothing
resource_call (register_agent body) = send_call post (fixed "agents" ∷ []) body
resource_call (update_agent agent_id body) =
    send_call put (fixed "agents" ∷ encoded agent_id ∷ []) body
resource_call (delete_agent agent_id) =
    bare_call delete (fixed "agents" ∷ encoded agent_id ∷ []) nothing
resource_call (sync_agent_capabilities agent_id) =
    bare_call post (fixed "agents" ∷ encoded agent_id ∷ fixed "sync-capabilities" ∷ []) nothing
resource_call (probe_agent_capabilities base_url) =
    get_call (fixed "agents" ∷ fixed "probe-capabilities" ∷ [])
      (single "base_url" (encoded base_url))
resource_call get_action_catalog = get_call (fixed "actions" ∷ []) nothing
resource_call list_projects = get_call (fixed "projects" ∷ []) nothing
resource_call (create_project body) = send_call post (fixed "projects" ∷ []) body
resource_call (update_project project_id body) =
    send_call put (fixed "projects" ∷ encoded project_id ∷ []) body
resource_call (delete_project project_id) =
    bare_call delete (fixed "projects" ∷ encoded project_id ∷ []) nothing
