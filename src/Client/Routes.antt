-- ===== src/Client/Routes.antt =====
-- The routes of the backend, in the order of declaration: backend/app/api/*.py under the prefixes of
-- backend/app/main.py, lines 1090 to 1106. The web framework is a parameter: a function of the routes.
use lang_orch.Base.{
  String, Bool, true, false, not, ◌&&◌, Option, none, some, List, [], ◌∷◌, ◌++◌, ◌==◌, is_empty,
  if◌then◌else◌, ◌≡◌, all,
}

-- A segment that is written out, or a parameter such as `{run_id}`: any text that is not empty.
pub data Pattern : Type 0 where
  lit : String → Pattern
  any_text : Pattern

pub record Route : Type 0 where
  pub method : String
  pub pattern : List Pattern
  pub handler : String

abbrev route : String → List Pattern → String → Route
route method pattern handler = record { method = method; pattern = pattern; handler = handler }

abbrev procedures_routes : List Route
procedures_routes =
    route "POST" (lit "api" ∷ lit "procedures" ∷ []) "import_procedure"
    ∷ route "GET" (lit "api" ∷ lit "procedures" ∷ []) "list_procedures"
    ∷ route "GET" (lit "api" ∷ lit "procedures" ∷ any_text ∷ lit "versions" ∷ []) "list_versions"
    ∷ route "GET" (lit "api" ∷ lit "procedures" ∷ any_text ∷ any_text ∷ lit "graph" ∷ [])
        "get_procedure_graph"
    ∷ route "POST" (lit "api" ∷ lit "procedures" ∷ any_text ∷ any_text ∷ lit "explain" ∷ [])
        "explain_procedure_route"
    ∷ route "GET" (lit "api" ∷ lit "procedures" ∷ any_text ∷ any_text ∷ []) "get_procedure"
    ∷ route "GET" (lit "api" ∷ lit "procedures" ∷ any_text ∷ any_text ∷ lit "builder-draft" ∷ [])
        "get_procedure_builder_draft"
    ∷ route "PUT" (lit "api" ∷ lit "procedures" ∷ any_text ∷ any_text ∷ lit "builder-draft" ∷ [])
        "update_procedure_builder_draft"
    ∷ route "PUT" (lit "api" ∷ lit "procedures" ∷ any_text ∷ any_text ∷ []) "update_procedure"
    ∷ route "DELETE" (lit "api" ∷ lit "procedures" ∷ any_text ∷ any_text ∷ [])
        "delete_procedure_version"
    ∷ route "PATCH" (lit "api" ∷ lit "procedures" ∷ any_text ∷ any_text ∷ lit "status" ∷ [])
        "patch_procedure_status"
    ∷ route "POST" (lit "api" ∷ lit "procedures" ∷ any_text ∷ any_text ∷ lit "promote" ∷ [])
        "promote_procedure"
    ∷ route "POST" (lit "api" ∷ lit "procedures" ∷ any_text ∷ any_text ∷ lit "rollback" ∷ [])
        "rollback_procedure"
    ∷ []

abbrev runs_routes : List Route
runs_routes =
    route "POST" (lit "api" ∷ lit "runs" ∷ []) "create_run"
    ∷ route "GET" (lit "api" ∷ lit "runs" ∷ []) "list_runs"
    ∷ route "GET" (lit "api" ∷ lit "runs" ∷ lit "metrics" ∷ lit "summary" ∷ []) "get_metrics"
    ∷ route "GET" (lit "api" ∷ lit "runs" ∷ lit "queue" ∷ []) "get_queue_stats"
    ∷ route "GET" (lit "api" ∷ lit "runs" ∷ any_text ∷ []) "get_run"
    ∷ route "GET" (lit "api" ∷ lit "runs" ∷ any_text ∷ lit "artifacts" ∷ []) "get_run_artifacts"
    ∷ route "GET" (lit "api" ∷ lit "runs" ∷ any_text ∷ lit "diagnostics" ∷ []) "get_run_diagnostics"
    ∷ route "GET" (lit "api" ∷ lit "runs" ∷ any_text ∷ lit "checkpoints" ∷ [])
        "list_run_checkpoints"
    ∷ route "GET" (lit "api" ∷ lit "runs" ∷ any_text ∷ lit "checkpoints" ∷ any_text ∷ [])
        "get_checkpoint_state"
    ∷ route "POST" (lit "api" ∷ lit "runs" ∷ any_text ∷ lit "cancel" ∷ []) "cancel_run"
    ∷ route "POST" (lit "api" ∷ lit "runs" ∷ any_text ∷ lit "retry" ∷ []) "retry_run"
    ∷ route "DELETE" (lit "api" ∷ lit "runs" ∷ lit "cleanup" ∷ lit "history" ∷ []) "cleanup_runs"
    ∷ route "DELETE" (lit "api" ∷ lit "runs" ∷ any_text ∷ []) "delete_run"
    ∷ route "POST" (lit "api" ∷ lit "runs" ∷ any_text ∷ lit "callback" ∷ []) "workflow_callback"
    ∷ []

abbrev approvals_routes : List Route
approvals_routes =
    route "GET" (lit "api" ∷ lit "approvals" ∷ []) "list_approvals"
    ∷ route "GET" (lit "api" ∷ lit "approvals" ∷ lit "stream" ∷ []) "stream_approvals"
    ∷ route "GET" (lit "api" ∷ lit "approvals" ∷ any_text ∷ []) "get_approval"
    ∷ route "POST" (lit "api" ∷ lit "approvals" ∷ any_text ∷ lit "decision" ∷ []) "submit_decision"
    ∷ []

abbrev events_routes : List Route
events_routes =
    route "GET" (lit "api" ∷ lit "runs" ∷ any_text ∷ lit "events" ∷ []) "list_events"
    ∷ route "GET" (lit "api" ∷ lit "runs" ∷ any_text ∷ lit "stream" ∷ []) "stream_events"
    ∷ []

abbrev agents_routes : List Route
agents_routes =
    route "GET" (lit "api" ∷ lit "agents" ∷ []) "list_agents"
    ∷ route "GET" (lit "api" ∷ lit "agents" ∷ lit "probe-capabilities" ∷ []) "probe_capabilities"
    ∷ route "POST" (lit "api" ∷ lit "agents" ∷ []) "register_agent"
    ∷ route "GET" (lit "api" ∷ lit "agents" ∷ lit "pools" ∷ []) "get_pool_stats"
    ∷ route "GET" (lit "api" ∷ lit "agents" ∷ any_text ∷ []) "get_agent"
    ∷ route "PUT" (lit "api" ∷ lit "agents" ∷ any_text ∷ []) "update_agent"
    ∷ route "DELETE" (lit "api" ∷ lit "agents" ∷ any_text ∷ []) "delete_agent"
    ∷ route "POST" (lit "api" ∷ lit "agents" ∷ any_text ∷ lit "sync-capabilities" ∷ [])
        "sync_capabilities"
    ∷ route "GET" (lit "api" ∷ lit "agents" ∷ lit "bootstrap" ∷ any_text ∷ []) "bootstrap_agent"
    ∷ route "POST" (lit "api" ∷ lit "agents" ∷ lit "heartbeat" ∷ []) "agent_heartbeat"
    ∷ []

abbrev orchestrators_routes : List Route
orchestrators_routes = route "GET" (lit "api" ∷ lit "orchestrators" ∷ []) "list_orchestrators" ∷ []

abbrev catalog_routes : List Route
catalog_routes = route "GET" (lit "api" ∷ lit "actions" ∷ []) "get_action_catalog" ∷ []

abbrev leases_routes : List Route
leases_routes =
    route "GET" (lit "api" ∷ lit "leases" ∷ []) "list_leases"
    ∷ route "DELETE" (lit "api" ∷ lit "leases" ∷ any_text ∷ []) "revoke_lease"
    ∷ []

abbrev projects_routes : List Route
projects_routes =
    route "GET" (lit "api" ∷ lit "projects" ∷ []) "list_projects"
    ∷ route "POST" (lit "api" ∷ lit "projects" ∷ []) "create_project"
    ∷ route "GET" (lit "api" ∷ lit "projects" ∷ any_text ∷ []) "get_project"
    ∷ route "PUT" (lit "api" ∷ lit "projects" ∷ any_text ∷ []) "update_project"
    ∷ route "DELETE" (lit "api" ∷ lit "projects" ∷ any_text ∷ []) "delete_project"
    ∷ route "GET" (lit "api" ∷ lit "projects" ∷ any_text ∷ lit "cost-summary" ∷ [])
        "get_project_cost_summary"
    ∷ []

abbrev cases_routes : List Route
cases_routes =
    route "GET" (lit "api" ∷ lit "cases" ∷ []) "list_cases"
    ∷ route "GET" (lit "api" ∷ lit "cases" ∷ lit "queue" ∷ []) "list_case_queue"
    ∷ route "GET" (lit "api" ∷ lit "cases" ∷ lit "queue" ∷ lit "analytics" ∷ [])
        "get_case_queue_analytics"
    ∷ route "POST" (lit "api" ∷ lit "cases" ∷ []) "create_case"
    ∷ route "GET" (lit "api" ∷ lit "cases" ∷ lit "webhooks" ∷ []) "list_case_webhooks"
    ∷ route "POST" (lit "api" ∷ lit "cases" ∷ lit "webhooks" ∷ []) "create_case_webhook"
    ∷ route "GET" (lit "api" ∷ lit "cases" ∷ lit "webhooks" ∷ lit "deliveries" ∷ [])
        "list_case_webhook_deliveries"
    ∷ route "GET" (lit "api" ∷ lit "cases" ∷ lit "webhooks" ∷ lit "dlq" ∷ [])
        "list_case_webhook_dlq"
    ∷ route "GET" (lit "api" ∷ lit "cases" ∷ lit "webhooks" ∷ lit "dlq" ∷ lit "count" ∷ [])
        "count_case_webhook_dlq"
    ∷ route "GET" (lit "api" ∷ lit "cases" ∷ lit "webhooks" ∷ lit "deliveries" ∷ lit "summary" ∷ [])
        "get_case_webhook_delivery_summary"
    ∷ route "POST"
        (lit "api" ∷ lit "cases" ∷ lit "webhooks" ∷ lit "deliveries" ∷ any_text ∷ lit "replay" ∷ [])
        "replay_case_webhook_delivery"
    ∷ route "POST"
        (lit "api" ∷ lit "cases" ∷ lit "webhooks" ∷ lit "deliveries" ∷ lit "replay-failed" ∷ [])
        "replay_failed_case_webhook_deliveries"
    ∷ route "POST" (lit "api" ∷ lit "cases" ∷ lit "webhooks" ∷ lit "dlq" ∷ lit "replay" ∷ [])
        "replay_case_webhook_dlq"
    ∷ route "POST" (lit "api" ∷ lit "cases" ∷ lit "webhooks" ∷ lit "dlq" ∷ lit "purge" ∷ [])
        "purge_case_webhook_dlq"
    ∷ route "POST"
        (lit "api" ∷ lit "cases" ∷ lit "webhooks" ∷ lit "dlq" ∷ lit "replay-selected" ∷ [])
        "replay_case_webhook_dlq_selected"
    ∷ route "POST"
        (lit "api" ∷ lit "cases" ∷ lit "webhooks" ∷ lit "dlq" ∷ lit "purge-selected" ∷ [])
        "purge_case_webhook_dlq_selected"
    ∷ route "DELETE" (lit "api" ∷ lit "cases" ∷ lit "webhooks" ∷ any_text ∷ [])
        "delete_case_webhook"
    ∷ route "GET" (lit "api" ∷ lit "cases" ∷ lit "sla-policies" ∷ []) "list_sla_policies"
    ∷ route "POST" (lit "api" ∷ lit "cases" ∷ lit "sla-policies" ∷ []) "create_sla_policy"
    ∷ route "PATCH" (lit "api" ∷ lit "cases" ∷ lit "sla-policies" ∷ any_text ∷ [])
        "patch_sla_policy"
    ∷ route "DELETE" (lit "api" ∷ lit "cases" ∷ lit "sla-policies" ∷ any_text ∷ [])
        "delete_sla_policy"
    ∷ route "GET" (lit "api" ∷ lit "cases" ∷ any_text ∷ []) "get_case"
    ∷ route "PATCH" (lit "api" ∷ lit "cases" ∷ any_text ∷ []) "patch_case"
    ∷ route "POST" (lit "api" ∷ lit "cases" ∷ any_text ∷ lit "claim" ∷ []) "claim_case"
    ∷ route "POST" (lit "api" ∷ lit "cases" ∷ any_text ∷ lit "release" ∷ []) "release_case"
    ∷ route "DELETE" (lit "api" ∷ lit "cases" ∷ any_text ∷ []) "delete_case"
    ∷ route "GET" (lit "api" ∷ lit "cases" ∷ any_text ∷ lit "events" ∷ []) "list_case_events"
    ∷ []

abbrev triggers_routes : List Route
triggers_routes =
    route "POST" (lit "api" ∷ lit "triggers" ∷ lit "webhook" ∷ any_text ∷ []) "receive_webhook"
    ∷ route "POST" (lit "api" ∷ lit "triggers" ∷ any_text ∷ any_text ∷ lit "fire" ∷ [])
        "fire_trigger_manual"
    ∷ route "GET" (lit "api" ∷ lit "triggers" ∷ []) "list_triggers"
    ∷ route "GET" (lit "api" ∷ lit "triggers" ∷ any_text ∷ any_text ∷ []) "get_trigger"
    ∷ route "POST" (lit "api" ∷ lit "triggers" ∷ any_text ∷ any_text ∷ []) "upsert_trigger"
    ∷ route "DELETE" (lit "api" ∷ lit "triggers" ∷ any_text ∷ any_text ∷ []) "delete_trigger"
    ∷ route "POST" (lit "api" ∷ lit "triggers" ∷ lit "sync" ∷ []) "sync_triggers"
    ∷ []

abbrev auth_routes : List Route
auth_routes =
    route "POST" (lit "api" ∷ lit "auth" ∷ lit "login" ∷ []) "login"
    ∷ route "GET" (lit "api" ∷ lit "auth" ∷ lit "me" ∷ []) "me"
    ∷ route "POST" (lit "api" ∷ lit "auth" ∷ lit "token" ∷ []) "issue_token"
    ∷ route "GET" (lit "api" ∷ lit "auth" ∷ lit "sso" ∷ lit "status" ∷ []) "sso_status"
    ∷ route "GET" (lit "api" ∷ lit "auth" ∷ lit "sso" ∷ lit "login" ∷ []) "sso_login"
    ∷ route "GET" (lit "api" ∷ lit "auth" ∷ lit "sso" ∷ lit "callback" ∷ []) "sso_callback"
    ∷ []

abbrev users_routes : List Route
users_routes =
    route "GET" (lit "api" ∷ lit "users" ∷ []) "list_users"
    ∷ route "POST" (lit "api" ∷ lit "users" ∷ []) "create_user"
    ∷ route "GET" (lit "api" ∷ lit "users" ∷ any_text ∷ []) "get_user"
    ∷ route "PUT" (lit "api" ∷ lit "users" ∷ any_text ∷ []) "update_user"
    ∷ route "DELETE" (lit "api" ∷ lit "users" ∷ any_text ∷ []) "delete_user"
    ∷ []

abbrev secrets_routes : List Route
secrets_routes =
    route "GET" (lit "api" ∷ lit "secrets" ∷ []) "list_secrets"
    ∷ route "POST" (lit "api" ∷ lit "secrets" ∷ []) "create_secret"
    ∷ route "GET" (lit "api" ∷ lit "secrets" ∷ any_text ∷ []) "get_secret"
    ∷ route "PUT" (lit "api" ∷ lit "secrets" ∷ any_text ∷ []) "update_secret"
    ∷ route "DELETE" (lit "api" ∷ lit "secrets" ∷ any_text ∷ []) "delete_secret"
    ∷ []

abbrev config_routes : List Route
config_routes =
    route "GET" (lit "api" ∷ lit "config" ∷ []) "get_config"
    ∷ route "PATCH" (lit "api" ∷ lit "config" ∷ []) "patch_config"
    ∷ route "POST" (lit "api" ∷ lit "config" ∷ lit "test-llm" ∷ []) "test_llm_connection"
    ∷ []

abbrev audit_routes : List Route
audit_routes = route "GET" (lit "api" ∷ lit "audit" ∷ []) "list_audit_events" ∷ []

-- The routers in the order in which the application includes them.
unfoldable pub routes : List Route
routes =
    procedures_routes
    ++ (runs_routes
        ++ (approvals_routes
            ++ (events_routes
                ++ (agents_routes
                    ++ (orchestrators_routes
                        ++ (catalog_routes
                            ++ (leases_routes
                                ++ (projects_routes
                                    ++ (cases_routes
                                        ++ (triggers_routes
                                            ++ (auth_routes
                                                ++ (users_routes
                                                    ++ (secrets_routes
                                                        ++ (config_routes
                                                            ++ (audit_routes)))))))))))))))

abbrev pub segment_fits : Pattern → String → Bool
segment_fits (lit t) s = t == s
segment_fits any_text s = not (is_empty s)

abbrev pub pattern_fits : List Pattern → List String → Bool
pattern_fits [] [] = true
pattern_fits [] (s ∷ ss) = false
pattern_fits (p ∷ ps) [] = false
pattern_fits (p ∷ ps) (s ∷ ss) = segment_fits p s && pattern_fits ps ss

abbrev pub fits : Route → String → List String → Bool
fits r method path = r.method == method && pattern_fits r.pattern path

-- The documented order of the framework: the first route that fits handles a request.
abbrev pub TakesFirst : (List Route → String → List String → Option String) → Type 0
TakesFirst dispatch =
    (before after : List Route) (r : Route) (method : String) (path : List String)
    → all (λ b. not (fits b method path)) before ≡ true
    → fits r method path ≡ true
    → dispatch (before ++ r ∷ after) method path ≡ some r.handler

unfoldable pub first_fit : List Route → String → List String → Option String
first_fit [] method path = none
first_fit (r ∷ rs) method path =
    if fits r method path then some r.handler else first_fit rs method path
