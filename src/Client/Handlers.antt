-- ===== src/Client/Handlers.antt =====
-- Which handler of the backend each call of frontend/src/lib/api.ts is meant for.
pub mod Runs
pub mod Cases
pub mod Accounts
use lang_orch.Base.{String, Bool, true, false, ◌==◌, ◌≡◌}
use lang_orch.Client.Procedures.{ProcedureCall}
use lang_orch.Client.Runs.{RunCall}
use lang_orch.Client.Resources.{ResourceCall}
use lang_orch.Client.Cases.{CaseCall}
use lang_orch.Client.Webhooks.{WebhookCall}
use lang_orch.Client.Operations.{OperationCall}
use lang_orch.Client.Accounts.{AccountCall}
use lang_orch.Client.Surface.{ApiCall}

abbrev pub procedure_handler : ProcedureCall → String
procedure_handler (ProcedureCall.list_procedures _) = "list_procedures"
procedure_handler (ProcedureCall.get_version _ _) = "get_procedure"
procedure_handler (ProcedureCall.import_procedure _ _) = "import_procedure"
procedure_handler (ProcedureCall.list_versions _) = "list_versions"
procedure_handler (ProcedureCall.update_procedure _ _ _) = "update_procedure"
procedure_handler (ProcedureCall.get_procedure_builder_draft _ _) = "get_procedure_builder_draft"
procedure_handler (ProcedureCall.save_procedure_builder_draft _ _ _) =
    "update_procedure_builder_draft"
procedure_handler (ProcedureCall.promote_procedure _ _ _) = "promote_procedure"
procedure_handler (ProcedureCall.rollback_procedure _ _ _ _) = "rollback_procedure"
procedure_handler (ProcedureCall.delete_procedure _ _) = "delete_procedure_version"
procedure_handler (ProcedureCall.get_graph _ _) = "get_procedure_graph"

abbrev pub run_handler : RunCall → String
run_handler (RunCall.list_runs _) = "list_runs"
run_handler (RunCall.get_run _) = "get_run"
run_handler (RunCall.create_run _ _ _ _ _) = "create_run"
run_handler (RunCall.cancel_run _) = "cancel_run"
run_handler (RunCall.retry_run _) = "retry_run"
run_handler (RunCall.delete_run _) = "delete_run"
run_handler (RunCall.cleanup_runs _ _) = "cleanup_runs"
run_handler (RunCall.list_run_events _) = "list_events"
run_handler (RunCall.list_run_artifacts _) = "get_run_artifacts"

abbrev pub resource_handler : ResourceCall → String
resource_handler ResourceCall.list_approvals = "list_approvals"
resource_handler (ResourceCall.get_approval _) = "get_approval"
resource_handler (ResourceCall.submit_approval_decision _ _ _ _) = "submit_decision"
resource_handler ResourceCall.list_agents = "list_agents"
resource_handler (ResourceCall.register_agent _) = "register_agent"
resource_handler (ResourceCall.update_agent _ _) = "update_agent"
resource_handler (ResourceCall.delete_agent _) = "delete_agent"
resource_handler (ResourceCall.sync_agent_capabilities _) = "sync_capabilities"
resource_handler (ResourceCall.probe_agent_capabilities _) = "probe_capabilities"
resource_handler ResourceCall.get_action_catalog = "get_action_catalog"
resource_handler ResourceCall.list_projects = "list_projects"
resource_handler (ResourceCall.create_project _) = "create_project"
resource_handler (ResourceCall.update_project _ _) = "update_project"
resource_handler (ResourceCall.delete_project _) = "delete_project"

abbrev pub case_handler : CaseCall → String
case_handler (CaseCall.list_cases _) = "list_cases"
case_handler (CaseCall.get_case _) = "get_case"
case_handler (CaseCall.create_case _) = "create_case"
case_handler (CaseCall.update_case _ _) = "patch_case"
case_handler (CaseCall.delete_case _) = "delete_case"
case_handler (CaseCall.list_case_events _ _) = "list_case_events"
case_handler (CaseCall.list_case_queue _) = "list_case_queue"
case_handler (CaseCall.queue_analytics _ _) = "get_case_queue_analytics"
case_handler (CaseCall.claim_case _ _ _) = "claim_case"
case_handler (CaseCall.release_case _ _ _) = "release_case"
case_handler (CaseCall.list_case_sla_policies _) = "list_sla_policies"
case_handler (CaseCall.create_case_sla_policy _) = "create_sla_policy"
case_handler (CaseCall.update_case_sla_policy _ _) = "patch_sla_policy"
case_handler (CaseCall.delete_case_sla_policy _) = "delete_sla_policy"

abbrev pub webhook_handler : WebhookCall → String
webhook_handler (WebhookCall.list_case_webhooks _ _) = "list_case_webhooks"
webhook_handler (WebhookCall.create_case_webhook _) = "create_case_webhook"
webhook_handler (WebhookCall.delete_case_webhook _) = "delete_case_webhook"
webhook_handler (WebhookCall.list_case_webhook_deliveries _) = "list_case_webhook_deliveries"
webhook_handler (WebhookCall.list_case_webhook_dlq _) = "list_case_webhook_dlq"
webhook_handler (WebhookCall.get_case_webhook_dlq_count _) = "count_case_webhook_dlq"
webhook_handler (WebhookCall.get_case_webhook_delivery_summary _) =
    "get_case_webhook_delivery_summary"
webhook_handler (WebhookCall.replay_case_webhook_delivery _) = "replay_case_webhook_delivery"
webhook_handler (WebhookCall.replay_case_webhook_dlq _) = "replay_case_webhook_dlq"
webhook_handler (WebhookCall.replay_case_webhook_dlq_selected _) =
    "replay_case_webhook_dlq_selected"
webhook_handler (WebhookCall.purge_case_webhook_dlq _) = "purge_case_webhook_dlq"
webhook_handler (WebhookCall.purge_case_webhook_dlq_selected _) = "purge_case_webhook_dlq_selected"

abbrev pub operation_handler : OperationCall → String
operation_handler (OperationCall.get_run_diagnostics _) = "get_run_diagnostics"
operation_handler OperationCall.get_metrics_summary = "get_metrics"
operation_handler (OperationCall.list_leases _) = "list_leases"
operation_handler (OperationCall.revoke_lease _) = "revoke_lease"
operation_handler (OperationCall.list_run_checkpoints _) = "list_run_checkpoints"
operation_handler (OperationCall.get_checkpoint_state _ _) = "get_checkpoint_state"
operation_handler (OperationCall.explain_procedure _ _ _) = "explain_procedure_route"
operation_handler OperationCall.list_triggers = "list_triggers"
operation_handler (OperationCall.get_trigger _ _) = "get_trigger"
operation_handler (OperationCall.upsert_trigger _ _ _) = "upsert_trigger"
operation_handler (OperationCall.delete_trigger _ _) = "delete_trigger"
operation_handler OperationCall.sync_triggers = "sync_triggers"
operation_handler (OperationCall.fire_trigger _ _) = "fire_trigger_manual"

abbrev pub account_handler : AccountCall → String
account_handler (AccountCall.auth_login _ _) = "login"
account_handler AccountCall.auth_me = "me"
account_handler AccountCall.list_users = "list_users"
account_handler (AccountCall.create_user _) = "create_user"
account_handler (AccountCall.update_user _ _) = "update_user"
account_handler (AccountCall.delete_user _) = "delete_user"
account_handler AccountCall.list_secrets = "list_secrets"
account_handler (AccountCall.create_secret _) = "create_secret"
account_handler (AccountCall.update_secret _ _) = "update_secret"
account_handler (AccountCall.delete_secret _) = "delete_secret"
account_handler AccountCall.get_config = "get_config"
account_handler (AccountCall.patch_config _) = "patch_config"
account_handler AccountCall.test_llm_connection = "test_llm_connection"
account_handler (AccountCall.list_audit_events _) = "list_audit_events"
account_handler AccountCall.fetch_orchestrators = "list_orchestrators"
account_handler AccountCall.fetch_agent_pools = "get_pool_stats"

-- The handler in the backend's modules backend/app/api.
unfoldable pub handler_of : ApiCall → String
handler_of (ApiCall.of_procedure c) = procedure_handler c
handler_of (ApiCall.of_run c) = run_handler c
handler_of (ApiCall.of_resource c) = resource_handler c
handler_of (ApiCall.of_case c) = case_handler c
handler_of (ApiCall.of_webhook c) = webhook_handler c
handler_of (ApiCall.of_operation c) = operation_handler c
handler_of (ApiCall.of_account c) = account_handler c

-- An identifier that is spelled like a route declared before the call's own would lead there.
unfoldable pub IsFree : ApiCall → Type 0
IsFree (ApiCall.of_procedure (ProcedureCall.get_version _ version)) =
    (("versions" == version) ≡ false)
IsFree (ApiCall.of_run (RunCall.get_run id)) = (("queue" == id) ≡ false)
IsFree (ApiCall.of_resource (ResourceCall.get_approval id)) = (("stream" == id) ≡ false)
IsFree (ApiCall.of_case (CaseCall.get_case id)) =
    (("queue" == id) ≡ false) × (("webhooks" == id) ≡ false) × (("sla-policies" == id) ≡ false)
IsFree (ApiCall.of_operation (OperationCall.upsert_trigger id _ _)) = (("webhook" == id) ≡ false)
IsFree _ = Unit
