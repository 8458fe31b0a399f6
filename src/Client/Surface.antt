-- ===== src/Client/Surface.antt =====
-- All calls of the backend: the groups of frontend/src/lib/api.ts together.
use lang_orch.Client.{Call}
use lang_orch.Client.Procedures.{ProcedureCall, procedure_call}
use lang_orch.Client.Runs.{RunCall, run_call}
use lang_orch.Client.Resources.{ResourceCall, resource_call}
use lang_orch.Client.Cases.{CaseCall, case_call}
use lang_orch.Client.Webhooks.{WebhookCall, webhook_call}
use lang_orch.Client.Operations.{OperationCall, operation_call}
use lang_orch.Client.Accounts.{AccountCall, account_call}

pub data ApiCall : Type 0 where
  of_procedure : ProcedureCall → ApiCall
  of_run : RunCall → ApiCall
  of_resource : ResourceCall → ApiCall
  of_case : CaseCall → ApiCall
  of_webhook : WebhookCall → ApiCall
  of_operation : OperationCall → ApiCall
  of_account : AccountCall → ApiCall

unfoldable pub call_of : ApiCall → Call
unfolding procedure_call run_call resource_call case_call webhook_call operation_call account_call
call_of (of_procedure c) = procedure_call c
call_of (of_run c) = run_call c
call_of (of_resource c) = resource_call c
call_of (of_case c) = case_call c
call_of (of_webhook c) = webhook_call c
call_of (of_operation c) = operation_call c
call_of (of_account c) = account_call c
