-- ===== src/Client/Parts.antt =====
-- The parts of a path that frontend/src/lib/api.ts writes itself, and how a method goes with a body.
use lang_orch.Base.{
  Bool, true, false, not, ◌&&◌, ◌||◌, Option, none, some, List, [], ◌∷◌, Value, all, ◌≡◌, refl,
}
use lang_orch.Client.{Part, Method, unnamed, Call}
use lang_orch.Client.Urls.{is_fixed_fine}
use lang_orch.Client.Surface.{ApiCall, call_of}
use lang_orch.Client.Procedures.{ProcedureCall, procedure_call}
use lang_orch.Client.Runs.{RunCall, run_call}
use lang_orch.Client.Resources.{ResourceCall, resource_call}
use lang_orch.Client.Cases.{CaseCall, case_call}
use lang_orch.Client.Webhooks.{WebhookCall, webhook_call}
use lang_orch.Client.Operations.{OperationCall, operation_call}
use lang_orch.Client.Accounts.{AccountCall, account_call}

fixed-procedure : (c : ProcedureCall) → all is_fixed_fine (procedure_call c).path ≡ true
unfolding is_fixed_fine procedure_call
fixed-procedure (ProcedureCall.list_procedures _) = refl
fixed-procedure _ = refl

fixed-run : (c : RunCall) → all is_fixed_fine (run_call c).path ≡ true
unfolding is_fixed_fine run_call
fixed-run (RunCall.list_runs _) = refl
fixed-run _ = refl

fixed-resource : (c : ResourceCall) → all is_fixed_fine (resource_call c).path ≡ true
unfolding is_fixed_fine resource_call
fixed-resource ResourceCall.list_approvals = refl
fixed-resource _ = refl

fixed-case : (c : CaseCall) → all is_fixed_fine (case_call c).path ≡ true
unfolding is_fixed_fine case_call
fixed-case (CaseCall.list_cases _) = refl
fixed-case _ = refl

fixed-webhook : (c : WebhookCall) → all is_fixed_fine (webhook_call c).path ≡ true
unfolding is_fixed_fine webhook_call
fixed-webhook (WebhookCall.create_case_webhook _) = refl
fixed-webhook _ = refl

fixed-operation : (c : OperationCall) → all is_fixed_fine (operation_call c).path ≡ true
unfolding is_fixed_fine operation_call
fixed-operation OperationCall.list_triggers = refl
fixed-operation _ = refl

fixed-account : (c : AccountCall) → all is_fixed_fine (account_call c).path ≡ true
unfolding is_fixed_fine account_call
fixed-account AccountCall.auth_me = refl
fixed-account _ = refl

-- They are never empty, and have unreserved characters only.
pub call_of-is_fixed_fine : (c : ApiCall) → all is_fixed_fine (call_of c).path ≡ true
unfolding call_of
call_of-is_fixed_fine (ApiCall.of_procedure c) = fixed-procedure c
call_of-is_fixed_fine (ApiCall.of_run c) = fixed-run c
call_of-is_fixed_fine (ApiCall.of_resource c) = fixed-resource c
call_of-is_fixed_fine (ApiCall.of_case c) = fixed-case c
call_of-is_fixed_fine (ApiCall.of_webhook c) = fixed-webhook c
call_of-is_fixed_fine (ApiCall.of_operation c) = fixed-operation c
call_of-is_fixed_fine (ApiCall.of_account c) = fixed-account c

abbrev pub is_nil : List Part → Bool
is_nil [] = true
is_nil (p ∷ ps) = false

abbrev pub is_bare : Option Value → Bool
is_bare none = true
is_bare (some v) = false

abbrev pub is_unnamed : Method → Bool
is_unnamed unnamed = true
is_unnamed _ = false

-- There is a path, and a body only where a method is named.
abbrev pub is_sendable : Call → Bool
is_sendable c = not (is_nil c.path) && (not (is_unnamed c.method) || is_bare c.body)

sendable-procedure : (c : ProcedureCall) → is_sendable (procedure_call c) ≡ true
unfolding procedure_call
sendable-procedure (ProcedureCall.list_procedures _) = refl
sendable-procedure _ = refl

sendable-run : (c : RunCall) → is_sendable (run_call c) ≡ true
unfolding run_call
sendable-run (RunCall.list_runs _) = refl
sendable-run _ = refl

sendable-resource : (c : ResourceCall) → is_sendable (resource_call c) ≡ true
unfolding resource_call
sendable-resource ResourceCall.list_approvals = refl
sendable-resource _ = refl

sendable-case : (c : CaseCall) → is_sendable (case_call c) ≡ true
unfolding case_call
sendable-case (CaseCall.list_cases _) = refl
sendable-case _ = refl

sendable-webhook : (c : WebhookCall) → is_sendable (webhook_call c) ≡ true
unfolding webhook_call
sendable-webhook (WebhookCall.create_case_webhook _) = refl
sendable-webhook _ = refl

sendable-operation : (c : OperationCall) → is_sendable (operation_call c) ≡ true
unfolding operation_call
sendable-operation OperationCall.list_triggers = refl
sendable-operation _ = refl

sendable-account : (c : AccountCall) → is_sendable (account_call c) ≡ true
unfolding account_call
sendable-account AccountCall.auth_me = refl
sendable-account _ = refl

pub call_of-is_sendable : (c : ApiCall) → is_sendable (call_of c) ≡ true
unfolding call_of
call_of-is_sendable (ApiCall.of_procedure c) = sendable-procedure c
call_of-is_sendable (ApiCall.of_run c) = sendable-run c
call_of-is_sendable (ApiCall.of_resource c) = sendable-resource c
call_of-is_sendable (ApiCall.of_case c) = sendable-case c
call_of-is_sendable (ApiCall.of_webhook c) = sendable-webhook c
call_of-is_sendable (ApiCall.of_operation c) = sendable-operation c
call_of-is_sendable (ApiCall.of_account c) = sendable-account c
