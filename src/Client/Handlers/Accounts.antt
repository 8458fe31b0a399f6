-- ===== src/Client/Handlers/Accounts.antt =====
-- The handlers of the other calls.
use lang_orch.Base.{Bool, true, false, ◌&&◌, some, ◌∷◌, map, All, ◌≡◌, refl}
use lang_orch.Client.Request.{method_name}
use lang_orch.Client.Urls.{IsFine, part_name, is_unreserved}
use lang_orch.Client.Routes.{routes, first_fit}
use lang_orch.Client.Surface.{ApiCall}
use lang_orch.Client.Handlers.{IsFree, operation_handler, account_handler}
use lang_orch.Client.Operations.{OperationCall, operation_call}
use lang_orch.Client.Accounts.{AccountCall, account_call}

and_false : (b : Bool) → (b && false) ≡ false
and_false true = refl
and_false false = refl

pub first_fit-operation :
    (c : OperationCall)
    → All IsFine (operation_call c).path
    → IsFree (ApiCall.of_operation c)
    → first_fit routes
        (method_name (operation_call c).method)
        ("api" ∷ map part_name (operation_call c).path)
      ≡ some (operation_handler c)
unfolding operation_call IsFree routes first_fit is_unreserved
first_fit-operation (OperationCall.get_run_diagnostics id) h g = simp (h.1.0.1, and_false)
first_fit-operation OperationCall.get_metrics_summary h g = refl
first_fit-operation (OperationCall.list_leases r) h g = refl
first_fit-operation (OperationCall.revoke_lease id) h g = simp (h.1.0.1)
first_fit-operation (OperationCall.list_run_checkpoints id) h g = simp (h.1.0.1, and_false)
first_fit-operation (OperationCall.get_checkpoint_state id checkpoint_id) h g =
    simp (h.1.0.1, h.1.1.1.0.0, and_false)
first_fit-operation (OperationCall.explain_procedure id version o) h g = simp (h.1.0.0, h.1.1.0.0)
first_fit-operation OperationCall.list_triggers h g = refl
first_fit-operation (OperationCall.get_trigger id version) h g = simp (h.1.0.0, h.1.1.0.0)
first_fit-operation (OperationCall.upsert_trigger id version b) h g =
    simp (h.1.0.0, g, h.1.1.0.0, and_false)
first_fit-operation (OperationCall.delete_trigger id version) h g = simp (h.1.0.0, h.1.1.0.0)
first_fit-operation OperationCall.sync_triggers h g = refl
first_fit-operation (OperationCall.fire_trigger id version) h g =
    simp (h.1.0.0, h.1.1.0.0, and_false)

pub first_fit-account :
    (c : AccountCall)
    → All IsFine (account_call c).path
    → IsFree (ApiCall.of_account c)
    → first_fit routes
        (method_name (account_call c).method)
        ("api" ∷ map part_name (account_call c).path)
      ≡ some (account_handler c)
unfolding account_call IsFree routes first_fit is_unreserved
first_fit-account (AccountCall.auth_login u p) h g = refl
first_fit-account AccountCall.auth_me h g = refl
first_fit-account AccountCall.list_users h g = refl
first_fit-account (AccountCall.create_user b) h g = refl
first_fit-account (AccountCall.update_user id b) h g = simp (h.1.0.0)
first_fit-account (AccountCall.delete_user id) h g = simp (h.1.0.0)
first_fit-account AccountCall.list_secrets h g = refl
first_fit-account (AccountCall.create_secret b) h g = refl
first_fit-account (AccountCall.update_secret id b) h g = simp (h.1.0.0)
first_fit-account (AccountCall.delete_secret id) h g = simp (h.1.0.0)
first_fit-account AccountCall.get_config h g = refl
first_fit-account (AccountCall.patch_config b) h g = refl
first_fit-account AccountCall.test_llm_connection h g = refl
first_fit-account (AccountCall.list_audit_events p) h g = refl
first_fit-account AccountCall.fetch_orchestrators h g = refl
first_fit-account AccountCall.fetch_agent_pools h g = refl
