-- ===== src/Client/Handlers/Runs.antt =====
-- The handlers of the calls about procedures, runs, approvals, agents and projects.
use lang_orch.Base.{Bool, true, false, ◌&&◌, some, ◌∷◌, map, All, ◌≡◌, refl}
use lang_orch.Client.Request.{method_name}
use lang_orch.Client.Urls.{IsFine, part_name, is_unreserved}
use lang_orch.Client.Routes.{routes, first_fit}
use lang_orch.Client.Surface.{ApiCall}
use lang_orch.Client.Handlers.{IsFree, procedure_handler, run_handler, resource_handler}
use lang_orch.Client.Procedures.{ProcedureCall, procedure_call}
use lang_orch.Client.Runs.{RunCall, run_call}
use lang_orch.Client.Resources.{ResourceCall, resource_call}

and_false : (b : Bool) → (b && false) ≡ false
and_false true = refl
and_false false = refl

pub first_fit-procedure :
    (c : ProcedureCall)
    → All IsFine (procedure_call c).path
    → IsFree (ApiCall.of_procedure c)
    → first_fit routes
        (method_name (procedure_call c).method)
        ("api" ∷ map part_name (procedure_call c).path)
      ≡ some (procedure_handler c)
unfolding procedure_call IsFree routes first_fit is_unreserved
first_fit-procedure (ProcedureCall.list_procedures p) h g = refl
first_fit-procedure (ProcedureCall.get_version id version) h g = simp (h.1.0.0, h.1.1.0.0, g)
first_fit-procedure (ProcedureCall.import_procedure c p) h g = refl
first_fit-procedure (ProcedureCall.list_versions id) h g = simp (h.1.0.1, and_false)
first_fit-procedure (ProcedureCall.update_procedure id version c) h g = simp (h.1.0.0, h.1.1.0.0)
first_fit-procedure (ProcedureCall.get_procedure_builder_draft id version) h g =
    simp (h.1.0.0, h.1.1.0.0, and_false)
first_fit-procedure (ProcedureCall.save_procedure_builder_draft id version d) h g =
    simp (h.1.0.0, h.1.1.0.0)
first_fit-procedure (ProcedureCall.promote_procedure id version t) h g = simp (h.1.0.0, h.1.1.0.0)
first_fit-procedure (ProcedureCall.rollback_procedure id version t r) h g =
    simp (h.1.0.0, h.1.1.0.0)
first_fit-procedure (ProcedureCall.delete_procedure id version) h g = simp (h.1.0.0, h.1.1.0.0)
first_fit-procedure (ProcedureCall.get_graph id version) h g = simp (h.1.0.0, h.1.1.0.0, and_false)

pub first_fit-run :
    (c : RunCall)
    → All IsFine (run_call c).path
    → IsFree (ApiCall.of_run c)
    → first_fit routes (method_name (run_call c).method) ("api" ∷ map part_name (run_call c).path)
      ≡ some (run_handler c)
unfolding run_call IsFree routes first_fit is_unreserved
first_fit-run (RunCall.list_runs p) h g = refl
first_fit-run (RunCall.get_run id) h g = simp (h.1.0.1, g, and_false)
first_fit-run (RunCall.create_run p v i q c) h g = refl
first_fit-run (RunCall.cancel_run id) h g = simp (h.1.0.1)
first_fit-run (RunCall.retry_run id) h g = simp (h.1.0.1)
first_fit-run (RunCall.delete_run id) h g = simp (h.1.0.1, and_false)
first_fit-run (RunCall.cleanup_runs b s) h g = refl
first_fit-run (RunCall.list_run_events id) h g = simp (h.1.0.1, and_false)
first_fit-run (RunCall.list_run_artifacts id) h g = simp (h.1.0.1, and_false)

pub first_fit-resource :
    (c : ResourceCall)
    → All IsFine (resource_call c).path
    → IsFree (ApiCall.of_resource c)
    → first_fit routes
        (method_name (resource_call c).method)
        ("api" ∷ map part_name (resource_call c).path)
      ≡ some (resource_handler c)
unfolding resource_call IsFree routes first_fit is_unreserved
first_fit-resource ResourceCall.list_approvals h g = refl
first_fit-resource (ResourceCall.get_approval id) h g = simp (h.1.0.1, g)
first_fit-resource (ResourceCall.submit_approval_decision id d b c) h g = simp (h.1.0.1)
first_fit-resource ResourceCall.list_agents h g = refl
first_fit-resource (ResourceCall.register_agent b) h g = refl
first_fit-resource (ResourceCall.update_agent id b) h g = simp (h.1.0.0)
first_fit-resource (ResourceCall.delete_agent id) h g = simp (h.1.0.0)
first_fit-resource (ResourceCall.sync_agent_capabilities id) h g = simp (h.1.0.0, and_false)
first_fit-resource (ResourceCall.probe_agent_capabilities b) h g = refl
first_fit-resource ResourceCall.get_action_catalog h g = refl
first_fit-resource ResourceCall.list_projects h g = refl
first_fit-resource (ResourceCall.create_project b) h g = refl
first_fit-resource (ResourceCall.update_project id b) h g = simp (h.1.0.0)
first_fit-resource (ResourceCall.delete_project id) h g = simp (h.1.0.0)
