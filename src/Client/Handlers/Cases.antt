-- ===== src/Client/Handlers/Cases.antt =====
-- The handlers of the calls about cases.
use lang_orch.Base.{Bool, true, false, ◌&&◌, some, ◌∷◌, map, All, ◌≡◌, refl}
use lang_orch.Client.Request.{method_name}
use lang_orch.Client.Urls.{IsFine, part_name, is_unreserved}
use lang_orch.Client.Routes.{routes, first_fit}
use lang_orch.Client.Surface.{ApiCall}
use lang_orch.Client.Handlers.{IsFree, case_handler, webhook_handler}
use lang_orch.Client.Cases.{CaseCall, case_call}
use lang_orch.Client.Webhooks.{WebhookCall, webhook_call}

and_false : (b : Bool) → (b && false) ≡ false
and_false true = refl
and_false false = refl

pub first_fit-case :
    (c : CaseCall)
    → All IsFine (case_call c).path
    → IsFree (ApiCall.of_case c)
    → first_fit routes (method_name (case_call c).method) ("api" ∷ map part_name (case_call c).path)
      ≡ some (case_handler c)
unfolding case_call IsFree routes first_fit is_unreserved
first_fit-case (CaseCall.list_cases p) h g = refl
first_fit-case (CaseCall.get_case id) h g = simp (h.1.0.0, g.0, g.1, g.2)
first_fit-case (CaseCall.create_case b) h g = refl
first_fit-case (CaseCall.update_case id b) h g = simp (h.1.0.0, and_false)
first_fit-case (CaseCall.delete_case id) h g = simp (h.1.0.0, and_false)
first_fit-case (CaseCall.list_case_events id l) h g = simp (h.1.0.0, and_false)
first_fit-case (CaseCall.list_case_queue p) h g = refl
first_fit-case (CaseCall.queue_analytics p r) h g = refl
first_fit-case (CaseCall.claim_case id o s) h g = simp (h.1.0.0, and_false)
first_fit-case (CaseCall.release_case id o s) h g = simp (h.1.0.0, and_false)
first_fit-case (CaseCall.list_case_sla_policies p) h g = refl
first_fit-case (CaseCall.create_case_sla_policy b) h g = refl
first_fit-case (CaseCall.update_case_sla_policy id b) h g = simp (h.1.1.0.0)
first_fit-case (CaseCall.delete_case_sla_policy id) h g = simp (h.1.1.0.0)

pub first_fit-webhook :
    (c : WebhookCall)
    → All IsFine (webhook_call c).path
    → IsFree (ApiCall.of_webhook c)
    → first_fit routes
        (method_name (webhook_call c).method)
        ("api" ∷ map part_name (webhook_call c).path)
      ≡ some (webhook_handler c)
unfolding webhook_call IsFree routes first_fit is_unreserved
first_fit-webhook (WebhookCall.list_case_webhooks p e) h g = refl
first_fit-webhook (WebhookCall.create_case_webhook b) h g = refl
first_fit-webhook (WebhookCall.delete_case_webhook id) h g = simp (h.1.1.0.0)
first_fit-webhook (WebhookCall.list_case_webhook_deliveries p) h g = refl
first_fit-webhook (WebhookCall.list_case_webhook_dlq p) h g = refl
first_fit-webhook (WebhookCall.get_case_webhook_dlq_count p) h g = refl
first_fit-webhook (WebhookCall.get_case_webhook_delivery_summary p) h g = refl
first_fit-webhook (WebhookCall.replay_case_webhook_delivery id) h g = simp (h.1.1.1.0.0, and_false)
first_fit-webhook (WebhookCall.replay_case_webhook_dlq p) h g = refl
first_fit-webhook (WebhookCall.replay_case_webhook_dlq_selected d) h g = refl
first_fit-webhook (WebhookCall.purge_case_webhook_dlq p) h g = refl
first_fit-webhook (WebhookCall.purge_case_webhook_dlq_selected d) h g = refl
