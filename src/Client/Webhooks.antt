-- ===== src/Client/Webhooks.antt =====
-- The calls about the webhooks of cases: frontend/src/lib/api.ts, lines 546 to 699.
use lang_orch.Base.{
  String, Bool, Option, List, [], ◌∷◌, ℤ, Value, str, obj, arr, no_fields, field, items, map,
}
use lang_orch.Client.{
  Part, fixed, encoded, nothing, post, delete, Call, get_call, send_call, bare_call, truthy_text,
  number_text, flag_text, with_params,
}

pub record DeliveryParams : Type 0 where
  pub status : Option String
  pub subscription_id : Option String
  pub case_id : Option String
  pub event_type : Option String
  pub sort_by : Option String
  pub order : Option String
  pub older_than_hours : Option ℤ
  pub limit : Option ℤ
  pub offset : Option ℤ

pub data WebhookCall : Type 0 where
  list_case_webhooks : (project_id : Option String) → (enabled_only : Option Bool) → WebhookCall
  create_case_webhook : (body : Value) → WebhookCall
  delete_case_webhook : (subscription_id : String) → WebhookCall
  -- A call ignores the parameters that it does not declare.
  list_case_webhook_deliveries : DeliveryParams → WebhookCall
  list_case_webhook_dlq : DeliveryParams → WebhookCall
  get_case_webhook_dlq_count : DeliveryParams → WebhookCall
  get_case_webhook_delivery_summary : DeliveryParams → WebhookCall
  replay_case_webhook_delivery : (delivery_id : String) → WebhookCall
  replay_case_webhook_dlq : DeliveryParams → WebhookCall
  replay_case_webhook_dlq_selected : (delivery_ids : List String) → WebhookCall
  purge_case_webhook_dlq : DeliveryParams → WebhookCall
  purge_case_webhook_dlq_selected : (delivery_ids : List String) → WebhookCall

abbrev hook_path : List Part → List Part
hook_path rest = fixed "cases" ∷ fixed "webhooks" ∷ rest

-- The three filters that all queries of deliveries have, and what follows them.
abbrev filters : DeliveryParams → List (String × Option String) → List (String × Option String)
filters p rest =
    ("subscription_id", truthy_text p.subscription_id)
    ∷ ("case_id", truthy_text p.case_id)
    ∷ ("event_type", truthy_text p.event_type)
    ∷ rest

abbrev sorting : DeliveryParams → List (String × Option String)
sorting p =
    ("sort_by", truthy_text p.sort_by)
    ∷ ("order", truthy_text p.order)
    ∷ ("limit", number_text p.limit)
    ∷ ("offset", number_text p.offset)
    ∷ []

abbrev selected : List String → Value
selected delivery_ids =
    obj (field "delivery_ids" (arr (items (map (λ s. str s) delivery_ids))) no_fields)

unfoldable pub webhook_call : WebhookCall → Call
webhook_call (list_case_webhooks project_id enabled_only) = get_call (hook_path []) (
    with_params
      (("project_id", truthy_text project_id) ∷ ("enabled_only", flag_text enabled_only) ∷ []))
webhook_call (create_case_webhook body) = send_call post (hook_path []) body
webhook_call (delete_case_webhook subscription_id) =
    bare_call delete (hook_path (encoded subscription_id ∷ [])) nothing
webhook_call (list_case_webhook_deliveries p) =
    get_call (hook_path (fixed "deliveries" ∷ []))
      (with_params (("status", truthy_text p.status) ∷ filters p (sorting p)))
webhook_call (list_case_webhook_dlq p) =
    get_call (hook_path (fixed "dlq" ∷ [])) (with_params (filters p (sorting p)))
webhook_call (get_case_webhook_dlq_count p) =
    get_call (hook_path (fixed "dlq" ∷ fixed "count" ∷ []))
      (with_params (filters p (("older_than_hours", number_text p.older_than_hours) ∷ [])))
webhook_call (get_case_webhook_delivery_summary p) =
    get_call (hook_path (fixed "deliveries" ∷ fixed "summary" ∷ [])) (with_params (filters p []))
webhook_call (replay_case_webhook_delivery delivery_id) =
    bare_call post (hook_path (fixed "deliveries" ∷ encoded delivery_id ∷ fixed "replay" ∷ []))
      nothing
webhook_call (replay_case_webhook_dlq p) =
    bare_call post (hook_path (fixed "dlq" ∷ fixed "replay" ∷ []))
      (with_params (filters p (("limit", number_text p.limit) ∷ [])))
webhook_call (replay_case_webhook_dlq_selected delivery_ids) =
    send_call post (hook_path (fixed "dlq" ∷ fixed "replay-selected" ∷ [])) (selected delivery_ids)
webhook_call (purge_case_webhook_dlq p) =
    bare_call post (hook_path (fixed "dlq" ∷ fixed "purge" ∷ [])) (
      with_params (
        filters p (
          ("older_than_hours", number_text p.older_than_hours)
          ∷ ("limit", number_text p.limit)
          ∷ [])))
webhook_call (purge_case_webhook_dlq_selected delivery_ids) =
    send_call post (hook_path (fixed "dlq" ∷ fixed "purge-selected" ∷ [])) (selected delivery_ids)
