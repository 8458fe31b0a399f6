-- ===== src/Client/Accounts.antt =====
-- The calls about the session, users, secrets and the configuration: frontend/src/lib/api.ts, lines 816
-- to 919, and about audit events, orchestrators and the pools of agents, lines 935 to 962.
use lang_orch.Base.{String, Option, [], ◌∷◌, ℤ, Value, str, obj, no_fields, field}
use lang_orch.Client.{
  fixed, encoded, nothing, post, put, patch, delete, Call, get_call, send_call, bare_call,
  truthy_text, number_text, with_params,
}

pub record AuditParams : Type 0 where
  pub category : Option String
  pub actor : Option String
  pub action : Option String
  pub search : Option String
  pub limit : Option ℤ
  pub offset : Option ℤ

pub data AccountCall : Type 0 where
  auth_login : (username password : String) → AccountCall
  auth_me : AccountCall
  list_users : AccountCall
  create_user : (body : Value) → AccountCall
  update_user : (user_id : String) → (body : Value) → AccountCall
  delete_user : (user_id : String) → AccountCall
  list_secrets : AccountCall
  create_secret : (body : Value) → AccountCall
  update_secret : (name : String) → (body : Value) → AccountCall
  delete_secret : (name : String) → AccountCall
  get_config : AccountCall
  patch_config : (body : Value) → AccountCall
  test_llm_connection : AccountCall
  list_audit_events : AuditParams → AccountCall
  fetch_orchestrators : AccountCall
  fetch_agent_pools : AccountCall

unfoldable pub account_call : AccountCall → Call
account_call (auth_login username password) =
    send_call post (fixed "auth" ∷ fixed "login" ∷ [])
      (obj (field "username" (str username) (field "password" (str password) no_fields)))
account_call auth_me = get_call (fixed "auth" ∷ fixed "me" ∷ []) nothing
account_call list_users = get_call (fixed "users" ∷ []) nothing
account_call (create_user body) = send_call post (fixed "users" ∷ []) body
account_call (update_user user_id body) = send_call put (fixed "users" ∷ encoded user_id ∷ []) body
account_call (delete_user user_id) = bare_call delete (fixed "users" ∷ encoded user_id ∷ []) nothing
account_call list_secrets = get_call (fixed "secrets" ∷ []) nothing
account_call (create_secret body) = send_call post (fixed "secrets" ∷ []) body
account_call (update_secret name body) = send_call put (fixed "secrets" ∷ encoded name ∷ []) body
account_call (delete_secret name) = bare_call delete (fixed "secrets" ∷ encoded name ∷ []) nothing
account_call get_config = get_call (fixed "config" ∷ []) nothing
account_call (patch_config body) = send_call patch (fixed "config" ∷ []) body
account_call test_llm_connection = bare_call post (fixed "config" ∷ fixed "test-llm" ∷ []) nothing
account_call (list_audit_events p) = get_call (fixed "audit" ∷ []) (
    with_params (
      ("category", truthy_text p.category)
      ∷ ("actor", truthy_text p.actor)
      ∷ ("action", truthy_text p.action)
      ∷ ("search", truthy_text p.search)
      ∷ ("limit", number_text p.limit)
      ∷ ("offset", number_text p.offset)
      ∷ []))
account_call fetch_orchestrators = get_call (fixed "orchestrators" ∷ []) nothing
account_call fetch_agent_pools = get_call (fixed "agents" ∷ fixed "pools" ∷ []) nothing
