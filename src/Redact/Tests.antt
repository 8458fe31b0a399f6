-- ===== src/Redact/Tests.antt =====
-- Redaction of concrete values.
use lang_orch.Base.{
  has_once, ℕ, zero, suc, String, Bool, true, false, Value, str, bool, obj, arr, Fields, no_fields,
  field, no_elements, element, get, has, put, merge, ◌≡◌, refl, lower_code,
}
use lang_orch.Redact.{
  redact_for_display, is_sensitive_key, is_same_text, matches, is_hidden, redaction_placeholder,
}
use lang_orch.Redact.Clean.{clean, redact_for_display-clean}
use lang_orch.Redact.Schema.{
  entries, is_nested, described, add_group, flatten_variables_schema, get-flatten_variables_schema,
}

abbrev no_more : String → Bool
no_more k = false

abbrev login : Value
login = obj (
    field "user" (str "u") (
      field "headers" (arr (element (obj (field "X-Api-Key" (str "k") no_fields)) no_elements))
        no_fields))

key_spelling : is_sensitive_key "X-Api-Key" ≡ true
unfolding is_sensitive_key is_same_text matches lower_code
key_spelling = refl

auth_is_whole : is_sensitive_key "author" ≡ false
unfolding is_sensitive_key is_same_text matches lower_code
auth_is_whole = refl

login_displayed :
    redact_for_display no_more 0 login
    ≡ obj (
        field "user" (str "u") (
          field "headers"
            (arr (element (obj (field "X-Api-Key" (str "***REDACTED***") no_fields)) no_elements))
            no_fields))
unfolding redact_for_display is_hidden is_sensitive_key is_same_text matches lower_code
    redaction_placeholder
login_displayed = refl

redact_for_display-clean_example : clean no_more 11 (redact_for_display no_more 0 login) ≡ true
redact_for_display-clean_example = redact_for_display-clean no_more login

-- Inside eleven objects, a password is displayed as it is.
nested : ℕ → Value → Value
nested zero v = v
nested (suc n) v = obj (field "in" (nested n v) no_fields)

abbrev secret : Value
secret = obj (field "password" (str "p") no_fields)

deep_password : redact_for_display no_more 0 (nested 11 secret) ≡ nested 11 secret
unfolding nested redact_for_display is_hidden is_sensitive_key is_same_text matches lower_code
    redaction_placeholder
deep_password = refl

abbrev schema : Fields
schema = field "pin" (obj (field "sensitive" (bool true) no_fields)) no_fields

-- The metadata of `pin` says nothing of `required`, that of `zip` does.
abbrev groups : Fields
groups =
    field "required"
      (obj (
        field "pin" (obj (field "sensitive" (bool true) no_fields))
          (field "zip" (obj (field "required" (str "on delivery") no_fields)) no_fields)))
      (field "optional" (obj (field "note" (obj no_fields) no_fields)) no_fields)

get-flatten_variables_schema_example :
    get "required" (entries (get "pin" (flatten_variables_schema groups))) ≡ bool true
unfolding is_nested has_once has get entries
get-flatten_variables_schema_example =
    get-flatten_variables_schema groups "pin" "required" refl refl refl refl refl

own_required :
    get "required" (entries (get "zip" (flatten_variables_schema groups))) ≡ str "on delivery"
unfolding flatten_variables_schema add_group described is_nested has get entries merge put
own_required = refl
