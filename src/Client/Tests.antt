-- ===== src/Client/Tests.antt =====
-- Calls at concrete values.
use lang_orch.Base.{
  ◌==◌, ◌≤◌, String, Bool, true, false, Option, none, some, [], ◌∷◌, if◌then◌else◌, ◌<>◌, eqb, ◌≡◌,
  refl, arith, Value, str, obj, no_fields, pos, to_text, at, show, all, get_or, not,
}
use lang_orch.Client.{Query, Call}
use lang_orch.Client.Request.{Result, ok, err, api_error, sent, request, Fetch}
use lang_orch.Client.Urls.{two_true, no_slash}
use lang_orch.Client.Codecs.{escaped, unescaped, escaped-IsCodec}
use lang_orch.Client.Reading.{served, served-ServesDecoded}
use lang_orch.Client.Routes.{routes, fits, TakesFirst, first_fit}
use lang_orch.Client.Cases.{ListCasesParams, list_cases_query}
use lang_orch.Client.Operations.{OperationCall}
use lang_orch.Client.Surface.{ApiCall, call_of}
use lang_orch.Client.Handlers.{IsFree, handler_of}
use lang_orch.Client.Delivery.{sent-handler}
use lang_orch.Client.Forwarding.{received, forwarded-sent}
use lang_orch.Client.Silence.{by_route, request-no_content}
use lang_orch.Client.Steps.{AnalyticsCall, session, empty_queue_analytics}
use lang_orch.Client.Support.{session-missing}
use lang_orch.Client.Limits.{list_cases-limit}
use lang_orch.Gateway.Laws.{RejectsNoContent, IsNoContent}
use lang_orch.Gateway as Gateway
use lang_orch.Gateway.{
  Headers, Outcome, answered, failed, error, Response, Environment, build_upstream_url,
  filter_request_headers, request_body,
}

print_query : Query → String
print_query [] = ""
print_query ((k, v) ∷ q) = k <> "=" <> v <> "&" <> print_query q

is_false : (b : Bool) → not b ≡ true → b ≡ false
is_false b h = ground arith

first_fit-TakesFirst : TakesFirst first_fit
unfolding first_fit
first_fit-TakesFirst [] after r method path h g = rw g refl
first_fit-TakesFirst (b ∷ before) after r method path h g =
    let e = two_true (not (fits b method path)) (all (λ c. not (fits c method path)) before) h in
    rw (is_false (fits b method path) e.0) (first_fit-TakesFirst before after r method path e.1 g)

abbrev trigger : ApiCall
trigger = ApiCall.of_operation (OperationCall.upsert_trigger "a/b" "1.0" (obj no_fields))

abbrev trigger_url : String
unfolding call_of
trigger_url = (sent escaped print_query to_text (some "t") (call_of trigger)).url

-- An identifier with a character that ends the path of a URL is encoded, and decoded by the server.
abbrev questioned : ApiCall
questioned = ApiCall.of_operation (OperationCall.upsert_trigger "a?b" "1.0" (obj no_fields))

sent-handler_example :
    first_fit routes "POST"
      (served (sent escaped print_query to_text (some "t") (call_of questioned)).url)
    ≡ some "upsert_trigger"
unfolding call_of IsFree sent handler_of no_slash
sent-handler_example =
    sent-handler print_query to_text escaped-IsCodec served served-ServesDecoded first_fit
      first_fit-TakesFirst (some "t") questioned
      (tt, ((refl, refl, refl), ((refl, refl, refl), tt))) (refl, (refl, (refl, tt))) refl

questioned_path :
    served (sent escaped print_query to_text (some "t") (call_of questioned)).url
    ≡ "api" ∷ "triggers" ∷ "a?b" ∷ "1.0" ∷ []
unfolding call_of sent escaped unescaped served
questioned_path = refl

-- Decoded, an identifier with a slash is two segments, which fit no route.
slash_in_trigger : first_fit routes "POST" (served trigger_url) ≡ none
unfolding call_of sent escaped unescaped served trigger_url routes first_fit
slash_in_trigger = refl

trigger_url_text : trigger_url ≡ "/api/triggers/a%sb/1.0"
unfolding trigger_url sent escaped call_of
trigger_url_text = refl

-- A run that has the name of another route is not found.
run_named_queue : first_fit routes "GET" ("api" ∷ "runs" ∷ "queue" ∷ []) ≡ some "get_queue_stats"
unfolding routes first_fit
run_named_queue = refl

abbrev lower : String → String
lower s =
    if s == "Authorization"
    then "authorization"
    else if s == "Content-Type"
    then "content-type"
    else s

abbrev arriving : Gateway.Request
arriving =
    received escaped-IsCodec print_query to_text lower (some "t") (("host", "h") ∷ [])
      (call_of trigger)

forwarded-sent_example :
    (build_upstream_url escaped "http://b" arriving.path arriving.search
      ≡ "http://b" <> trigger_url)
    × (get_or (request_body arriving) "" ≡ "[object Object]")
    × (at "content-type" (filter_request_headers arriving.headers) ≡ some "application/json")
    × (at "authorization" (filter_request_headers arriving.headers) ≡ some "Bearer t")
unfolding call_of sent to_text
forwarded-sent_example =
    forwarded-sent escaped-IsCodec print_query to_text "http://b" lower "t" (("host", "h") ∷ [])
      trigger refl refl refl (tt, ((refl, refl, refl), ((refl, refl, refl), tt)))

abbrev empty_response : Response
empty_response = record { status = 204; status_text = ""; headers = []; body = "" }

abbrev deleting : String → String → Headers → Option String → Outcome Response
deleting url method hs body = answered empty_response

abbrev new_response : Response → Outcome Response
new_response r =
    if eqb r.status 204 then failed (error "Invalid response status code 204" none) else answered r

abbrev one_backend : Environment
one_backend = record {
  backend_url = some "http://b";
  next_public_backend_url = none;
  is_development = false;
}

abbrev receive : Fetch → Gateway.Request
receive f = record {
  method = f.method;
  headers = f.headers;
  body = get_or f.body "";
  path = "leases" ∷ "7" ∷ [];
  search = "";
}

revoke : Call
revoke = call_of (ApiCall.of_operation (OperationCall.revoke_lease "7"))

request-no_content_example :
    (text : String) × (request escaped print_query to_text
        (λ _. none)
        (by_route escaped print_query to_text (λ _. none) deleting new_response one_backend receive)
        none
        (some "/leases")
        revoke
      ≡ (some "/leases", err (api_error 502 text)))
unfolding RejectsNoContent IsNoContent
request-no_content_example =
    request-no_content escaped print_query to_text (λ _. none) deleting new_response one_backend
      receive none (some "/leases") revoke
      (λ response h. (error "Invalid response status code 204" none, rw h refl)) (λ _ _ _ _. refl)

abbrev asked : Result Value → AnalyticsCall
asked r = record { project_id = none; risk_window_minutes = none; send = λ _. r }

session-missing_example :
    session
      (asked (ok (str "a"))
        ∷ asked (err (api_error 500 ""))
        ∷ asked (err (api_error 404 ""))
        ∷ asked (ok (str "b"))
        ∷ [])
      none
    ≡ (ok (str "a"), true)
      ∷ (err (api_error 500 ""), true)
      ∷ (ok empty_queue_analytics, true)
      ∷ (ok empty_queue_analytics, false)
      ∷ []
session-missing_example =
    session-missing (asked (ok (str "a")) ∷ asked (err (api_error 500 "")) ∷ [])
      (asked (ok (str "b")) ∷ []) (asked (err (api_error 404 ""))) none refl (refl, (refl, tt)) refl

abbrev all_cases : ListCasesParams
all_cases = record {
  project_id = none;
  status = some "open";
  owner = none;
  external_ref = none;
  order = none;
  limit = some (pos 2000);
  offset = none;
}

list_cases-limit_example :
    (at "limit" (list_cases_query all_cases) ≡ some "500") × (1 ≤ 500) × (500 ≤ 500)
unfolding show
list_cases-limit_example = list_cases-limit all_cases (pos 2000) refl
