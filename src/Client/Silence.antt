-- ===== src/Client/Silence.antt =====
-- A call of frontend/src/lib/api.ts that the backend answers without content, through the route of
-- app/api/[...path]/route.ts.
use lang_orch.Base.{String, Option, none, some, ◌≡◌, refl, ap, Value, at}
use lang_orch.Client.{Query, Call}
use lang_orch.Client.Request.{
  Fetch, Answer, err, api_error, sent, request, read_answer, location_after,
}
use lang_orch.Gateway as Gateway
use lang_orch.Gateway.{Headers, Outcome, Response, Environment, proxy_request}
use lang_orch.Gateway.Laws.{IsNoContent, RejectsNoContent, proxy_request-no_content}

-- The response of the route as the browser sees it
abbrev pub through : Response → Answer
through r = record {
  status = r.status;
  content_length = at "content-length" r.headers;
  text = r.body;
}

location-kept : (location : Option String) → location_after location 502 ≡ location
unfolding location_after
location-kept none = refl
location-kept (some path_name) = refl

read-bad :
    (parse_json : String → Option Value) (a : Answer)
    → a.status ≡ 502
    → read_answer parse_json a ≡ err (api_error 502 a.text)
unfolding read_answer
read-bad parse_json a h = rw h refl

module _ (encode : String → String) (print_query : Query → String) (print_json : Value → String)
    (parse_json : String → Option Value)
    (backend : (url method : String) → Headers → Option String → Outcome Response)
    (construct : Response → Outcome Response) (env : Environment)
    (receive : Fetch → Gateway.Request) where
  abbrev pub by_route : Fetch → Option Answer
  by_route f = some (through (proxy_request encode backend construct env (receive f)))

  -- Where the constructor of a response rejects a body with status 204, as browsers' and Node's do, and
  -- every backend answers with status 204 or fails, any call of the client throws an `ApiError` with
  -- status 502, be it a deletion that succeeded, and the window stays where it is.
  pub request-no_content :
      (token location : Option String) (c : Call)
      → RejectsNoContent encode backend construct
      → ((url method : String) (hs : Headers) (body : Option String)
          → IsNoContent encode backend construct (backend url method hs body))
      → (text : String) × (request encode print_query print_json parse_json by_route token location
            c
          ≡ (location, err (api_error 502 text)))
  unfolding request
  request-no_content token location c rejects silent =
      let f = sent encode print_query print_json token c in
      let a = through (proxy_request encode backend construct env (receive f)) in
      let bad = proxy_request-no_content encode backend construct env (receive f) rejects silent in
      (
        a.text,
        rw (read-bad parse_json a bad)
            (ap (λ l. (l, err (api_error 502 a.text))) (rw bad (location-kept location))),
      )
