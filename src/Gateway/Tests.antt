-- ===== src/Gateway/Tests.antt =====
-- Requests to concrete backends.
use lang_orch.Base.{
  ℕ, String, true, false, Option, none, some, [], ◌∷◌, if◌then◌else◌, ◌==◌, eqb, ◌≡◌, refl,
}
use lang_orch.Gateway.{
  Outcome, answered, failed, error, Headers, Request, Response, Environment, get_backend_candidates,
  build_upstream_url, filter_response_headers, attempt, proxy_request,
}
use lang_orch.Gateway.Laws.{RejectsNoContent, proxy_request-first}

abbrev same_text : String → String
same_text s = s

abbrev ok_response : ℕ → Response
ok_response n = record { status = n; status_text = "OK"; headers = []; body = "b" }

-- Only the backend at port 8010 answers.
abbrev fetch_8010 : String → String → Headers → Option String → Outcome Response
fetch_8010 url method hs body =
    if url == "http://127.0.0.1:8010/api/runs"
    then answered (ok_response 200)
    else failed (error "fetch failed" (some "refused"))

abbrev fetch_no_content : String → String → Headers → Option String → Outcome Response
fetch_no_content url method hs body = answered (ok_response 204)

abbrev new_response : Response → Outcome Response
new_response r =
    if eqb r.status 204 then failed (error "Invalid response status code 204" none) else answered r

abbrev runs : Request
runs = record { method = "GET"; headers = []; body = ""; path = "runs" ∷ []; search = "" }

abbrev development : Environment
development = record {
  backend_url = some "http://127.0.0.1:8010/";
  next_public_backend_url = none;
  is_development = true;
}

abbrev production : Environment
production = record { backend_url = none; next_public_backend_url = none; is_development = false }

development_candidates :
    get_backend_candidates development
    ≡ "http://127.0.0.1:8010" ∷ "http://localhost:8000" ∷ "http://127.0.0.1:8000"
      ∷ "http://localhost:8010" ∷ []
unfolding get_backend_candidates
development_candidates = refl

-- Without an address in the environment, the fourth address is the first that is reached.
abbrev unset_development : Environment
unset_development = record {
  backend_url = none;
  next_public_backend_url = none;
  is_development = true;
}

proxy_request-first_example :
    proxy_request same_text fetch_8010 new_response unset_development runs ≡ ok_response 200
unfolding get_backend_candidates attempt filter_response_headers build_upstream_url
proxy_request-first_example =
    let refused = error "fetch failed" (some "refused") in
    proxy_request-first same_text fetch_8010 new_response unset_development runs
      ("http://localhost:8000" ∷ "http://127.0.0.1:8000" ∷ "http://localhost:8010" ∷ []) []
      "http://127.0.0.1:8010" (ok_response 200) (ok_response 200) refl
      ((refused, refl), ((refused, refl), ((refused, refl), tt))) refl refl

new_response-RejectsNoContent : RejectsNoContent same_text fetch_no_content new_response
unfolding RejectsNoContent
new_response-RejectsNoContent r h = (error "Invalid response status code 204" none, rw h refl)
