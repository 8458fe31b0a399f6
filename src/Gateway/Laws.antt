-- ===== src/Gateway/Laws.antt =====
-- Which backend answers a forwarded request: frontend/src/app/api/[...path]/route.ts.
use lang_orch.Base.{String, Option, List, [], ◌∷◌, ◌++◌, ◌<>◌, ◌≡◌, refl, All}
use lang_orch.Gateway.{
  Outcome, answered, failed, Thrown, no_error, Headers, Request, Response, Environment,
  get_backend_candidates, attempt, forwarded, request_body, build_upstream_url, join_path,
  filter_request_headers, filter_response_headers, bad_gateway, try_candidates, proxy_request,
  format_proxy_error,
}

module _ (encode : String → String)
    (fetch : (url method : String) → Headers → Option String → Outcome Response)
    (construct : Response → Outcome Response) where
  abbrev pub Fails : Request → String → Type 0
  Fails r c = (e : Thrown) × (attempt encode fetch construct r c ≡ failed e)

  try_candidates-first :
      (r : Request) (before after : List String) (c : String) (response : Response) (e : Thrown)
      → All (Fails r) before
      → attempt encode fetch construct r c ≡ answered response
      → try_candidates encode fetch construct r (before ++ c ∷ after) e ≡ response
  unfolding try_candidates
  try_candidates-first r [] after c response e fails answers = rw (try_candidates, answers) refl
  try_candidates-first r (b ∷ before) after c response e fails answers =
      rw (try_candidates, fails.0.1)
        (try_candidates-first r before after c response fails.0.0 fails.1 answers)

  -- A request gets the answer of the first candidate that is reached and whose response can be built,
  -- without the headers that are not passed on, however the candidates before it fail.
  pub proxy_request-first :
      (env : Environment) (r : Request) (before after : List String) (c : String)
      (upstream response : Response)
      → get_backend_candidates env ≡ before ++ c ∷ after
      → All (Fails r) before
      → fetch
          (c <> "/api/" <> join_path encode r.path <> r.search)
          r.method
          (filter_request_headers r.headers)
          (request_body r)
        ≡ answered upstream
      → construct (record upstream { headers = filter_response_headers upstream.headers })
        ≡ answered response
      → proxy_request encode fetch construct env r ≡ response
  unfolding proxy_request attempt build_upstream_url
  proxy_request-first env r before after c upstream response split fails reached built =
      rw split (try_candidates-first r before after c response no_error fails (rw reached built))

  try_candidates-last :
      (r : Request) (cs : List String) (c : String) (first last : Thrown)
      → All (Fails r) cs
      → attempt encode fetch construct r c ≡ failed last
      → try_candidates encode fetch construct r (cs ++ c ∷ []) first
        ≡ bad_gateway encode fetch construct last
  unfolding try_candidates
  try_candidates-last r [] c first last fails h = rw (try_candidates, h) refl
  try_candidates-last r (b ∷ cs) c first last fails h =
      rw (try_candidates, fails.0.1) (try_candidates-last r cs c fails.0.0 last fails.1 h)

  -- If every candidate fails, the answer has status 502 and tells the error of the last one.
  pub proxy_request-unreachable :
      (env : Environment) (r : Request) (cs : List String) (c : String) (last : Thrown)
      → get_backend_candidates env ≡ cs ++ c ∷ []
      → All (Fails r) cs
      → attempt encode fetch construct r c ≡ failed last
      → proxy_request encode fetch construct env r
        ≡ record { status = 502; status_text = ""; headers = []; body = format_proxy_error last }
  unfolding proxy_request
  proxy_request-unreachable env r cs c last split fails h =
      rw split (try_candidates-last r cs c no_error last fails h)

  -- A failure, or an answer without content
  unfoldable pub IsNoContent : Outcome Response → Type 0
  IsNoContent (failed e) = Unit
  IsNoContent (answered response) = response.status ≡ 204

  unfoldable pub RejectsNoContent : Type 0
  RejectsNoContent =
      (response : Response) → response.status ≡ 204 → (e : Thrown) × (construct response ≡ failed e)

  forwarded-no_content :
      RejectsNoContent
      → (o : Outcome Response) → IsNoContent o
      → (e : Thrown) × (forwarded encode fetch construct o ≡ failed e)
  unfolding IsNoContent RejectsNoContent
  forwarded-no_content rejects (failed e) h = (e, refl)
  forwarded-no_content rejects (answered response) h =
      rejects (record response { headers = filter_response_headers response.headers }) h

  fails :
      (r : Request) (c : String)
      → RejectsNoContent
      → ((url method : String) (hs : Headers) (body : Option String)
          → IsNoContent (fetch url method hs body))
      → (e : Thrown) × (attempt encode fetch construct r c ≡ failed e)
  unfolding attempt
  fails r c rejects silent =
      forwarded-no_content rejects
        (fetch (build_upstream_url encode c r.path r.search) r.method
          (filter_request_headers r.headers) (request_body r))
        (silent (build_upstream_url encode c r.path r.search) r.method
          (filter_request_headers r.headers) (request_body r))

  try_candidates-no_content :
      (r : Request) (cs : List String) (e : Thrown)
      → RejectsNoContent
      → ((url method : String) (hs : Headers) (body : Option String)
          → IsNoContent (fetch url method hs body))
      → (try_candidates encode fetch construct r cs e).status ≡ 502
  unfolding try_candidates
  try_candidates-no_content r [] e rejects silent = refl
  try_candidates-no_content r (c ∷ cs) e rejects silent =
      let f = fails r c rejects silent in
      rw (try_candidates, f.1) (try_candidates-no_content r cs f.0 rejects silent)

  -- Where the constructor of a response rejects a body with status 204, as browsers' and Node's do, a
  -- request that every backend answers with status 204 gets status 502.
  pub proxy_request-no_content :
      (env : Environment) (r : Request)
      → RejectsNoContent
      → ((url method : String) (hs : Headers) (body : Option String)
          → IsNoContent (fetch url method hs body))
      → (proxy_request encode fetch construct env r).status ≡ 502
  unfolding proxy_request
  proxy_request-no_content env r rejects silent =
      try_candidates-no_content r (get_backend_candidates env) no_error rejects silent
